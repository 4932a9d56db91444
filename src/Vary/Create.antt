-- ===== src/Vary/Create.antt =====
-- VRY_Create and VRY_Validate of bin/varnishd/cache_vary.c. The two string buffers are the texts that
-- they hold.
use pkg_varnish.Prelude.{
  ℕ, zero, suc, ◌+◌, Bool, false, not, ◌||◌, Option, none, some, List, [], ◌∷◌, ◌++◌, ltb, ◌==◌,
  if◌then◌else◌, length, drop, ◌>>=◌, ◌>>◌, assert,
}
use pkg_varnish.Prelude.Ctype.{codes}
use pkg_varnish.Vct.{is_sp}
use pkg_varnish.Http.{Http, header, get_hdr, skip_sp}
use pkg_varnish.Vary.{byte, vbe16enc, vry_len, until_nul, trim_value, value_len, content, is_short}

-- No Vary header, an error, or the matching string.
pub data Created : Type 0 where
  no_vary : Created
  failed : Created
  created : List ℕ → Created

unfoldable pub ends_name : ℕ → Bool
ends_name c = is_sp c || c == b','

-- The bytes from p to q, and those from q on.
unfoldable pub token : List ℕ → List ℕ
token [] = []
token (c ∷ cs) = if ends_name c then [] else c ∷ token cs

unfoldable pub after_token : List ℕ → List ℕ
after_token [] = []
after_token (c ∷ cs) = if ends_name c then c ∷ cs else after_token cs

unfoldable pub starts_sp : Option (List ℕ) → Bool
starts_sp none = false
starts_sp (some []) = false
starts_sp (some (c ∷ cs)) = is_sp c

-- The header-matching string of a name.
unfoldable pub header_string : List ℕ → List ℕ
header_string name = (length name + 1) ∷ (name ++ (b':' ∷ 0 ∷ []))

unfoldable pub prepend : List ℕ → Created → Created
prepend entry no_vary = no_vary
prepend entry failed = failed
prepend entry (created s) = created (entry ++ s)

module _ (http : Http) where
  -- The value is the one that http_GetHdr found.
  unfoldable pub entry_of : List ℕ → List ℕ
  entry_of name =
      let value = trim_value (header http name) in
      vbe16enc (value_len value) ++ (header_string name ++ content value)

  -- What follows a name: the end, a comma, or an error.
  unfoldable pub next_name : (List ℕ → Option Created) → List ℕ → Option Created
  next_name loop [] = some (created (0xff ∷ 0xff ∷ 0 ∷ []))
  next_name loop (c ∷ cs) = if c == b',' then loop cs else some failed

  unfoldable pub create_loop : ℕ → List ℕ → Option Created
  create_loop zero v = none
  create_loop (suc fuel) [] = some (created (0xff ∷ 0xff ∷ 0 ∷ []))
  create_loop (suc fuel) (c ∷ cs) =
      let name = token (c ∷ cs) in
      if is_sp c
      then create_loop fuel cs
      else (if ltb 127 (length name)
          then some failed
          else (get_hdr http name >>= λ h.
              assert (not (starts_sp h))
              >> (if not (is_short (trim_value h))
                  then some failed
                  else (next_name (create_loop fuel) (skip_sp (after_token (c ∷ cs))) >>= λ rest.
                      some (prepend (entry_of name) rest)))))

  unfoldable pub create_of : Option (List ℕ) → Option Created
  create_of none = some no_vary
  create_of (some v) = create_loop (length v + 1) v

  -- VRY_Create, with a turn of fuel for each byte of the header and one more.
  unfoldable pub create : Http → Option Created
  create hp = get_hdr hp (codes "Vary") >>= create_of

-- VRY_Validate.
unfoldable pub validate : ℕ → List ℕ → Option (Unit {0})
validate zero vary = none
validate (suc fuel) vary =
    if byte vary 2 == 0
    then some tt
    else (assert (length (until_nul (drop 3 vary)) == byte vary 2)
        >> validate fuel (drop (vry_len vary) vary))
