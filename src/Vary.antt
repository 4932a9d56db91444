-- ===== src/Vary.antt =====
-- bin/varnishd/cache_vary.c: the matching of an object's headers against a request's.
-- A vary string is a list of bytes, and a pointer into it is what is left of it from there. The
-- request's own buffer is cut in two: `behind` from vary_b to the pointer, `ahead` from there to
-- vary_e. A failed assertion is `none`.
pub mod Create
pub mod Creating
pub mod RoundTrip
pub mod Entries
pub mod Matching
pub mod Tests
pub mod Building
pub mod Finding
pub mod Validity
use pkg_varnish.Prelude.{
  ℕ, zero, suc, ◌+◌, ◌-◌, ◌*◌, ◌/◌, ◌%◌, ◌^◌, ◌≤◌, ◌<◌, ◌≡◌, refl, sym, ap, ◌∙◌, ◌≢◌, ◌↔◌, ◌⊎◌, inl,
  inr, Bool, true, false, not, ◌&&◌, ◌||◌, Option, none, some, List, [], ◌∷◌, ◌++◌, arith, ltb, leb,
  ◌==◌, if◌then◌else◌, ltb→lt, leb→le, ==_iff, Bool-cases, Option-cases, length, length-append,
  take, drop, set, ◌>>=◌, ◌>>◌, assert,
}
use pkg_varnish.Prelude.Ctype.{codes}
use pkg_varnish.Vct.{is_sp}
use pkg_varnish.Http.{Http, get_hdr, eq_nocase}

-- 0 past the end.
unfoldable pub byte : List ℕ → ℕ → ℕ
byte [] i = 0
byte (b ∷ bs) zero = b
byte (b ∷ bs) (suc i) = byte bs i

unfoldable pub vbe16dec : List ℕ → ℕ
vbe16dec p = byte p 0 * 256 + byte p 1

unfoldable pub vbe16enc : ℕ → List ℕ
vbe16enc l = l / 256 ∷ l % 256 ∷ []

-- `!memcmp(a, b, n)`: nothing is the same as what is past the end.
unfoldable pub same : ℕ → List ℕ → List ℕ → Bool
same zero a b = true
same (suc n) [] b = false
same (suc n) (x ∷ a) [] = false
same (suc n) (x ∷ a) (y ∷ b) = x == y && same n a b

abbrev pub no_header : ℕ
no_header = 0xffff

unfoldable pub vry_len : List ℕ → ℕ
vry_len p = 2 + byte p 2 + 2 + (if vbe16dec p == no_header then 0 else vbe16dec p)

unfoldable pub until_nul : List ℕ → List ℕ
until_nul [] = []
until_nul (b ∷ bs) = if b == 0 then [] else b ∷ until_nul bs

-- H_Accept_Encoding: a byte of length before the name, and the colon.
abbrev pub h_accept_encoding : List ℕ
h_accept_encoding = 16 ∷ codes "Accept-Encoding:"

-- 0 where they are the same or it does not matter, 1 for another header, 2 for another content.
unfoldable pub vry_cmp : Bool → List ℕ → List ℕ → ℕ
vry_cmp http_gzip_support v1 v2 =
    if same (vry_len v1) v1 v2
    then 0
    else (if not (same (byte v1 2 + 2) (drop 2 v1) (drop 2 v2))
        then 1
        else (if http_gzip_support && eq_nocase h_accept_encoding (until_nul (drop 2 v1))
            then 0
            else 2))

unfoldable pub trim : List ℕ → List ℕ
trim [] = []
trim (c ∷ cs) = trimmed c (trim cs)
  where
    trimmed : ℕ → List ℕ → List ℕ
    trimmed c [] = if is_sp c then [] else c ∷ []
    trimmed c (d ∷ ds) = c ∷ d ∷ ds

unfoldable pub trim_value : Option (List ℕ) → Option (List ℕ)
trim_value none = none
trim_value (some h) = some (trim h)

-- The length of a value, or that there is none; and its bytes.
unfoldable pub value_len : Option (List ℕ) → ℕ
value_len none = no_header
value_len (some h) = length h

unfoldable pub content : Option (List ℕ) → List ℕ
content none = []
content (some h) = h

unfoldable pub is_short : Option (List ℕ) → Bool
is_short none = true
is_short (some h) = ltb (length h) no_header

pub record Place : Type 0 where
  pub behind : List ℕ
  pub ahead : List ℕ
  pub oflo : Bool

pub record Matched : Type 0 where
  pub buffer : List ℕ
  pub vary_l : Option ℕ
  pub retval : Bool

-- memcpy over the start of `ys`.
unfoldable pub overwrite : List ℕ → List ℕ → List ℕ
overwrite xs ys = xs ++ drop (length xs) ys

-- The end marker; after an overflow it is all there is.
unfoldable pub finish : Place → Bool → Matched
finish at retval =
    let oflo = at.oflo || ltb (length at.ahead) 3 in
    let behind = if oflo then [] else at.behind in
    let ahead = if oflo then at.behind ++ at.ahead else at.ahead in
    record {
      buffer = behind ++ overwrite (0xff ∷ 0xff ∷ 0 ∷ []) ahead;
      vary_l = if oflo then none else some (length behind + 3);
      retval = retval;
    }

-- The entry for the header that `vary` names, with the request's value.
unfoldable pub new_entry : List ℕ → Option (List ℕ) → List ℕ
new_entry vary value =
    vbe16enc (value_len value) ++ (take (byte vary 2 + 2) (drop 2 vary) ++ content value)

module _ (http_gzip_support : Bool) (http : Http) where
  -- The request's value of the header that the entry names. `none` is http_GetHdr's assertion.
  unfoldable pub header_of : List ℕ → Option (Option (List ℕ))
  header_of vary = get_hdr http (take (byte vary 2 - 1) (drop 3 vary)) >>= λ h. some (trim_value h)

  -- Build a new entry, from the start of the buffer where there is no space for it.
  unfoldable pub build : List ℕ → Place → Option Place
  build vary at = header_of vary >>= λ value.
      let ln = 2 + byte vary 2 + 2 + length (content value) in
      let at' : Place =
        if leb (length at.ahead) ln
        then record { behind = []; ahead = at.behind ++ at.ahead; oflo = true }
        else at in
      assert (is_short value)
      >> (assert (ltb (ln + 2) (length at'.ahead))
          >> some
              record at' { ahead = set (overwrite (new_entry vary value) at'.ahead) (ln + 2) 0 })

  -- The request's entry for the header of the object's.
  unfoldable pub find_entry : List ℕ → Place → Option Place
  find_entry vary at =
      if vry_cmp http_gzip_support vary at.ahead == 1
      then (build vary at >>= λ at'.
          assert (not (vry_cmp http_gzip_support vary at'.ahead == 1)) >> some at')
      else some at

  unfoldable pub match_loop : ℕ → List ℕ → Place → Bool → Option Matched
  match_loop zero vary at retval = none
  match_loop (suc fuel) vary at retval =
      if byte vary 2 == 0
      then some (finish at retval)
      else (find_entry vary at >>= λ at'.
          let n = vry_len at'.ahead in
          match_loop fuel (drop (vry_len vary) vary)
            record at' { behind = at'.behind ++ take n at'.ahead; ahead = drop n at'.ahead }
            (retval && vry_cmp http_gzip_support vary at'.ahead == 0))

  -- VRY_Match, with a turn of fuel for each byte.
  unfoldable pub match : List ℕ → List ℕ → Option Matched
  match buffer vary =
      match_loop (length vary) vary record { behind = []; ahead = buffer; oflo = false } true
