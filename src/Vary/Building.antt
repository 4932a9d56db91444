-- ===== src/Vary/Building.antt =====
-- The entries that VRY_Match of bin/varnishd/cache_vary.c builds from the request's headers.
use pkg_varnish.Prelude.{
  ℕ, suc, ◌+◌, ◌-◌, ◌≤◌, ◌<◌, ltb, ◌≡◌, refl, ap, ◌∙◌, Bool, true, false, none, some, List, [], ◌∷◌,
  ◌++◌, arith, length, take, drop, set,
}
use mathlib.Core.List.{append_assoc}
use pkg_varnish.Http.{Http, header, is_askable, get_hdr}
use pkg_varnish.Vary.{byte, same, vry_len, vry_cmp, content, trim_value, header_of, new_entry}
use pkg_varnish.Vary.Entries.{
  Entry, IsEntry, named, encode, length-named, encode-vry_len, encode_split,
}

pub take_front : (xs ys : List ℕ) → take (length xs) (xs ++ ys) ≡ xs
take_front [] ys = refl
take_front (x ∷ xs) ys = ap (λ t. x ∷ t) (take_front xs ys)

pub drop_front : (xs ys : List ℕ) → drop (length xs) (xs ++ ys) ≡ ys
drop_front [] ys = refl
drop_front (x ∷ xs) ys = drop_front xs ys

pub set_front : (xs ys : List ℕ) (i v : ℕ) → set (xs ++ ys) (length xs + i) v ≡ xs ++ set ys i v
set_front [] ys i v = let z : 0 + i ≡ i = omega arith in rw z refl
set_front (x ∷ xs) ys i v =
    let z : suc (length xs) + i ≡ suc (length xs + i) = omega arith in
    rw (z, set_front xs ys i v) refl

-- There is no entry at the start of the bytes.
abbrev pub IsBlank : List ℕ → Type 0
IsBlank t = (byte t 2 ≡ 0) × (3 ≤ length t)

pub set-IsBlank :
    (t : List ℕ) → 3 ≤ length t → IsBlank (set t 2 0) × (length (set t 2 0) ≡ length t)
unfolding byte
set-IsBlank [] h = omega arith
set-IsBlank (a ∷ []) h = omega arith
set-IsBlank (a ∷ b ∷ []) h = omega arith
set-IsBlank (a ∷ b ∷ c ∷ t) h = ((refl, omega arith), refl)

pub vry_cmp_blank :
    (http_gzip_support : Bool) (e : Entry) (r t : List ℕ)
    → IsEntry e
    → IsBlank t
    → vry_cmp http_gzip_support (encode e ++ r) t ≡ 1
unfolding vry_cmp same byte
vry_cmp_blank gzip e r [] he (z, h) = omega arith
vry_cmp_blank gzip e r (a ∷ []) he (z, h) = omega arith
vry_cmp_blank gzip e r (a ∷ b ∷ []) he (z, h) = omega arith
vry_cmp_blank gzip e r (a ∷ b ∷ c ∷ t) he (z, h) =
    let z' : vry_len (encode e ++ r)
        ≡ suc (suc (suc (length e.name + 2 + length (content e.value)))) =
      encode-vry_len e r he ∙ (omega arith) in
    let z2 : length e.name + 1 + 2 ≡ suc (length e.name + 2) = omega arith in
    rw (z', encode_split e r, z2) (ground arith)

module _ (http_gzip_support : Bool) (http : Http) where
  -- The request's entry for a header.
  abbrev pub mine : List ℕ → Entry
  mine name = record { name = name; value = trim_value (header http name) }

  pub header_of-encode :
      (e : Entry) (r : List ℕ)
      → length e.name < 127
      → header_of http_gzip_support http (encode e ++ r) ≡ some (mine e.name).value
  unfolding header_of byte get_hdr is_askable
  header_of-encode e r short =
      let z : length e.name + 1 - 1 ≡ length e.name = omega arith in
      let askable : ltb (length e.name + 1) 128 ≡ true = ground arith in
      rw
        (
          encode_split e r,
          z,
          append_assoc e.name (b':' ∷ 0 ∷ []) (content e.value ++ r),
          take_front e.name ((b':' ∷ 0 ∷ []) ++ (content e.value ++ r)),
          askable,
        )
        refl

  -- The assertion of http_GetHdr on a name of 127 bytes or more.
  pub header_of-none :
      (e : Entry) (r : List ℕ)
      → 127 ≤ length e.name
      → header_of http_gzip_support http (encode e ++ r) ≡ none
  unfolding header_of byte get_hdr is_askable
  header_of-none e r long =
      let z : length e.name + 1 - 1 ≡ length e.name = omega arith in
      let unaskable : ltb (length e.name + 1) 128 ≡ false = ground arith in
      rw
        (
          encode_split e r,
          z,
          append_assoc e.name (b':' ∷ 0 ∷ []) (content e.value ++ r),
          take_front e.name ((b':' ∷ 0 ∷ []) ++ (content e.value ++ r)),
          unaskable,
        )
        refl

  pub new_entry-encode :
      (e : Entry) (r : List ℕ)
      → new_entry (encode e ++ r) (mine e.name).value ≡ encode (mine e.name)
  unfolding new_entry byte encode
  new_entry-encode e r =
      let l = length-named e.name in
      let z : length e.name + 1 + 2 ≡ length (named e.name) = omega arith in
      let x = content e.value ++ r in
      let front : take (length e.name + 1 + 2) (named e.name ++ x) ≡ named e.name =
        ap (λ k. take k (named e.name ++ x)) z ∙ take_front (named e.name) x in
      rw (encode_split e r, front) refl
