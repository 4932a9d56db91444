-- ===== src/Vary/Entries.antt =====
-- The entries of a vary string of bin/varnishd/cache_vary.c, and vry_cmp on them.
use pkg_varnish.Prelude.{
  ℕ, suc, ◌+◌, ◌*◌, ◌/◌, ◌%◌, ◌<◌, ◌≡◌, refl, sym, ap, ◌∙◌, inl, inr, Bool, true, false, ◌&&◌, ◌||◌,
  Option, none, some, List, [], ◌∷◌, ◌++◌, arith, ◌==◌, if◌then◌else◌, Bool-cases, length,
  length-append,
}
use mathlib.Core.List.{append_assoc}
use pkg_varnish.Http.{eq_nocase}
use pkg_varnish.Vary.{
  byte, vbe16dec, vbe16enc, same, no_header, vry_len, until_nul, h_accept_encoding, vry_cmp,
  value_len, content, is_short,
}

unfoldable pub eq_bytes : List ℕ → List ℕ → Bool
eq_bytes [] [] = true
eq_bytes [] (b ∷ bs) = false
eq_bytes (a ∷ xs) [] = false
eq_bytes (a ∷ xs) (b ∷ bs) = a == b && eq_bytes xs bs

unfoldable pub eq_value : Option (List ℕ) → Option (List ℕ) → Bool
eq_value none none = true
eq_value none (some w) = false
eq_value (some v) none = false
eq_value (some v) (some w) = eq_bytes v w

-- A header's name, and its value where there is one.
pub record Entry : Type 0 where
  pub name : List ℕ
  pub value : Option (List ℕ)

-- The name fits the byte that holds its length, and the value the two that hold its.
abbrev pub IsEntry : Entry → Type 0
IsEntry e = (length e.name < 255) × (is_short e.value ≡ true)

-- What follows the length of the value.
abbrev pub named : List ℕ → List ℕ
named name = (length name + 1) ∷ (name ++ (b':' ∷ 0 ∷ []))

unfoldable pub encode : Entry → List ℕ
encode e = vbe16enc (value_len e.value) ++ (named e.name ++ content e.value)

-- Is it the header that does not matter where the server compresses?
abbrev pub is_skipped : Bool → List ℕ → Bool
is_skipped http_gzip_support name =
    http_gzip_support && eq_nocase h_accept_encoding (until_nul (named name))

same-append :
    (x y a b : List ℕ) (k : ℕ)
    → length x ≡ length y
    → same (length x + k) (x ++ a) (y ++ b) ≡ (eq_bytes x y && same k a b)
unfolding same eq_bytes
same-append [] [] a b k e = let z : 0 + k ≡ k = omega arith in rw z refl
same-append [] (y ∷ ys) a b k e = ground arith
same-append (x ∷ xs) [] a b k e = ground arith
same-append (x ∷ xs) (y ∷ ys) a b k e =
    let z : suc (length xs) + k ≡ suc (length xs + k) = omega arith in
    rw z (ground (arith, same-append xs ys a b k (omega arith)))

pub eq_bytes_refl : (x : List ℕ) → eq_bytes x x ≡ true
unfolding eq_bytes
eq_bytes_refl [] = refl
eq_bytes_refl (x ∷ xs) = ground (arith, eq_bytes_refl xs)

pub eq_bytes→path : (x y : List ℕ) → eq_bytes x y ≡ true → x ≡ y
unfolding eq_bytes
eq_bytes→path [] [] e = refl
eq_bytes→path [] (y ∷ ys) e = ground arith
eq_bytes→path (x ∷ xs) [] e = ground arith
eq_bytes→path (x ∷ xs) (y ∷ ys) e =
    let h : x ≡ y = ground arith in
    let t : eq_bytes xs ys ≡ true = ground arith in rw (h, eq_bytes→path xs ys t) refl

eq_bytes-append_false :
    (x y a b : List ℕ)
    → length x ≡ length y
    → eq_bytes x y ≡ false
    → eq_bytes (x ++ a) (y ++ b) ≡ false
unfolding eq_bytes
eq_bytes-append_false [] [] a b l e = ground arith
eq_bytes-append_false [] (y ∷ ys) a b l e = ground arith
eq_bytes-append_false (x ∷ xs) [] a b l e = ground arith
eq_bytes-append_false (x ∷ xs) (y ∷ ys) a b l e = ground (arith, eq_bytes-append_false xs ys a b)

until_nul-append :
    (x y : List ℕ) → until_nul ((x ++ (b':' ∷ 0 ∷ [])) ++ y) ≡ until_nul (x ++ (b':' ∷ 0 ∷ []))
unfolding until_nul
until_nul-append [] y = refl
until_nul-append (x ∷ xs) y = rw (until_nul-append xs y) refl

until_nul-named : (n y : List ℕ) → until_nul (named n ++ y) ≡ until_nul (named n)
unfolding until_nul
until_nul-named n y = rw (until_nul-append n y) refl

pub length-named : (n : List ℕ) → length (named n) ≡ length n + 3
length-named n = let l = length-append n (b':' ∷ 0 ∷ []) in omega arith

same-named :
    (n m a b : List ℕ) (k : ℕ)
    → same (length n + 3 + k) (named n ++ a) (named m ++ b) ≡ (eq_bytes n m && same k a b)
same-named n m a b k = elim (Bool-cases (eq_bytes n m)) [
  | inl e ↦
      let h : m ≡ n = sym (eq_bytes→path n m e) in
      let t : same (length (named n) + k) (named n ++ a) (named n ++ b) ≡ same k a b =
        same-append (named n) (named n) a b k refl ∙ (rw (eq_bytes_refl (named n)) refl) in
      let l = length-named n in
      let z : length n + 3 + k ≡ length (named n) + k = omega arith in rw (h, eq_bytes_refl n, z) t
  | inr e ↦ elim (Bool-cases (length n == length m)) [
    | inl l ↦
        let ln = length-named n in
        let lm = length-named m in
        let z : length n + 3 + k ≡ length (named n) + k = omega arith in
        let f : eq_bytes (named n) (named m) ≡ false =
          unfold eq_bytes in
          ground
            (arith, eq_bytes-append_false n m (b':' ∷ 0 ∷ []) (b':' ∷ 0 ∷ []) (ground arith) e) in
        rw (z, e) (same-append (named n) (named m) a b k (ground arith) ∙ (rw f refl))
    | inr l ↦
        let z : length n + 3 + k ≡ suc (length n + 2 + k) = omega arith in
        rw (z, e) (unfold same in ground arith)
  ]
]

same-content :
    (v w : Option (List ℕ)) (a b : List ℕ)
    → is_short v ≡ true
    → is_short w ≡ true
    → (value_len v / 256 == value_len w / 256
        && (value_len v % 256 == value_len w % 256
            && same (length (content v)) (content v ++ a) (content w ++ b)))
      ≡ eq_value v w
unfolding same eq_value value_len content is_short
same-content none none a b hv hw = refl
same-content none (some w) a b hv hw = ground arith
same-content (some v) none a b hv hw = ground arith
same-content (some v) (some w) a b hv hw =
    let l : eq_bytes v w ≡ true → length v ≡ length w = λ e. ap length (eq_bytes→path v w e) in
    let s : length v ≡ length w → same (length v) (v ++ a) (w ++ b) ≡ eq_bytes v w = λ e.
      let z : length v ≡ length v + 0 = omega arith in
      ap (λ n. same n (v ++ a) (w ++ b)) z ∙ same-append v w a b 0 e ∙ (ground arith) in
    elim (Bool-cases (length v == length w)) [
      | inl e ↦ let s' = s (ground arith) in ground arith
      | inr e ↦ ground (arith, l)
    ]

pub encode-vry_len :
    (e : Entry) (r : List ℕ)
    → IsEntry e
    → vry_len (encode e ++ r) ≡ length e.name + 5 + length (content e.value)
unfolding vry_len encode vbe16dec vbe16enc byte value_len content is_short
encode-vry_len e r (n, v) = decoded e.value v
  where
    decoded :
        (v : Option (List ℕ))
        → is_short v ≡ true
        → 2
            + (length e.name + 1)
            + 2
            + (if value_len v / 256 * 256 + value_len v % 256 == no_header
                then 0
                else value_len v / 256 * 256 + value_len v % 256)
          ≡ length e.name + 5 + length (content v)
    decoded none v = ground arith
    decoded (some h) v = ground arith

pub encode_split :
    (e : Entry) (r : List ℕ)
    → encode e ++ r
      ≡ (value_len e.value / 256)
        ∷ ((value_len e.value % 256) ∷ (named e.name ++ (content e.value ++ r)))
unfolding encode vbe16enc
encode_split e r =
    ap (λ t. (value_len e.value / 256) ∷ ((value_len e.value % 256) ∷ t))
      (append_assoc (named e.name) (content e.value) r)

-- vry_cmp of cache_vary.c: two entries, whatever follows them, whose names and values fit their lengths,
-- compare as of another header exactly where their names differ; as the same where the values are the
-- same too, or the header is Accept-Encoding and the server compresses; and as of another content else.
pub vry_cmp-encode :
    (http_gzip_support : Bool) (e f : Entry) (r s : List ℕ)
    → IsEntry e
    → IsEntry f
    → vry_cmp http_gzip_support (encode e ++ r) (encode f ++ s) ≡ (
        if eq_bytes e.name f.name
        then (if eq_value e.value f.value || is_skipped http_gzip_support e.name then 0 else 2)
        else 1)
unfolding vry_cmp byte same
vry_cmp-encode gzip e f r s he hf =
    let a = content e.value ++ r in
    let b = content f.value ++ s in
    let z : length e.name + 1 + 2 ≡ length e.name + 3 + 0 = omega arith in
    let second : same (length e.name + 1 + 2) (named e.name ++ a) (named f.name ++ b)
        ≡ eq_bytes e.name f.name =
      rw z (same-named e.name f.name a b 0 ∙ (ground arith)) in
    let z' : vry_len (encode e ++ r) ≡ suc (suc (length e.name + 3 + length (content e.value))) =
      encode-vry_len e r he ∙ (omega arith) in
    let first : same (vry_len (encode e ++ r)) (encode e ++ r) (encode f ++ s)
        ≡ (eq_bytes e.name f.name && eq_value e.value f.value) =
      rw
        (
          z',
          encode_split e r,
          encode_split f s,
          same-named e.name f.name a b (length (content e.value)),
        )
        (ground (arith, same-content e.value f.value r s he.1 hf.1)) in
    let skip : until_nul (named e.name ++ a) ≡ until_nul (named e.name) =
      until_nul-named e.name a in
    rw (first, encode_split e r, encode_split f s, second, skip) (ground arith)
