-- ===== src/Vary/Validity.antt =====
-- VRY_Validate of bin/varnishd/cache_vary.c, on the strings that VRY_Create makes.
use pkg_varnish.Prelude.{
  ℕ, suc, ◌+◌, ◌/◌, ◌%◌, ◌≡◌, refl, sym, ap, ◌∙◌, ◌≢◌, true, false, some, List, [], ◌∷◌, ◌++◌,
  arith, ◌==◌, length, drop, length-append,
}
use mathlib.Core.List.{append_assoc}
use pkg_varnish.Vary.{byte, vbe16enc, until_nul, vry_len, content, value_len}
use pkg_varnish.Vary.Entries.{Entry, IsEntry, encode, named, length-named, encode-vry_len}
use pkg_varnish.Vary.Building.{drop_front}
use pkg_varnish.Vary.Matching.{encode_all}
use pkg_varnish.Vary.Create.{validate}

-- A C string.
abbrev IsNulFree : List ℕ → Type 0
IsNulFree [] = Unit {0}
IsNulFree (b ∷ bs) = (b ≢ 0) × IsNulFree bs

abbrev AreNamed : List Entry → Type 0
AreNamed [] = Unit {0}
AreNamed (e ∷ es) = IsEntry e × IsNulFree e.name × AreNamed es

length-until_nul :
    (name rest : List ℕ)
    → IsNulFree name
    → length (until_nul (name ++ (b':' ∷ 0 ∷ rest))) ≡ length name + 1
unfolding until_nul
length-until_nul [] rest h = refl
length-until_nul (b ∷ bs) rest (n, h) =
    let z : (b == 0) ≡ false = ground arith in rw z (omega (arith, length-until_nul bs rest h))

module _ (e : Entry) (r : List ℕ) where
  -- The entry's bytes, from its name on.
  flat :
      encode e ++ r
      ≡ vbe16enc (value_len e.value)
        ++ ((length e.name + 1) ∷ (e.name ++ (b':' ∷ 0 ∷ (content e.value ++ r))))
  unfolding encode vbe16enc
  flat =
      ap (λ t. value_len e.value / 256 ∷ value_len e.value % 256 ∷ (length e.name + 1) ∷ t)
        (append_assoc (e.name ++ (b':' ∷ 0 ∷ [])) (content e.value) r
          ∙ append_assoc e.name (b':' ∷ 0 ∷ []) (content e.value ++ r))

  entry_length : length (encode e) ≡ length e.name + 5 + length (content e.value)
  unfolding encode vbe16enc
  entry_length =
      let a = length-append (named e.name) (content e.value) in
      let l = length-named e.name in omega arith

  validate-encode :
      (fuel : ℕ)
      → IsEntry e
      → IsNulFree e.name
      → validate (suc fuel) (encode e ++ r) ≡ validate fuel r
  unfolding validate
  validate-encode fuel h n =
      let b : byte (encode e ++ r) 2 ≡ length e.name + 1 = rw flat (unfold byte vbe16enc in refl) in
      let l : length (until_nul (drop 3 (encode e ++ r))) ≡ length e.name + 1 =
        rw flat (unfold vbe16enc in length-until_nul e.name (content e.value ++ r) n) in
      let d : drop (vry_len (encode e ++ r)) (encode e ++ r) ≡ r =
        ap (λ k. drop k (encode e ++ r)) (encode-vry_len e r h ∙ sym entry_length)
        ∙ drop_front (encode e) r in
      let t : (length (until_nul (drop 3 (encode e ++ r))) == byte (encode e ++ r) 2) ≡ true =
        ground arith in
      let z : (byte (encode e ++ r) 2 == 0) ≡ false = ground arith in rw z (rw t (rw d refl))

-- VRY_Validate of cache_vary.c fails no assertion on a string of entries that fit their lengths and
-- whose names hold no nul, and needs a round for each of them and one more.
validate-encode_all :
    (es : List Entry) → AreNamed es → validate (suc (length es)) (encode_all es) ≡ some tt
unfolding encode_all
validate-encode_all [] a = unfold validate byte in refl
validate-encode_all (e ∷ es) (h, n, a) =
    validate-encode e (encode_all es) (suc (length es)) h n ∙ validate-encode_all es a
