-- ===== src/Http/Lookup.antt =====
-- The header lookup of bin/varnishd/cache_http.c on lines of the form `name:value`.
use pkg_varnish.Prelude.{
  ℕ, suc, ◌+◌, ◌-◌, ◌≤◌, ◌≡◌, refl, sym, ap, ◌≢◌, inl, inr, true, false, Option, none, some, List,
  [], ◌∷◌, ◌++◌, arith, ltb, if◌then◌else◌, Bool-cases, Option-cases, length, drop,
}
use pkg_varnish.Http.{
  Line, Http, eq_nocase, line_is, find_from, find_hdr, text_at, value_at, header, is_askable,
  get_hdr, skip_sp, hdr_is, is_value,
}

-- A name has no colon in it.
abbrev pub IsName : List ℕ → Type 0
IsName [] = Unit {0}
IsName (c ∷ cs) = (c ≢ b':') × IsName cs

pub record Field : Type 0 where
  pub name : List ℕ
  pub value : List ℕ

abbrev pub line : Field → Line
line h = record { text = h.name ++ b':' ∷ h.value; filter = false }

abbrev pub lines : List Field → List Line
lines [] = []
lines (h ∷ hs) = line h ∷ lines hs

abbrev pub AllNamed : List Field → Type 0
AllNamed [] = Unit {0}
AllNamed (h ∷ hs) = IsName h.name × AllNamed hs

-- The value of the first field of that name, whatever the case of its letters.
pub lookup : List ℕ → List Field → Option (List ℕ)
lookup name [] = none
lookup name (h ∷ hs) = if eq_nocase name h.name then some (skip_sp h.value) else lookup name hs

line_is-field :
    (name other value : List ℕ)
    → IsName name
    → IsName other
    → line_is name (other ++ b':' ∷ value) ≡ eq_nocase name other
unfolding line_is eq_nocase
line_is-field [] [] value n o = ground arith
line_is-field [] (c ∷ cs) value n o = ground (arith, o.0)
line_is-field (a ∷ rest) [] value n o = ground (arith, n.0)
line_is-field (a ∷ rest) (c ∷ cs) value n o = ground (arith, line_is-field rest cs value n.1 o.1)

length-eq_nocase : (a b : List ℕ) → eq_nocase a b ≡ true → length a ≡ length b
unfolding eq_nocase
length-eq_nocase [] [] h = refl
length-eq_nocase [] (b ∷ bs) h = cc
length-eq_nocase (a ∷ as_) [] h = cc
length-eq_nocase (a ∷ as_) (b ∷ bs) h = ap suc (length-eq_nocase as_ bs (ground arith))

drop-append : (a b : List ℕ) → drop (length a + 1) (a ++ b':' ∷ b) ≡ b
drop-append [] b = refl
drop-append (c ∷ cs) b =
    let e : suc (length cs) + 1 ≡ suc (length cs + 1) = omega arith in rw e (drop-append cs b)

module _ (name : List ℕ) (named : IsName name) where
  -- Where the loop stops, and what the lookup finds there.
  found-at :
      (hs : List Field) (u k : ℕ)
      → AllNamed hs
      → find_from name (lines hs) u ≡ some k
      → (u ≤ k)
        × (lookup name hs ≡ some (skip_sp (drop (length name + 1) (text_at (lines hs) (k - u)))))
  unfolding find_from lookup text_at
  found-at [] u k all e = cc
  found-at (h ∷ hs) u k all e = elim (Bool-cases (eq_nocase name h.name)) [
    | inl same ↦
        let e' : u ≡ k = ground (arith, line_is-field name h.name h.value named all.0) in
        let zero_left : k - u ≡ 0 = omega arith in
        (
          omega arith,
          rw (same, zero_left, length-eq_nocase name h.name same, drop-append h.name h.value),
        )
    | inr other ↦
        let e' : find_from name (lines hs) (u + 1) ≡ some k =
          ground (arith, line_is-field name h.name h.value named all.0) in
        let ih = found-at hs (u + 1) k all.1 e' in
        let one_less : k - u ≡ suc (k - (u + 1)) = omega arith in
        (omega arith, rw (other, one_less) ih.1)
  ]

  not-found :
      (hs : List Field) (u : ℕ)
      → AllNamed hs
      → find_from name (lines hs) u ≡ none
      → lookup name hs ≡ none
  unfolding find_from lookup
  not-found [] u all e = refl
  not-found (h ∷ hs) u all e =
      ground (arith, line_is-field name h.name h.value named all.0, not-found hs (u + 1) all.1)

  header-lookup :
      (hp : Http) (hs : List Field)
      → hp.lines ≡ lines hs
      → AllNamed hs
      → header hp name ≡ lookup name hs
  unfolding header value_at find_hdr
  header-lookup hp hs e all = elim (Option-cases (find_from name (lines hs) 0)) [
    | inl missing ↦ rw (e, missing) (sym (not-found hs 0 all missing))
    | inr (k, found) ↦
        let place = found-at hs 0 k all found in
        let same : k - 0 ≡ k = omega arith in rw (e, found, value_at, e) (sym (rw same at place.1))
  ]

  -- On a message whose lines have the form `name:value`, http_GetHdr finds, for a name of at most 126
  -- bytes, the value of the first line of that name, whatever the case of its letters, and nothing
  -- else. For a longer name its assertion fails.
  pub get_hdr-lookup :
      (hp : Http) (hs : List Field)
      → hp.lines ≡ lines hs
      → AllNamed hs
      → get_hdr hp name ≡ (if ltb 126 (length name) then none else some (lookup name hs))
  unfolding get_hdr is_askable
  get_hdr-lookup hp hs e all = elim (Bool-cases (ltb 126 (length name))) [
    | inl long ↦ let no' : ltb (length name + 1) 128 ≡ false = ground arith in rw (long, no') refl
    | inr short ↦
        let fits : ltb (length name + 1) 128 ≡ true = ground arith in
        rw (short, fits, header-lookup hp hs e all) refl
  ]

-- A header that is missing has no value.
pub hdr_is-header :
    (hp : Http) (name val : List ℕ) → header hp name ≡ none → hdr_is hp name val ≡ false
unfolding hdr_is is_value
hdr_is-header hp name val e = rw e
