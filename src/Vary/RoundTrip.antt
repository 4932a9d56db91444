-- ===== src/Vary/RoundTrip.antt =====
-- VRY_Create and then VRY_Match of bin/varnishd/cache_vary.c, for the same request.
use pkg_varnish.Prelude.{
  ℕ, ◌+◌, ◌≤◌, ◌≡◌, refl, sym, ap, ◌∙◌, inl, inr, Bool, true, Option, none, some, List, [], ◌∷◌,
  ◌++◌, arith, length, length-append,
}
use mathlib.Core.List.{append_assoc}
use pkg_varnish.Http.{Http}
use pkg_varnish.Vary.{Matched, match}
use pkg_varnish.Vary.Entries.{eq_value, encode, eq_bytes_refl}
use pkg_varnish.Vary.Building.{IsBlank}
use pkg_varnish.Vary.Finding.{mine_all}
use pkg_varnish.Vary.Matching.{encode_all, names, agree, all_agree, AreEntries, match-all_agree}
use pkg_varnish.Vary.Create.{Created, no_vary, failed, created, create}
use pkg_varnish.Vary.Creating.{own, owns, AreOwn, create-IsMade}

eq_value_refl : (v : Option (List ℕ)) → eq_value v v ≡ true
unfolding eq_value
eq_value_refl none = refl
eq_value_refl (some v) = eq_bytes_refl v

string_of : Option Created → List ℕ
string_of (some (created s)) = s
string_of (some no_vary) = []
string_of (some failed) = []
string_of none = []

is_created : Option Created → ℕ
is_created (some (created s)) = 1
is_created (some no_vary) = 0
is_created (some failed) = 0
is_created none = 0

said : List ℕ → ℕ → Bool → Option Matched
said b l r = some record { buffer = b; vary_l = some l; retval = r }

same_matched :
    (b b' : List ℕ) (l l' : ℕ) (r r' : Bool) → b ≡ b' → l ≡ l' → r ≡ r' → said b l r ≡ said b' l' r'
same_matched b b' l l' r r' eb el er = rw (eb, el, er) refl

module _ (http_gzip_support : Bool) (http : Http) where
  abbrev entries : List (List ℕ) → List ℕ
  entries ns = mine_all http_gzip_support http (names (owns http ns))

  encode_all-owns :
      (ns : List (List ℕ)) → encode_all (owns http ns) ≡ entries ns ++ (0xff ∷ 0xff ∷ 0 ∷ [])
  unfolding encode_all owns names mine_all
  encode_all-owns [] = refl
  encode_all-owns (n ∷ ns) =
      ap (λ t. encode (own http n) ++ t) (encode_all-owns ns)
      ∙ sym (append_assoc (encode (own http n)) (entries ns) (0xff ∷ 0xff ∷ 0 ∷ []))

  all_agree-owns : (ns : List (List ℕ)) → all_agree http_gzip_support http (owns http ns) ≡ true
  unfolding all_agree owns agree
  all_agree-owns [] = refl
  all_agree-owns (n ∷ ns) = rw (eq_value_refl (own http n).value) (all_agree-owns ns)

  owns-AreEntries :
      (ns : List (List ℕ)) → AreOwn http ns → AreEntries http_gzip_support http (owns http ns)
  unfolding owns
  owns-AreEntries [] a = tt
  owns-AreEntries (n ∷ ns) (h, name, a) = (h, h, name, owns-AreEntries ns a)

  matched_owns :
      (ns : List (List ℕ)) (buffer : List ℕ)
      → AreOwn http ns
      → IsBlank buffer
      → length (encode_all (owns http ns)) ≤ length buffer
      → (rest : List ℕ) × (match http_gzip_support http buffer (encode_all (owns http ns))
          ≡ some record {
            buffer = encode_all (owns http ns) ++ rest;
            vary_l = some (length (encode_all (owns http ns)));
            retval = true;
          })
  unfolding mine_all said
  matched_owns ns buffer a blank room =
      let end : List ℕ = 0xff ∷ 0xff ∷ 0 ∷ [] in
      let e = encode_all-owns ns in
      let le = ap length e in
      let la = length-append (entries ns) end in
      let l : length (entries ns) + 3 ≡ length (encode_all (owns http ns)) = omega arith in
      let (rest, m) =
        match-all_agree http_gzip_support http (owns http ns) buffer (owns-AreEntries ns a)
          ([], buffer, refl, tt, blank) (omega arith) in
      let b : entries ns ++ (0xff ∷ 0xff ∷ 0 ∷ rest) ≡ encode_all (owns http ns) ++ rest =
        sym (append_assoc (entries ns) end rest) ∙ ap (λ t. t ++ rest) (sym e) in
      (
        rest,
        m
            ∙ same_matched (entries ns ++ (0xff ∷ 0xff ∷ 0 ∷ rest))
                (encode_all (owns http ns) ++ rest) (length (entries ns) + 3)
                (length (encode_all (owns http ns)))
                (all_agree http_gzip_support http (owns http ns)) true b l (all_agree-owns ns),
      )

  -- VRY_Create and VRY_Match of cache_vary.c: where a string was made of a request, and the request's
  -- buffer starts with a blank and is at least as long as the string, matching the string against the
  -- same request fails no assertion and says yes, whatever the compression, and leaves a copy of the
  -- string in the buffer, with vary_l behind it.
  pub match-create :
      (hp : Http) (s buffer : List ℕ)
      → create http hp ≡ some (created s)
      → IsBlank buffer
      → length s ≤ length buffer
      → (rest : List ℕ) × (match http_gzip_support http buffer s
          ≡ some record { buffer = s ++ rest; vary_l = some (length s); retval = true })
  unfolding string_of is_created
  match-create hp s buffer c blank room = elim (create-IsMade http hp) [
    | inl (z, e) ↦ impossible (ap is_created (sym c ∙ e))
    | inr (inl e) ↦ impossible (ap is_created (sym c ∙ e))
    | inr (inr (inr (v, h, e, long))) ↦ impossible (ap is_created (sym c ∙ e))
    | inr (inr (inl (ns, e, a))) ↦ same_string ns a (ap string_of (sym c ∙ e))
  ]
    where
      impossible :
          is_created (some (created s)) ≡ 0
          → (rest : List ℕ) × (match http_gzip_support http buffer s
              ≡ some record { buffer = s ++ rest; vary_l = some (length s); retval = true })
      impossible e = let absurd : ⊥ = omega arith in elim absurd [ ]

      same_string :
          (ns : List (List ℕ))
          → AreOwn http ns
          → s ≡ encode_all (owns http ns)
          → (rest : List ℕ) × (match http_gzip_support http buffer s
              ≡ some record { buffer = s ++ rest; vary_l = some (length s); retval = true })
      same_string ns a e = rw e (matched_owns ns buffer a blank (rw (sym e) room))
