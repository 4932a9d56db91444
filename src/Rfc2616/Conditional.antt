-- ===== src/Rfc2616/Conditional.antt =====
-- RFC2616_Do_Cond of bin/varnishd/rfc2616.c.
use pkg_varnish.Prelude.{
  ℕ, ◌*◌, ◌≤◌, ◌≡◌, refl, ◌≢◌, ◌↔◌, ◌⊎◌, inl, inr, Bool, true, false, ◌&&◌, ◌||◌, Option, none,
  some, List, [], ◌∷◌, arith,
}
use pkg_varnish.Http.{Http, header}
use pkg_varnish.Rfc2616.{
  second, eq_bytes, cond_modified, cond_match, cond_rest, do_cond, h_if_modified_since,
  h_if_none_match, h_etag, is_some,
}

pub eq_bytes_iff : (a b : List ℕ) → (eq_bytes a b ≡ true) ↔ (a ≡ b)
unfolding eq_bytes
eq_bytes_iff [] [] = (λ h. refl, λ h. refl)
eq_bytes_iff [] (b ∷ bs) = (λ h. cc, λ h. cc)
eq_bytes_iff (a ∷ rest) [] = (λ h. cc, λ h. cc)
eq_bytes_iff (a ∷ rest) (b ∷ bs) =
    let ih = eq_bytes_iff rest bs in (λ h. ground (arith, ih.0), λ h. ground (arith, ih.1))

-- The date lets the object pass: it was modified at a known time, not after it, and it is not in the
-- future.
abbrev pub DatePasses : (List ℕ → ℕ) → ℕ → ℕ → Option (List ℕ) → Type 0
DatePasses tim_parse last_modified t_req none = Unit {0}
DatePasses tim_parse last_modified t_req (some p) =
    (last_modified ≢ 0) × (last_modified ≤ tim_parse p * second) × (tim_parse p * second ≤ t_req)

-- The tags, where both sides have one, are equal.
abbrev pub TagPasses : Option (List ℕ) → Option (List ℕ) → Type 0
TagPasses (some p) (some e) = p ≡ e
TagPasses _ _ = Unit {0}

module _ (tim_parse : List ℕ → ℕ) where
  cond_match_iff :
      (d : Bool) (inm etag : Option (List ℕ))
      → (cond_match tim_parse d inm etag ≡ true)
        ↔ (TagPasses inm etag × ((d || is_some inm && is_some etag) ≡ true))
  unfolding cond_match
  cond_match_iff d (some p) (some e) =
      let h = eq_bytes_iff p e in (λ t. ground (arith, h.0), λ t. h.1 t.0)
  cond_match_iff d (some p) none = ground arith
  cond_match_iff d none (some e) = ground arith
  cond_match_iff d none none = ground arith

  cond_modified-cases :
      (last_modified t_req : ℕ) (p : List ℕ)
      → ((cond_modified tim_parse last_modified t_req (some p) ≡ some true)
          × DatePasses tim_parse last_modified t_req (some p))
        ⊎ ((cond_modified tim_parse last_modified t_req (some p) ≡ none)
            × ¬ DatePasses tim_parse last_modified t_req (some p))
  unfolding cond_modified
  cond_modified-cases last_modified t_req p = ground arith

  -- A 304 may be sent exactly where the request carries If-Modified-Since, or both it and the object
  -- a tag, and every condition that can be judged holds: the object has a time of modification, not
  -- later than the date given, which is not in the future; the tags are equal.
  pub do_cond_iff :
      (req : Http) (t_req : ℕ) (obj : Http) (last_modified : ℕ)
      → (do_cond tim_parse req t_req obj last_modified ≡ true) ↔ (
          DatePasses tim_parse last_modified t_req (header req h_if_modified_since)
          × TagPasses (header req h_if_none_match) (header obj h_etag)
          × ((is_some (header req h_if_modified_since)
                || is_some (header req h_if_none_match) && is_some (header obj h_etag))
              ≡ true))
  unfolding do_cond cond_rest
  do_cond_iff req t_req obj last_modified = judged (header req h_if_modified_since)
    where
      judged :
          (ims : Option (List ℕ))
          → (cond_rest tim_parse req obj (cond_modified tim_parse last_modified t_req ims) ≡ true)
            ↔ (DatePasses tim_parse last_modified t_req ims
                × TagPasses (header req h_if_none_match) (header obj h_etag)
                × ((is_some ims
                      || is_some (header req h_if_none_match) && is_some (header obj h_etag))
                    ≡ true))
      judged none =
          let m = cond_match_iff false (header req h_if_none_match) (header obj h_etag) in
          (
            unfold cond_modified in λ h. let (t, c) = m.0 h in (tt, t, c),
            unfold cond_modified in λ h. m.1 (h.1, h.2),
          )
      judged (some p) = elim (cond_modified-cases last_modified t_req p) [
        | inl (e, d) ↦
            let m = cond_match_iff true (header req h_if_none_match) (header obj h_etag) in
            rw (e, cond_rest) (λ h. let (t, c) = m.0 h in (d, t, refl), λ h. m.1 (h.1, refl))
        | inr (e, nd) ↦ rw (e, cond_rest) (λ h. cc, λ h. absurd (nd h.0))
      ]
