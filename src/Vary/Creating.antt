-- ===== src/Vary/Creating.antt =====
-- What VRY_Create of bin/varnishd/cache_vary.c makes, and VRY_Match makes of that.
use pkg_varnish.Prelude.{
  ℕ, zero, suc, ◌+◌, ◌≤◌, ◌<◌, ◌≡◌, refl, ap, ◌⊎◌, inl, inr, Bool, true, false, ◌||◌, Option, none,
  some, List, [], ◌∷◌, ◌++◌, arith, ltb, ◌==◌, Bool-cases, Option-cases, length, drop, ◌>>=◌,
}
use pkg_varnish.Prelude.Ctype.{codes}
use pkg_varnish.Vct.{is_sp}
use pkg_varnish.Http.{Http, header, is_askable, get_hdr, skip_sp, value_at, find_hdr, text_at}
use pkg_varnish.Vary.{is_short, trim_value}
use pkg_varnish.Vary.Entries.{Entry, IsEntry, encode}
use pkg_varnish.Vary.Matching.{encode_all}
use pkg_varnish.Vary.Create.{
  Created, no_vary, failed, created, ends_name, token, after_token, starts_sp, header_string,
  prepend, entry_of, next_name, create_loop, create_of, create,
}

length-skip_sp : (v : List ℕ) → length (skip_sp v) ≤ length v
unfolding skip_sp
length-skip_sp [] = omega arith
length-skip_sp (c ∷ cs) = ground (arith, length-skip_sp cs)

length-after_token : (v : List ℕ) → length (after_token v) ≤ length v
unfolding after_token
length-after_token [] = omega arith
length-after_token (c ∷ cs) = ground (arith, length-after_token cs)

starts_sp-skip_sp : (v : List ℕ) → starts_sp (some (skip_sp v)) ≡ false
unfolding skip_sp starts_sp
starts_sp-skip_sp [] = refl
starts_sp-skip_sp (c ∷ cs) = elim (Bool-cases (is_sp c)) [
  | inl e ↦ rw e (starts_sp-skip_sp cs)
  | inr e ↦ rw e e
]

starts_sp-header : (http : Http) (name : List ℕ) → starts_sp (header http name) ≡ false
unfolding header value_at
starts_sp-header http name = found (find_hdr http name)
  where
    found : (o : Option ℕ) → starts_sp (value_at http name o) ≡ false
    found none = unfold starts_sp in refl
    found (some u) = starts_sp-skip_sp (drop (length name + 1) (text_at http.lines u))

-- A name of exactly 127 bytes, at the start or behind a blank or a comma.
abbrev pub HasLong : Bool → List ℕ → Type 0
HasLong start [] = ⊥
HasLong true (c ∷ cs) = (length (token (c ∷ cs)) ≡ 127) ⊎ HasLong (ends_name c) cs
HasLong false (c ∷ cs) = HasLong (ends_name c) cs

HasLong-start : (v : List ℕ) → HasLong false v → HasLong true v
HasLong-start [] h = h
HasLong-start (c ∷ cs) h = inr h

HasLong-skip_sp : (v : List ℕ) → HasLong false (skip_sp v) → HasLong false v
unfolding skip_sp ends_name
HasLong-skip_sp [] h = h
HasLong-skip_sp (c ∷ cs) h = elim (Bool-cases (is_sp c)) [
  | inl e ↦ let h' = rw e at h in rw e (HasLong-start cs (HasLong-skip_sp cs h'))
  | inr e ↦ rw e at h
]

HasLong-after_token : (v : List ℕ) → HasLong false (after_token v) → HasLong false v
unfolding after_token
HasLong-after_token [] h = h
HasLong-after_token (c ∷ cs) h = elim (Bool-cases (ends_name c)) [
  | inl e ↦ rw e at h
  | inr e ↦ let h' = rw e at h in rw e (HasLong-after_token cs h')
]

module _ (http : Http) where
  -- The request's entry for a header.
  abbrev pub own : List ℕ → Entry
  own name = record { name = name; value = trim_value (header http name) }

  unfoldable pub owns : List (List ℕ) → List Entry
  owns [] = []
  owns (n ∷ ns) = own n ∷ owns ns

  abbrev pub AreOwn : List (List ℕ) → Type 0
  AreOwn [] = Unit
  AreOwn (n ∷ ns) = IsEntry (own n) × (length n < 127) × AreOwn ns

  -- An error, or the entries of the request for some headers, or a failed assertion on a long name.
  abbrev pub IsMade : List ℕ → Bool → Option Created → Type 0
  IsMade v start o =
      (o ≡ some failed)
      ⊎ (((ns : List (List ℕ)) × (o ≡ some (created (encode_all (owns ns)))) × AreOwn ns)
          ⊎ ((o ≡ none) × HasLong start v))

  entry_of-own : (name : List ℕ) → entry_of http name ≡ encode (own name)
  unfolding entry_of encode header_string
  entry_of-own name = refl

  IsMade-next :
      (loop : List ℕ → Option Created) (q : List ℕ)
      → ((d : ℕ) (ds : List ℕ) → q ≡ d ∷ ds → IsMade ds true (loop ds))
      → IsMade q false (next_name http loop q)
  unfolding next_name encode_all owns ends_name
  IsMade-next loop [] ih = inr (inl ([], refl, tt))
  IsMade-next loop (d ∷ ds) ih = elim (Bool-cases (d == b',')) [
    | inl e ↦ let t : (is_sp d || d == b',') ≡ true = ground arith in rw (t, e) (ih d ds refl)
    | inr e ↦ rw e (inl refl)
  ]

  IsMade-prepend :
      (name v : List ℕ) (o : Option Created)
      → IsEntry (own name)
      → length name < 127
      → IsMade v false o
      → IsMade v false (o >>= λ rest. some (prepend (entry_of http name) rest))
  unfolding prepend encode_all owns
  IsMade-prepend name v o h n (inl e) = rw e (inl refl)
  IsMade-prepend name v o h n (inr (inr (e, long))) = rw e (inr (inr (refl, long)))
  IsMade-prepend name v o h n (inr (inl (ns, e, are))) = rw e (
      inr (
        inl (
          name ∷ ns,
          ap some (ap created (ap (λ t. t ++ encode_all (owns ns)) (entry_of-own name))),
          (h, n, are),
        )))

  IsMade-widen :
      (v w : List ℕ) (a b : Bool) (o : Option Created)
      → (HasLong a v → HasLong b w)
      → IsMade v a o
      → IsMade w b o
  IsMade-widen v w a b o k (inl e) = inl e
  IsMade-widen v w a b o k (inr (inl made)) = inr (inl made)
  IsMade-widen v w a b o k (inr (inr (e, long))) = inr (inr (e, k long))

  create_loop_lem :
      (fuel : ℕ) (v : List ℕ) → length v < fuel → IsMade v true (create_loop http fuel v)
  unfolding create_loop encode_all owns get_hdr is_askable
  create_loop_lem zero v h = let absurd : ⊥ = omega arith in elim absurd [ ]
  create_loop_lem (suc fuel) [] h = inr (inl ([], refl, tt))
  create_loop_lem (suc fuel) (c ∷ cs) h =
      let name = token (c ∷ cs) in
      let q = skip_sp (after_token (c ∷ cs)) in
      let l1 = length-skip_sp (after_token (c ∷ cs)) in
      let l2 = length-after_token (c ∷ cs) in
      let next : IsMade q false (next_name http (create_loop http fuel) q) =
        IsMade-next (create_loop http fuel) q
          (λ d ds e. let l = ap length e in create_loop_lem fuel ds (omega arith)) in
      elim (Bool-cases (is_sp c)) [
        | inl e ↦ rw e (
            IsMade-widen cs (c ∷ cs) true true (create_loop http fuel cs)
              (λ long. inr (unfold ends_name in rw e long)) (create_loop_lem fuel cs (omega arith)))
        | inr e ↦ elim (Bool-cases (ltb 127 (length name))) [
          | inl long ↦ rw (e, long) (inl refl)
          | inr short ↦ elim (Bool-cases (ltb (length name + 1) 128)) [
            | inr over ↦ rw (e, short, over) (inr (inr (refl, inl (ground arith))))
            | inl askable ↦ elim (Bool-cases (is_short (trim_value (header http name)))) [
              | inr wide ↦ rw (e, short, askable, starts_sp-header http name, wide) (inl refl)
              | inl fits ↦
                  let o = next_name http (create_loop http fuel) q in
                  let up = λ (long : HasLong false q).
                    HasLong-after_token (c ∷ cs) (HasLong-skip_sp (after_token (c ∷ cs)) long) in
                  let made =
                    IsMade-prepend name (c ∷ cs) o (ground arith, fits) (ground arith)
                      (IsMade-widen q (c ∷ cs) false false o up next) in
                  rw (e, short, askable, starts_sp-header http name, fits)
                    (IsMade-widen (c ∷ cs) (c ∷ cs) false true
                      (o >>= λ rest. some (prepend (entry_of http name) rest))
                      (HasLong-start (c ∷ cs)) made)
            ]
          ]
        ]
      ]

  -- VRY_Create of cache_vary.c ends its loop. It gives no string where there is no Vary header; else it
  -- reports an error, or makes the string of the request's own entries for some headers, all of which
  -- fit their lengths and have names of at most 126 bytes. An assertion fails only where the Vary header
  -- has a name of exactly 127 bytes.
  pub create-IsMade :
      (hp : Http)
      → ((header hp (codes "Vary") ≡ none) × (create http hp ≡ some no_vary))
        ⊎ ((create http hp ≡ some failed)
            ⊎ (((ns : List (List ℕ)) × (create http hp ≡ some (created (encode_all (owns ns))))
                  × AreOwn ns)
                ⊎ ((v : List ℕ) × (header hp (codes "Vary") ≡ some v)
                    × (create http hp ≡ none)
                    × HasLong true v)))
  unfolding create create_of get_hdr is_askable
  create-IsMade hp = elim (Option-cases (header hp (codes "Vary"))) [
    | inl e ↦ inl (e, rw e refl)
    | inr (v, e) ↦ inr (elim (create_loop_lem (length v + 1) v (omega arith)) [
      | inl error ↦ inl (rw e error)
      | inr (inl (ns, made, are)) ↦ inr (inl (ns, rw e made, are))
      | inr (inr (fails, long)) ↦ inr (inr (v, e, rw e fails, long))
    ])
  ]
