-- ===== src/Prelude/Adjacent.antt =====
-- Relations between neighbours on a list.
use Prim.Native.Nat.{ℕ, ◌≤◌}
use mathlib.Core.Path.{◌≡◌, refl, sym, subst, ◌∙◌}
use mathlib.Core.Logic.{◌≢◌, inl, inr}
use mathlib.Core.Bool.{true, false}
use mathlib.Core.List.{List, [], ◌∷◌}
use mathlib.Core.Option.{some}
use native.Mathlib.Omega.{arith}
use pkg_varnish.Prelude.Tests.{◌==◌, Bool-cases}
use pkg_varnish.Prelude.Tailq.{remove, count, first, next, prev}

abbrev pub Relation : Type 1
Relation = ℕ → ℕ → Type 0

abbrev pub Leads : Relation → ℕ → List ℕ → Type 0
Leads R x [] = Unit {0}
Leads R x (y ∷ ys) = R x y

abbrev pub Adjacent : Relation → List ℕ → Type 0
Adjacent R [] = Unit {0}
Adjacent R (x ∷ xs) = Leads R x xs × Adjacent R xs

-- An element of a list that has each of its elements once.
abbrev pub On : List ℕ → ℕ → Type 0
On l x = count x l ≡ 1

abbrev pub IsOnce : List ℕ → Type 0
IsOnce l = (q : ℕ) → count q l ≤ 1

pub On-first : (x : ℕ) (l : List ℕ) → IsOnce (x ∷ l) → (On (x ∷ l) x) × (count x l ≡ 0)
unfolding count
On-first x l o = let e = o x in ground arith

pub IsOnce-rest : (x : ℕ) (l : List ℕ) → IsOnce (x ∷ l) → IsOnce l
unfolding count
IsOnce-rest x l o = λ q. let e = o q in ground arith

pub On-rest : (x q : ℕ) (l : List ℕ) → IsOnce (x ∷ l) → On l q → (On (x ∷ l) q) × (q ≢ x)
unfolding count
On-rest x q l o h = let e = o q in ground arith

pub ==→eq : (a b : ℕ) → (a == b) ≡ true → a ≡ b
==→eq a b h = ground arith

pub ==→ne : (a b : ℕ) → (a == b) ≡ false → a ≢ b
==→ne a b h = ground arith

not_first : (x n : ℕ) (l : List ℕ) → IsOnce (x ∷ l) → 1 ≤ count n l → (x == n) ≡ false
unfolding count
not_first x n l o c = let on = o n in ground arith

-- The element behind `e` is further on.
next_on_rest : (e n x : ℕ) (l : List ℕ) → next e (x ∷ l) ≡ some n → 1 ≤ count n l
unfolding next first count
next_on_rest e n x [] h = ground arith
next_on_rest e n x (y ∷ ys) h = ground (arith, next_on_rest e n y ys)

next_after : (e n : ℕ) (l : List ℕ) → next e l ≡ some n → 1 ≤ count e l
unfolding next count
next_after e n [] h = cc
next_after e n (x ∷ l) h = ground (arith, next_after e n l)

pub next-On : (e n : ℕ) (l : List ℕ) → IsOnce l → next e l ≡ some n → (On l e) × (On l n) × (n ≢ e)
unfolding next count
next-On e n [] o h = cc
next-On e n (x ∷ l) o h =
    let oe = o e in
    let on = o n in
    let c = next_after e n (x ∷ l) h in
    let d = next_on_rest e n x l h in
    (
      ground arith,
      ground arith,
      elim (Bool-cases (x == e)) [
        | inl here ↦ ground arith
        | inr further ↦ (next-On e n l (IsOnce-rest x l o) (rw further at h)).2
      ],
    )

pub next-prev : (e p : ℕ) (l : List ℕ) → IsOnce l → prev e l ≡ some p → next p l ≡ some e
unfolding next prev first
next-prev e p [] o h = cc
next-prev e p (x ∷ []) o h = cc
next-prev e p (x ∷ y ∷ ys) o h = elim (Bool-cases (y == e)) [
  | inl here ↦ let h' = rw here at h in ground arith
  | inr further ↦
      let hr : prev e (y ∷ ys) ≡ some p = rw further at h in
      let ih = next-prev e p (y ∷ ys) (IsOnce-rest x (y ∷ ys) o) hr in
      rw (not_first x p (y ∷ ys) o (next_after p e (y ∷ ys) ih)) ih
]

next_skip : (x q : ℕ) (l : List ℕ) → IsOnce (x ∷ l) → On l q → next q (x ∷ l) ≡ next q l
unfolding next
next_skip x q l o h = rw (not_first x q l o (omega (arith, h))) refl

pub prev-next : (e p : ℕ) (l : List ℕ) → IsOnce l → next p l ≡ some e → prev e l ≡ some p
unfolding next prev first
prev-next e p [] o h = cc
prev-next e p (x ∷ []) o h = ground arith
prev-next e p (x ∷ y ∷ ys) o h =
    let o' = IsOnce-rest x (y ∷ ys) o in
    elim (Bool-cases (x == p)) [
      | inl here ↦ let h' = rw here at h in ground arith
      | inr further ↦
          let hr : next p (y ∷ ys) ≡ some e = rw further at h in
          rw (not_first y e ys o' (next_on_rest p e y ys hr)) (prev-next e p (y ∷ ys) o' hr)
    ]

next_first : (x y : ℕ) (ys : List ℕ) → next x (x ∷ y ∷ ys) ≡ some y
unfolding next first
next_first x y ys = ground arith

module _ (R S : Relation) where
  pub Adjacent-map :
      (l : List ℕ)
      → IsOnce l
      → ((x y : ℕ) → On l x → On l y → x ≢ y → R x y → S x y)
      → Adjacent R l
      → Adjacent S l
  Adjacent-map [] o k a = tt
  Adjacent-map (x ∷ []) o k a = (tt, tt)
  Adjacent-map (x ∷ y ∷ ys) o k (r, a) =
      let o' = IsOnce-rest x (y ∷ ys) o in
      let y_on = On-rest x y (y ∷ ys) o (On-first y ys o').0 in
      (
        k x y (On-first x (y ∷ ys) o).0 y_on.0 (λ e. y_on.1 (sym e)) r,
        Adjacent-map (y ∷ ys) o'
            (λ u v hu hv. k u v (On-rest x u (y ∷ ys) o hu).0 (On-rest x v (y ∷ ys) o hv).0) a,
      )

  -- The same, where the second element is known to be behind the first.
  pub Adjacent-map_next :
      (l : List ℕ)
      → IsOnce l
      → ((x y : ℕ) → On l x → On l y → next x l ≡ some y → R x y → S x y)
      → Adjacent R l
      → Adjacent S l
  Adjacent-map_next [] o k a = tt
  Adjacent-map_next (x ∷ []) o k a = (tt, tt)
  Adjacent-map_next (x ∷ y ∷ ys) o k (r, a) =
      let o' = IsOnce-rest x (y ∷ ys) o in
      let up = λ (v : ℕ) (hv : On (y ∷ ys) v). On-rest x v (y ∷ ys) o hv in
      (
        k x y (On-first x (y ∷ ys) o).0 (up y (On-first y ys o').0).0 (next_first x y ys) r,
        Adjacent-map_next (y ∷ ys) o'
            (λ u v hu hv n. k u v (up u hu).0 (up v hv).0 (next_skip x u (y ∷ ys) o hu ∙ n)) a,
      )

  behind :
      (e n x y : ℕ) (ys : List ℕ)
      → x ≡ e
      → y ≡ n
      → IsOnce (x ∷ y ∷ ys)
      → ((u v : ℕ)
          → On (x ∷ y ∷ ys) u
          → On (x ∷ y ∷ ys) v
          → u ≢ v
          → u ≢ e
          → u ≢ n
          → v ≢ n
          → R u v
          → S u v)
      → ((v : ℕ) → On (x ∷ y ∷ ys) v → v ≢ e → v ≢ n → R n v → S e v)
      → Adjacent R (y ∷ ys)
      → Adjacent S (x ∷ ys)
  behind e n x y [] ex ny o k j a = (tt, tt)
  behind e n x y (z ∷ zs) ex ny o k j (r, a) =
      let o' = IsOnce-rest x (y ∷ z ∷ zs) o in
      let o'' = IsOnce-rest y (z ∷ zs) o' in
      let up : (v : ℕ) → On (z ∷ zs) v → On (x ∷ y ∷ z ∷ zs) v × (v ≢ e) × (v ≢ n) = λ v hv.
        let q = On-rest y v (z ∷ zs) o' hv in
        let p = On-rest x v (y ∷ z ∷ zs) o q.0 in
        (p.0, λ t. p.1 (t ∙ sym ex), λ t. q.1 (t ∙ sym ny)) in
      let z_up = up z (On-first z zs o'').0 in
      (
        subst (λ t. S t z) (sym ex) (j z z_up.0 z_up.1 z_up.2 (subst (λ t. R t z) ny r)),
        Adjacent-map (z ∷ zs) o''
            (λ u v hu hv d. k u v (up u hu).0 (up v hv).0 d (up u hu).1 (up u hu).2 (up v hv).2) a,
      )

  -- The element behind `e` goes.
  pub Adjacent-remove_next :
      (e n : ℕ) (l : List ℕ)
      → IsOnce l
      → next e l ≡ some n
      → ((x y : ℕ) → On l x → On l y → x ≢ y → x ≢ e → x ≢ n → y ≢ n → R x y → S x y)
      → ((y : ℕ) → On l y → y ≢ e → y ≢ n → R n y → S e y)
      → Adjacent R l
      → Adjacent S (remove n l)
  unfolding next first count remove
  Adjacent-remove_next e n [] o h k j a = cc
  Adjacent-remove_next e n (x ∷ []) o h k j a = ground arith
  Adjacent-remove_next e n (x ∷ y ∷ ys) o h k j a =
      let o' = IsOnce-rest x (y ∷ ys) o in
      let ox = On-first x (y ∷ ys) o in
      elim (Bool-cases (x == e)) [
        | inl here ↦
            let ex : x ≡ e = ground arith in
            let ny : y ≡ n = ground arith in
            let xn : (x == n) ≡ false = ground arith in
            let yn : (y == n) ≡ true = ground arith in
            rw (xn, yn) (behind e n x y ys ex ny o k j a.1)
        | inr further ↦
            let hr : next e (y ∷ ys) ≡ some n = rw further at h in
            let n_on = next-On e n (y ∷ ys) o' hr in
            let d = next_on_rest e n y ys hr in
            let xn : (x == n) ≡ false = not_first x n (y ∷ ys) o (omega (arith, n_on.1)) in
            let yn : (y == n) ≡ false = not_first y n ys o' d in
            let y_on = On-rest x y (y ∷ ys) o (On-first y ys o').0 in
            let ih =
              Adjacent-remove_next e n (y ∷ ys) o' hr
                (λ u v hu hv. k u v (On-rest x u (y ∷ ys) o hu).0 (On-rest x v (y ∷ ys) o hv).0)
                (λ v hv. j v (On-rest x v (y ∷ ys) o hv).0) a.1 in
            rw xn (
              rw yn (
                k x y ox.0 y_on.0 (λ q. y_on.1 (sym q)) (==→ne x e further) (==→ne x n xn)
                    (==→ne y n yn) a.0,
                rw yn at ih,
              ))
      ]
