-- ===== src/Prelude/Insertion.antt =====
-- Elements that come next to another on a list.
use Prim.Native.Nat.{ℕ, ◌+◌, ◌≤◌}
use mathlib.Core.Path.{◌≡◌, sym, subst, ◌∙◌}
use mathlib.Core.Logic.{◌≢◌, inl, inr}
use mathlib.Core.List.{List, [], ◌∷◌}
use native.Mathlib.Omega.{arith}
use pkg_varnish.Prelude.Tests.{◌==◌, if◌then◌else◌, Bool-cases}
use pkg_varnish.Prelude.Tailq.{count, insert_before, insert_after}
use pkg_varnish.Prelude.Adjacent.{
  Relation, Adjacent, On, IsOnce, On-first, IsOnce-rest, On-rest, ==→eq, ==→ne, Adjacent-map,
}

pub count-insert_before :
    (q e new : ℕ) (l : List ℕ)
    → 1 ≤ count e l
    → count q (insert_before e new l) ≡ count q l + (if q == new then 1 else 0)
unfolding count insert_before
count-insert_before q e new [] c = absurd (omega arith)
count-insert_before q e new (x ∷ xs) c = ground (arith, count-insert_before q e new xs)

pub count-insert_after :
    (q e new : ℕ) (l : List ℕ)
    → 1 ≤ count e l
    → count q (insert_after e new l) ≡ count q l + (if q == new then 1 else 0)
unfolding count insert_after
count-insert_after q e new [] c = absurd (omega arith)
count-insert_after q e new (x ∷ xs) c = ground (arith, count-insert_after q e new xs)

module _ (R S : Relation) where
  map_behind :
      (x : ℕ) (xs : List ℕ)
      → IsOnce (x ∷ xs)
      → ((u v : ℕ) → On (x ∷ xs) u → On (x ∷ xs) v → u ≢ v → v ≢ x → R u v → S u v)
      → Adjacent R (x ∷ xs)
      → Adjacent S (x ∷ xs)
  map_behind x [] o k a = (tt, tt)
  map_behind x (y ∷ ys) o k (r, a) =
      let up = λ (v : ℕ) (hv : On (y ∷ ys) v). On-rest x v (y ∷ ys) o hv in
      let y_on = up y (On-first y ys (IsOnce-rest x (y ∷ ys) o)).0 in
      (
        k x y (On-first x (y ∷ ys) o).0 y_on.0 (λ t. y_on.1 (sym t)) y_on.1 r,
        Adjacent-map R S (y ∷ ys) (IsOnce-rest x (y ∷ ys) o)
            (λ u v hu hv d. k u v (up u hu).0 (up v hv).0 d (up v hv).1) a,
      )

  -- A new element comes before `e`.
  pub Adjacent-insert_before :
      (e new : ℕ) (l : List ℕ)
      → IsOnce l
      → ((x y : ℕ) → On l x → On l y → x ≢ y → y ≢ e → R x y → S x y)
      → ((x : ℕ) → On l x → x ≢ e → R x e → S x new)
      → S new e
      → Adjacent R l
      → Adjacent S (insert_before e new l)
  unfolding insert_before
  Adjacent-insert_before e new [] o k b n a = tt
  Adjacent-insert_before e new (x ∷ []) o k b n a = elim (Bool-cases (x == e)) [
    | inl here ↦ rw here (subst (S new) (sym (==→eq x e here)) n, (tt, tt))
    | inr further ↦ rw further (tt, tt)
  ]
  Adjacent-insert_before e new (x ∷ y ∷ ys) o k b n (r, a) =
      let o' = IsOnce-rest x (y ∷ ys) o in
      let up = λ (v : ℕ) (hv : On (y ∷ ys) v). On-rest x v (y ∷ ys) o hv in
      let x_on = (On-first x (y ∷ ys) o).0 in
      let y_on = up y (On-first y ys o').0 in
      elim (Bool-cases (x == e)) [
        | inl here ↦ rw here (
          subst (S new) (sym (==→eq x e here)) n,
          map_behind x (y ∷ ys) o
              (λ u v hu hv d c. k u v hu hv d (λ t. c (t ∙ sym (==→eq x e here)))) (r, a),
        )
        | inr further ↦
            let ih =
              Adjacent-insert_before e new (y ∷ ys) o' (λ u v hu hv. k u v (up u hu).0 (up v hv).0)
                (λ u hu. b u (up u hu).0) n a in
            rw further (elim (Bool-cases (y == e)) [
              | inl next_one ↦
                  let ih' = rw next_one at ih in
                  rw next_one
                    (b x x_on (==→ne x e further) (subst (R x) (==→eq y e next_one) r), ih')
              | inr later ↦
                  let ih' = rw later at ih in
                  rw later (k x y x_on y_on.0 (λ t. y_on.1 (sym t)) (==→ne y e later) r, ih')
            ])
      ]

  -- A new element comes after `e`.
  pub Adjacent-insert_after :
      (e new : ℕ) (l : List ℕ)
      → IsOnce l
      → ((x y : ℕ) → On l x → On l y → x ≢ y → x ≢ e → R x y → S x y)
      → ((y : ℕ) → On l y → y ≢ e → R e y → S new y)
      → S e new
      → Adjacent R l
      → Adjacent S (insert_after e new l)
  unfolding insert_after
  Adjacent-insert_after e new [] o k b n a = tt
  Adjacent-insert_after e new (x ∷ []) o k b n a = elim (Bool-cases (x == e)) [
    | inl here ↦ rw here (subst (λ t. S t new) (sym (==→eq x e here)) n, (tt, tt))
    | inr further ↦ rw further (tt, tt)
  ]
  Adjacent-insert_after e new (x ∷ y ∷ ys) o k b n (r, a) =
      let o' = IsOnce-rest x (y ∷ ys) o in
      let up = λ (v : ℕ) (hv : On (y ∷ ys) v). On-rest x v (y ∷ ys) o hv in
      let x_on = (On-first x (y ∷ ys) o).0 in
      let y_on = up y (On-first y ys o').0 in
      elim (Bool-cases (x == e)) [
        | inl here ↦
            let ex = ==→eq x e here in
            rw here (
              subst (λ t. S t new) (sym ex) n,
              (
                b y y_on.0 (λ t. y_on.1 (t ∙ sym ex)) (subst (λ t. R t y) ex r),
                Adjacent-map R S (y ∷ ys) o'
                    (λ u v hu hv d. k u v (up u hu).0 (up v hv).0 d (λ t. (up u hu).1 (t ∙ sym ex)))
                    a,
              ),
            )
        | inr further ↦
            let ih =
              Adjacent-insert_after e new (y ∷ ys) o' (λ u v hu hv. k u v (up u hu).0 (up v hv).0)
                (λ u hu. b u (up u hu).0) n a in
            let xy = k x y x_on y_on.0 (λ t. y_on.1 (sym t)) (==→ne x e further) r in
            rw further (elim (Bool-cases (y == e)) [
              | inl next_one ↦ let ih' = rw next_one at ih in rw next_one (xy, ih')
              | inr later ↦ let ih' = rw later at ih in rw later (xy, ih')
            ])
      ]
