-- ===== src/Critbit/Placing.antt =====
-- The second loop of hcb_insert in bin/varnishd/hash_critbit.c: where the new node goes in.
use pkg_varnish.Prelude.{
  ℕ, suc, ◌≤◌, ◌<◌, ◌≡◌, refl, sym, ap, ◌∙◌, ◌⊎◌, inl, inr, Bool, true, false, not, some, List,
  arith, ltb, ◌==◌, if◌then◌else◌, Bool-cases, ◌>>=◌,
}
use mathlib.Core.Path.{subst}
use pkg_varnish.Critbit.{Leaf, Node, Tree, leaf, fork, fork_at, place}
use pkg_varnish.Critbit.Bits.{dbit, IsDigest, IsNode, side-dbit, Separates}
use pkg_varnish.Critbit.Trees.{Has, IsTree, land, Has-land}
use pkg_varnish.Critbit.Forks.{IsAdded, AllApart, fork_at-IsAdded, right-IsAdded, left-IsAdded}

land-side :
    (lo : ℕ) (y : Node) (l r : Tree) (d : List ℕ)
    → IsTree lo (fork y l r)
    → dbit y.critbit (land (fork y l r) d).digest ≡ dbit y.critbit d
unfolding land
land-side lo y l r d (le, n, alike, left, right, wl, wr) = elim (Bool-cases (dbit y.critbit d)) [
  | inl b ↦ rw b (right (land r d) (Has-land r d))
  | inr b ↦ rw b (left (land l d) (Has-land l d))
]

compare-cases : (a b : ℕ) → (a ≡ b) ⊎ ((b < a) ⊎ (a < b))
compare-cases a b = omega arith

no_fix : (b : Bool) → b ≡ not b → ⊥
no_fix b e = ground arith

place-above :
    (y2 : Node) (s2 : Bool) (oh : Leaf) (y : Node) (l r : Tree)
    → y2.critbit < y.critbit
    → place y2 s2 oh (fork y l r) ≡ some (fork_at s2 y2 (leaf oh) (fork y l r))
unfolding place
place-above y2 s2 oh y l r above =
    let differ : (y.critbit == y2.critbit) ≡ false = ground arith in
    let less : ltb y2.critbit y.critbit ≡ true = ground arith in rw (differ, less) refl

place-below :
    (y2 : Node) (s2 : Bool) (oh : Leaf) (y : Node) (l r : Tree) (s : Bool)
    → y.critbit < y2.critbit
    → IsNode y
    → dbit y.critbit oh.digest ≡ s
    → place y2 s2 oh (fork y l r) ≡ (
        if s
        then (place y2 s2 oh r >>= λ r'. some (fork y l r'))
        else (place y2 s2 oh l >>= λ l'. some (fork y l' r)))
unfolding place
place-below y2 s2 oh y l r s below n b =
    let differ : (y.critbit == y2.critbit) ≡ false = ground arith in
    let less : ltb y2.critbit y.critbit ≡ false = ground arith in
    rw (differ, less, side-dbit y oh.digest n, b) refl

IsTree-higher :
    (lo c : ℕ) (y : Node) (l r : Tree)
    → c < y.critbit
    → IsTree lo (fork y l r)
    → IsTree (suc c) (fork y l r)
IsTree-higher lo c y l r h (le, n, alike, left, right, wl, wr) =
    (omega arith, n, alike, left, right, wl, wr)

alike-apart :
    (lo : ℕ) (y2 : Node) (oh : Leaf) (y : Node) (l r : Tree) (z : Leaf)
    → IsTree lo (fork y l r)
    → Has (fork y l r) z
    → y2.critbit < y.critbit
    → ((i : ℕ) → i < y2.critbit → dbit i oh.digest ≡ dbit i z.digest)
    → dbit y2.critbit oh.digest ≡ not (dbit y2.critbit z.digest)
    → AllApart y2 oh (fork y l r)
alike-apart lo y2 oh y l r z (le, n, alike, left, right, wl, wr) hz above agree differ q h = (
  (λ i l. agree i l ∙ alike z q hz h i (omega arith)),
  differ ∙ ap not (alike z q hz h y2.critbit above),
)

land-right :
    (y : Node) (l r : Tree) (d : List ℕ) → dbit y.critbit d ≡ true → land (fork y l r) d ≡ land r d
unfolding land
land-right y l r d b = rw b refl

land-left :
    (y : Node) (l r : Tree) (d : List ℕ) → dbit y.critbit d ≡ false → land (fork y l r) d ≡ land l d
unfolding land
land-left y l r d b = rw b refl

abbrev pub Placed : ℕ → Node → Bool → Leaf → Tree → Type 0
Placed lo y2 s2 oh t = (t' : Tree) × (place y2 s2 oh t ≡ some t') × IsAdded lo t oh t'

abbrev Places : ℕ → Node → Bool → Leaf → Tree → Type 0
Places lo y2 s2 oh t =
    IsTree lo t → Separates y2 oh.digest (land t oh.digest).digest → Placed lo y2 s2 oh t

pub place-IsAdded :
    (lo : ℕ) (y2 : Node) (s2 : Bool) (oh : Leaf) (t : Tree)
    → IsTree lo t
    → IsDigest oh.digest
    → lo ≤ y2.critbit
    → dbit y2.critbit oh.digest ≡ s2
    → Separates y2 oh.digest (land t oh.digest).digest
    → Placed lo y2 s2 oh t
unfolding place land
place-IsAdded lo y2 s2 oh (leaf q) w d le b (n, agree, differ) =
    (fork_at s2 y2 (leaf oh) (leaf q), refl, fork_at-IsAdded lo y2 s2 oh (leaf q) n d le b apart w)
  where
    apart : AllApart y2 oh (leaf q)
    apart p h = (
      λ i l. agree i l ∙ ap (λ x. dbit i x.digest) (sym h),
      differ ∙ ap (λ x. not (dbit y2.critbit x.digest)) (sym h),
    )
place-IsAdded lo y2 s2 oh (fork y l r) w d le b (n, agree, differ) =
    let z = land (fork y l r) oh.digest in
    let same = land-side lo y l r oh.digest w in
    elim (compare-cases y.critbit y2.critbit) [
      | inl e ↦
          let same' : dbit y2.critbit z.digest ≡ dbit y2.critbit oh.digest =
            subst (λ c. dbit c z.digest ≡ dbit c oh.digest) e same in
          absurd (no_fix (dbit y2.critbit oh.digest) (differ ∙ ap not same'))
      | inr (inl above) ↦ (
        fork_at s2 y2 (leaf oh) (fork y l r),
        place-above y2 s2 oh y l r above,
        fork_at-IsAdded lo y2 s2 oh (fork y l r) n d le b
            (alike-apart lo y2 oh y l r z w (Has-land (fork y l r) oh.digest) above agree differ)
            (IsTree-higher lo y2.critbit y l r above w),
      )
      | inr (inr below) ↦
          in_child w below (λ wl sep. place-IsAdded (suc y.critbit) y2 s2 oh l wl d below b sep)
            (λ wr sep. place-IsAdded (suc y.critbit) y2 s2 oh r wr d below b sep)
    ]
  where
    in_child :
        IsTree lo (fork y l r)
        → y.critbit < y2.critbit
        → Places (suc y.critbit) y2 s2 oh l
        → Places (suc y.critbit) y2 s2 oh r
        → Placed lo y2 s2 oh (fork y l r)
    in_child (le', n', alike, left, right, wl, wr) below place_l place_r =
        let z = land (fork y l r) oh.digest in
        let hz = Has-land (fork y l r) oh.digest in
        let near : (i : ℕ) → i < y.critbit → dbit i oh.digest ≡ dbit i z.digest =
          λ i lt. agree i (omega arith) in
        elim (Bool-cases (dbit y.critbit oh.digest)) [
          | inl t ↦
              let sep =
                subst (λ x. Separates y2 oh.digest x.digest) (land-right y l r oh.digest t)
                  (n, agree, differ) in
              let (r', e, added) = place_r wr sep in
              (
                fork y l r',
                place-below y2 s2 oh y l r true below n' t
                    ∙ ap (λ o. o >>= λ x. some (fork y l x)) e,
                right-IsAdded lo y l r r' oh z w hz near t added,
              )
          | inr f ↦
              let sep =
                subst (λ x. Separates y2 oh.digest x.digest) (land-left y l r oh.digest f)
                  (n, agree, differ) in
              let (l', e, added) = place_l wl sep in
              (
                fork y l' r,
                place-below y2 s2 oh y l r false below n' f
                    ∙ ap (λ o. o >>= λ x. some (fork y x r)) e,
                left-IsAdded lo y l r l' oh z w hz near f added,
              )
        ]
