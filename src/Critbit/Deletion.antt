-- ===== src/Critbit/Deletion.antt =====
-- hcb_delete in bin/varnishd/hash_critbit.c: what is in the tree afterwards.
use pkg_varnish.Prelude.{
  ℕ, suc, ◌≡◌, refl, sym, ap, ◌∙◌, ◌≢◌, ◌↔◌, ◌⊎◌, inl, inr, Bool, true, false, not, Option, none,
  some, arith, if◌then◌else◌, ==_iff, ◌>>=◌,
}
use mathlib.Core.Path.{subst}
use pkg_varnish.Critbit.{Leaf, Node, Tree, leaf, fork, is_leaf, delete_loop, delete}
use pkg_varnish.Critbit.Bits.{dbit, IsNode, side-dbit}
use pkg_varnish.Critbit.Trees.{Has, AllSided, IsTree, IsTree-lower}
use pkg_varnish.Critbit.Forks.{fork-IsTree}
use pkg_varnish.Critbit.Insertion.{RootHas, IsRoot}

-- The tree is well formed, and has the leaves of the other but for this one.
abbrev pub IsRemoved : ℕ → Tree → Leaf → Tree → Type 0
IsRemoved lo t oh t' = IsTree lo t' × ((q : Leaf) → Has t' q ↔ (Has t q × (q ≢ oh)))

abbrev Removed : ℕ → Tree → Leaf → Type 0
Removed lo t oh = (t' : Tree) × (delete_loop t oh ≡ some t') × IsRemoved lo t oh t'

-- A leaf on one side of the node is not one on the other.
other_side :
    (c : ℕ) (s : Bool) (t : Tree) (oh q : Leaf)
    → AllSided c s t
    → dbit c oh.digest ≡ not s
    → Has t q
    → q ≢ oh
other_side c s t oh q all b h e = no_fix s (sym (all q h) ∙ ap (λ p. dbit c p.digest) e ∙ b)
  where
    no_fix : (x : Bool) → x ≡ not x → ⊥
    no_fix x e = ground arith

delete_right :
    (y : Node) (l r : Tree) (oh : Leaf)
    → IsNode y
    → dbit y.critbit oh.digest ≡ true
    → delete_loop (fork y l r) oh
      ≡ (if is_leaf r oh then some l else (delete_loop r oh >>= λ r'. some (fork y l r')))
unfolding delete_loop
delete_right y l r oh n b = rw (side-dbit y oh.digest n, b) refl

delete_left :
    (y : Node) (l r : Tree) (oh : Leaf)
    → IsNode y
    → dbit y.critbit oh.digest ≡ false
    → delete_loop (fork y l r) oh
      ≡ (if is_leaf l oh then some r else (delete_loop l oh >>= λ l'. some (fork y l' r)))
unfolding delete_loop
delete_left y l r oh n b = rw (side-dbit y oh.digest n, b) refl

module _ (lo : ℕ) (y : Node) (l r : Tree) (oh : Leaf) (w : IsTree lo (fork y l r)) where
  lost_right : r ≡ leaf oh → dbit y.critbit oh.digest ≡ true → IsRemoved lo (fork y l r) oh l
  lost_right e b =
      let (le, n, alike, left, right, wl, wr) = w in
      (
        IsTree-lower (suc y.critbit) lo l (omega arith) wl,
        λ q. ((λ h. (inl h, other_side y.critbit false l oh q left b h)), back q),
      )
    where
      back : (q : Leaf) → (Has l q ⊎ Has r q) × (q ≢ oh) → Has l q
      back q (inl h, ne) = h
      back q (inr h, ne) = absurd (ne (subst (λ t. Has t q) e h))

  lost_left : l ≡ leaf oh → dbit y.critbit oh.digest ≡ false → IsRemoved lo (fork y l r) oh r
  lost_left e b =
      let (le, n, alike, left, right, wl, wr) = w in
      (
        IsTree-lower (suc y.critbit) lo r (omega arith) wr,
        λ q. ((λ h. (inr h, other_side y.critbit true r oh q right b h)), back q),
      )
    where
      back : (q : Leaf) → (Has l q ⊎ Has r q) × (q ≢ oh) → Has r q
      back q (inr h, ne) = h
      back q (inl h, ne) = absurd (ne (subst (λ t. Has t q) e h))

  below_right :
      (r' : Tree)
      → Has r oh
      → IsRemoved (suc y.critbit) r oh r'
      → IsRemoved lo (fork y l r) oh (fork y l r')
  below_right r' at (w', has) =
      let (le, n, alike, left, right, wl, wr) = w in
      (
        fork-IsTree lo y l r l r' oh oh w (inr at) (λ i lt. refl) wl w' (λ q h. inr h)
            (λ q h. inr ((has q).0 h).0),
        λ q. (to (right oh at) left q, from q),
      )
    where
      to :
          dbit y.critbit oh.digest ≡ true
          → AllSided y.critbit false l
          → (q : Leaf) → Has l q ⊎ Has r' q
          → (Has l q ⊎ Has r q) × (q ≢ oh)
      to b left q (inl h) = (inl h, other_side y.critbit false l oh q left b h)
      to b left q (inr h) = let (old, ne) = (has q).0 h in (inr old, ne)

      from : (q : Leaf) → (Has l q ⊎ Has r q) × (q ≢ oh) → Has l q ⊎ Has r' q
      from q (inl h, ne) = inl h
      from q (inr h, ne) = inr ((has q).1 (h, ne))

  below_left :
      (l' : Tree)
      → Has l oh
      → IsRemoved (suc y.critbit) l oh l'
      → IsRemoved lo (fork y l r) oh (fork y l' r)
  below_left l' at (w', has) =
      let (le, n, alike, left, right, wl, wr) = w in
      (
        fork-IsTree lo y l r l' r oh oh w (inl at) (λ i lt. refl) w' wr (λ q h. inr ((has q).0 h).0)
            (λ q h. inr h),
        λ q. (to (left oh at) right q, from q),
      )
    where
      to :
          dbit y.critbit oh.digest ≡ false
          → AllSided y.critbit true r
          → (q : Leaf) → Has l' q ⊎ Has r q
          → (Has l q ⊎ Has r q) × (q ≢ oh)
      to b right q (inr h) = (inr h, other_side y.critbit true r oh q right b h)
      to b right q (inl h) = let (old, ne) = (has q).0 h in (inl old, ne)

      from : (q : Leaf) → (Has l q ⊎ Has r q) × (q ≢ oh) → Has l' q ⊎ Has r q
      from q (inr h, ne) = inr h
      from q (inl h, ne) = inl ((has q).1 (h, ne))

is_leaf_self : (q oh : Leaf) → oh ≡ q → is_leaf (leaf q) oh ≡ true
unfolding is_leaf
is_leaf_self q oh e = (==_iff q.addr oh.addr).1 (ap (λ p. p.addr) (sym e))

is_leaf-fork : (y : Node) (l r : Tree) (oh : Leaf) → is_leaf (fork y l r) oh ≡ false
unfolding is_leaf
is_leaf-fork y l r oh = refl

-- The tree is that leaf, or the loop takes it out.
delete_loop-cases :
    (lo : ℕ) (t : Tree) (oh : Leaf)
    → IsTree lo t
    → Has t oh
    → (t ≡ leaf oh) ⊎ ((is_leaf t oh ≡ false) × Removed lo t oh)
delete_loop-cases lo (leaf q) oh w h = inl (ap leaf (sym h))
delete_loop-cases lo (fork y l r) oh w (inr h) =
    let (le, n, alike, left, right, wl, wr) = w in
    inr (
      is_leaf-fork y l r oh,
      elim (delete_loop-cases (suc y.critbit) r oh wr h) [
        | inl e ↦
            let here = ap (λ t. is_leaf t oh) e ∙ is_leaf_self oh oh refl in
            (
              l,
              delete_right y l r oh n (right oh h) ∙ rw here refl,
              lost_right lo y l r oh w e (right oh h),
            )
        | inr (not_here, (r', e, removed)) ↦ (
          fork y l r',
          delete_right y l r oh n (right oh h)
              ∙ rw not_here (ap (λ o. o >>= λ x. some (fork y l x)) e),
          below_right lo y l r oh w r' h removed,
        )
      ],
    )
delete_loop-cases lo (fork y l r) oh w (inl h) =
    let (le, n, alike, left, right, wl, wr) = w in
    inr (
      is_leaf-fork y l r oh,
      elim (delete_loop-cases (suc y.critbit) l oh wl h) [
        | inl e ↦
            let here = ap (λ t. is_leaf t oh) e ∙ is_leaf_self oh oh refl in
            (
              r,
              delete_left y l r oh n (left oh h) ∙ rw here refl,
              lost_left lo y l r oh w e (left oh h),
            )
        | inr (not_here, (l', e, removed)) ↦ (
          fork y l' r,
          delete_left y l r oh n (left oh h)
              ∙ rw not_here (ap (λ o. o >>= λ x. some (fork y x r)) e),
          below_left lo y l r oh w l' h removed,
        )
      ],
    )

-- From a well-formed tree hcb_delete takes an objhead that is there, and no other, and leaves the
-- tree well formed.
pub delete-IsRemoved :
    (root : Option Tree) (oh : Leaf)
    → IsRoot root
    → RootHas root oh
    → (root' : Option Tree) × (delete root oh ≡ some root')
      × IsRoot root'
      × ((q : Leaf) → RootHas root' q ↔ (RootHas root q × (q ≢ oh)))
unfolding delete
delete-IsRemoved none oh w h = absurd h
delete-IsRemoved (some t) oh w h = elim (delete_loop-cases 0 t oh w h) [
  | inl e ↦
      let here = ap (λ t. is_leaf t oh) e ∙ is_leaf_self oh oh refl in
      (
        none,
        rw here refl,
        _,
        λ q. ((λ x. absurd x), λ (at, ne). absurd (ne (subst (λ t. Has t q) e at))),
      )
  | inr (not_here, (t', e, (w', has))) ↦ (some t', rw (not_here, e) refl, w', has)
]
