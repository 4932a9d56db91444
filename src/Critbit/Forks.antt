-- ===== src/Critbit/Forks.antt =====
-- A fork of the tree in bin/varnishd/hash_critbit.c with a leaf added on one side.
use pkg_varnish.Prelude.{
  ℕ, suc, ◌≤◌, ◌<◌, ◌≡◌, sym, ap, ◌∙◌, ◌↔◌, ◌⊎◌, inl, inr, Bool, true, false, not, arith,
}
use pkg_varnish.Critbit.{Leaf, Node, Tree, leaf, fork, fork_at}
use pkg_varnish.Critbit.Bits.{dbit, IsDigest, IsNode}
use pkg_varnish.Critbit.Trees.{Has, AllSided, IsTree}

-- The tree is well formed, and has this leaf besides those of the other.
abbrev pub IsAdded : ℕ → Tree → Leaf → Tree → Type 0
IsAdded lo t oh t' = IsTree lo t' × ((q : Leaf) → Has t' q ↔ ((q ≡ oh) ⊎ Has t q))

-- All leaves of the tree are where the new node's bit separates them from the new leaf.
abbrev pub AllApart : Node → Leaf → Tree → Type 0
AllApart y2 oh t =
    (q : Leaf)
    → Has t q
    → ((i : ℕ) → i < y2.critbit → dbit i oh.digest ≡ dbit i q.digest)
      × (dbit y2.critbit oh.digest ≡ not (dbit y2.critbit q.digest))

not-not : (b c : Bool) → b ≡ not c → c ≡ not b
not-not b c e = ground arith

pub fork_at-IsAdded :
    (lo : ℕ) (y2 : Node) (s2 : Bool) (oh : Leaf) (t : Tree)
    → IsNode y2
    → IsDigest oh.digest
    → lo ≤ y2.critbit
    → dbit y2.critbit oh.digest ≡ s2
    → AllApart y2 oh t
    → IsTree (suc y2.critbit) t
    → IsAdded lo t oh (fork_at s2 y2 (leaf oh) t)
unfolding fork_at
fork_at-IsAdded lo y2 true oh t n d le s apart w = (
  (le, n, alike, other_side, (λ q h. ap (λ p. dbit y2.critbit p.digest) h ∙ s), w, d),
  λ q. (swap_in q, swap_out q),
)
  where
    other_side : (q : Leaf) → Has t q → dbit y2.critbit q.digest ≡ false
    other_side q h = not-not _ _ (apart q h).1 ∙ ap not s

    swap_in : (q : Leaf) → Has t q ⊎ (q ≡ oh) → (q ≡ oh) ⊎ Has t q
    swap_in q (inl h) = inr h
    swap_in q (inr h) = inl h

    swap_out : (q : Leaf) → (q ≡ oh) ⊎ Has t q → Has t q ⊎ (q ≡ oh)
    swap_out q (inl h) = inr h
    swap_out q (inr h) = inl h

    to_new :
        (q : Leaf)
        → Has t q ⊎ (q ≡ oh)
        → (i : ℕ) → i < y2.critbit
        → dbit i oh.digest ≡ dbit i q.digest
    to_new q (inl h) i l = (apart q h).0 i l
    to_new q (inr h) i l = ap (λ p. dbit i p.digest) (sym h)

    alike :
        (p q : Leaf)
        → Has t p ⊎ (p ≡ oh)
        → Has t q ⊎ (q ≡ oh)
        → (i : ℕ) → i < y2.critbit
        → dbit i p.digest ≡ dbit i q.digest
    alike p q hp hq i l = sym (to_new p hp i l) ∙ to_new q hq i l
fork_at-IsAdded lo y2 false oh t n d le s apart w = (
  (le, n, alike, (λ q h. ap (λ p. dbit y2.critbit p.digest) h ∙ s), other_side, d, w),
  λ q. ((λ h. h), λ h. h),
)
  where
    other_side : (q : Leaf) → Has t q → dbit y2.critbit q.digest ≡ true
    other_side q h = not-not _ _ (apart q h).1 ∙ ap not s

    to_new :
        (q : Leaf)
        → (q ≡ oh) ⊎ Has t q
        → (i : ℕ) → i < y2.critbit
        → dbit i oh.digest ≡ dbit i q.digest
    to_new q (inr h) i l = (apart q h).0 i l
    to_new q (inl h) i l = ap (λ p. dbit i p.digest) (sym h)

    alike :
        (p q : Leaf)
        → (p ≡ oh) ⊎ Has t p
        → (q ≡ oh) ⊎ Has t q
        → (i : ℕ) → i < y2.critbit
        → dbit i p.digest ≡ dbit i q.digest
    alike p q hp hq i l = sym (to_new p hp i l) ∙ to_new q hq i l

-- A leaf is the new one, which is on this side of the node, or was there.
abbrev pub OldOr : Node → Leaf → Bool → Tree → Tree → Type 0
OldOr y oh s t t' = (q : Leaf) → Has t' q → ((q ≡ oh) × (dbit y.critbit oh.digest ≡ s)) ⊎ Has t q

-- A fork whose children were changed so is well formed.
pub fork-IsTree :
    (lo : ℕ) (y : Node) (l r l' r' : Tree) (oh z : Leaf)
    → IsTree lo (fork y l r)
    → Has (fork y l r) z
    → ((i : ℕ) → i < y.critbit → dbit i oh.digest ≡ dbit i z.digest)
    → IsTree (suc y.critbit) l'
    → IsTree (suc y.critbit) r'
    → OldOr y oh false l l'
    → OldOr y oh true r r'
    → IsTree lo (fork y l' r')
fork-IsTree lo y l r l' r' oh z (le, n, alike, left, right, wl, wr) hz near wl' wr' from_l from_r =
    (
      le,
      n,
      λ p q hp hq i lt. to_z p hp i lt ∙ sym (to_z q hq i lt),
      λ q h. sided false l left q (from_l q h),
      λ q h. sided true r right q (from_r q h),
      wl',
      wr',
    )
  where
    sided :
        (s : Bool) (t : Tree)
        → AllSided y.critbit s t
        → (q : Leaf) → ((q ≡ oh) × (dbit y.critbit oh.digest ≡ s)) ⊎ Has t q
        → dbit y.critbit q.digest ≡ s
    sided s t all q (inl (e, b)) = ap (λ p. dbit y.critbit p.digest) e ∙ b
    sided s t all q (inr h) = all q h

    is_oh : (p : Leaf) → p ≡ oh → (i : ℕ) → i < y.critbit → dbit i p.digest ≡ dbit i z.digest
    is_oh p e i lt = ap (λ x. dbit i x.digest) e ∙ near i lt

    to_z :
        (p : Leaf)
        → Has l' p ⊎ Has r' p
        → (i : ℕ) → i < y.critbit
        → dbit i p.digest ≡ dbit i z.digest
    to_z p (inl h) i lt = elim (from_l p h) [
      | inl (e, b) ↦ is_oh p e i lt
      | inr old ↦ alike p z (inl old) hz i lt
    ]
    to_z p (inr h) i lt = elim (from_r p h) [
      | inl (e, b) ↦ is_oh p e i lt
      | inr old ↦ alike p z (inr old) hz i lt
    ]

added_or :
    (y : Node) (oh : Leaf) (s : Bool) (t t' : Tree)
    → dbit y.critbit oh.digest ≡ s
    → ((q : Leaf) → Has t' q ↔ ((q ≡ oh) ⊎ Has t q))
    → OldOr y oh s t t'
added_or y oh s t t' b has q h = elim ((has q).0 h) [ inl e ↦ inl (e, b) | inr old ↦ inr old ]

pub right-IsAdded :
    (lo : ℕ) (y : Node) (l r r' : Tree) (oh z : Leaf)
    → IsTree lo (fork y l r)
    → Has (fork y l r) z
    → ((i : ℕ) → i < y.critbit → dbit i oh.digest ≡ dbit i z.digest)
    → dbit y.critbit oh.digest ≡ true
    → IsAdded (suc y.critbit) r oh r'
    → IsAdded lo (fork y l r) oh (fork y l r')
right-IsAdded lo y l r r' oh z w hz near b (w', has) =
    let (le, n, alike, left, right, wl, wr) = w in
    (
      fork-IsTree lo y l r l r' oh z w hz near wl w' (λ q h. inr h) (added_or y oh true r r' b has),
      λ q. (to q, from q),
    )
  where
    to : (q : Leaf) → Has l q ⊎ Has r' q → (q ≡ oh) ⊎ (Has l q ⊎ Has r q)
    to q (inl h) = inr (inl h)
    to q (inr h) = elim ((has q).0 h) [ inl e ↦ inl e | inr old ↦ inr (inr old) ]

    from : (q : Leaf) → (q ≡ oh) ⊎ (Has l q ⊎ Has r q) → Has l q ⊎ Has r' q
    from q (inl e) = inr ((has q).1 (inl e))
    from q (inr (inl h)) = inl h
    from q (inr (inr h)) = inr ((has q).1 (inr h))

pub left-IsAdded :
    (lo : ℕ) (y : Node) (l r l' : Tree) (oh z : Leaf)
    → IsTree lo (fork y l r)
    → Has (fork y l r) z
    → ((i : ℕ) → i < y.critbit → dbit i oh.digest ≡ dbit i z.digest)
    → dbit y.critbit oh.digest ≡ false
    → IsAdded (suc y.critbit) l oh l'
    → IsAdded lo (fork y l r) oh (fork y l' r)
left-IsAdded lo y l r l' oh z w hz near b (w', has) =
    let (le, n, alike, left, right, wl, wr) = w in
    (
      fork-IsTree lo y l r l' r oh z w hz near w' wr (added_or y oh false l l' b has)
          (λ q h. inr h),
      λ q. (to q, from q),
    )
  where
    to : (q : Leaf) → Has l' q ⊎ Has r q → (q ≡ oh) ⊎ (Has l q ⊎ Has r q)
    to q (inr h) = inr (inr h)
    to q (inl h) = elim ((has q).0 h) [ inl e ↦ inl e | inr old ↦ inr (inl old) ]

    from : (q : Leaf) → (q ≡ oh) ⊎ (Has l q ⊎ Has r q) → Has l' q ⊎ Has r q
    from q (inl e) = inl ((has q).1 (inl e))
    from q (inr (inl h)) = inl ((has q).1 (inr h))
    from q (inr (inr h)) = inr h
