-- ===== src/Critbit/Trees.antt =====
-- The tree of bin/varnishd/hash_critbit.c: which trees are well formed, and what a descent finds.
use pkg_varnish.Prelude.{
  ℕ, suc, ◌≤◌, ◌<◌, ◌≡◌, refl, sym, ap, ◌∙◌, ◌⊎◌, inl, inr, Bool, true, false, some, List, arith,
  if◌then◌else◌, Bool-cases,
}
use mathlib.Core.Path.{subst}
use pkg_varnish.Critbit.{Leaf, Tree, leaf, fork, descend}
use pkg_varnish.Critbit.Bits.{dbit, IsDigest, IsNode, side-dbit}

abbrev pub Has : Tree → Leaf → Type 0
Has (leaf oh) q = q ≡ oh
Has (fork y l r) q = Has l q ⊎ Has r q

-- The leaves agree in every bit before `c`.
abbrev pub Alike : ℕ → Tree → Type 0
Alike c t = (p q : Leaf) → Has t p → Has t q → (i : ℕ) → i < c → dbit i p.digest ≡ dbit i q.digest

abbrev pub AllSided : ℕ → Bool → Tree → Type 0
AllSided c s t = (q : Leaf) → Has t q → dbit c q.digest ≡ s

-- The critical bits grow on the way down, from `lo`; below a node the leaves agree before its bit,
-- and on either side they have that bit.
abbrev pub IsTree : ℕ → Tree → Type 0
IsTree lo (leaf oh) = IsDigest oh.digest
IsTree lo (fork y l r) =
    (lo ≤ y.critbit)
    × IsNode y
    × Alike y.critbit (fork y l r)
    × AllSided y.critbit false l
    × AllSided y.critbit true r
    × IsTree (suc y.critbit) l
    × IsTree (suc y.critbit) r

pub IsTree-lower : (lo lo' : ℕ) (t : Tree) → lo' ≤ lo → IsTree lo t → IsTree lo' t
IsTree-lower lo lo' (leaf oh) h w = w
IsTree-lower lo lo' (fork y l r) h (le, n, alike, left, right, wl, wr) =
    (omega arith, n, alike, left, right, wl, wr)

pub Has-IsDigest : (lo : ℕ) (t : Tree) (q : Leaf) → IsTree lo t → Has t q → IsDigest q.digest
Has-IsDigest lo (leaf oh) q w h = subst (λ p. IsDigest p.digest) (sym h) w
Has-IsDigest lo (fork y l r) q (le, n, alike, left, right, wl, wr) (inl h) =
    Has-IsDigest (suc y.critbit) l q wl h
Has-IsDigest lo (fork y l r) q (le, n, alike, left, right, wl, wr) (inr h) =
    Has-IsDigest (suc y.critbit) r q wr h

-- The leaf that the bits of a digest lead to.
unfoldable pub land : Tree → List ℕ → Leaf
land (leaf oh) d = oh
land (fork y l r) d = if dbit y.critbit d then land r d else land l d

pub Has-land : (t : Tree) (d : List ℕ) → Has t (land t d)
unfolding land
Has-land (leaf oh) d = refl
Has-land (fork y l r) d = elim (Bool-cases (dbit y.critbit d)) [
  | inl b ↦ rw b (inr (Has-land r d))
  | inr b ↦ rw b (inl (Has-land l d))
]

pub descend-land : (lo : ℕ) (t : Tree) (d : List ℕ) → IsTree lo t → descend t d ≡ some (land t d)
unfolding descend land
descend-land lo (leaf oh) d w = refl
descend-land lo (fork y l r) d (le, n, alike, left, right, wl, wr) =
    rw (side-dbit y d n, descend-land (suc y.critbit) l d wl, descend-land (suc y.critbit) r d wr)
      (by_side (dbit y.critbit d))
  where
    by_side :
        (b : Bool)
        → (if b then some (land r d) else some (land l d)) ≡ some (if b then land r d else land l d)
    by_side true = refl
    by_side false = refl

-- The digest of a leaf leads to it.
pub land-Has : (lo : ℕ) (t : Tree) (q : Leaf) → IsTree lo t → Has t q → land t q.digest ≡ q
unfolding land
land-Has lo (leaf oh) q w h = sym h
land-Has lo (fork y l r) q (le, n, alike, left, right, wl, wr) (inl h) =
    rw (left q h) (land-Has (suc y.critbit) l q wl h)
land-Has lo (fork y l r) q (le, n, alike, left, right, wl, wr) (inr h) =
    rw (right q h) (land-Has (suc y.critbit) r q wr h)

-- No two leaves have the same digest.
pub Has-unique :
    (lo : ℕ) (t : Tree) (p q : Leaf) → IsTree lo t → Has t p → Has t q → p.digest ≡ q.digest → p ≡ q
Has-unique lo t p q w hp hq e = sym (land-Has lo t p w hp) ∙ ap (land t) e ∙ land-Has lo t q w hq
