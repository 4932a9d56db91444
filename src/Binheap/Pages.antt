-- ===== src/Binheap/Pages.antt =====
-- parent and child of lib/libvarnish/binary_heap.c: the tree they lay over the pages.
use pkg_varnish.Prelude.{ℕ, ◌-◌, ◌≤◌, ◌<◌, ◌≡◌, ◌↔◌, ◌⊎◌, inl, inr, arith}
use pkg_varnish.Binheap.{unsigned_range, parent, child}

-- The indices but UINT_MAX.
abbrev pub Places : ℕ → Type 0
Places u = (1 ≤ u) × (u < unsigned_range - 1)

abbrev pub IsChild : ℕ → ℕ → ℕ → Type 0
IsChild page u w = (w ≡ (child page u).0) ⊎ (w ≡ (child page u).1)

-- A parent is before its children, and they are the indices that have it as their parent.
abbrev pub IsTree : ℕ → Type 0
IsTree page =
    ((u : ℕ) → 2 ≤ u → (1 ≤ parent page u) × (parent page u < u))
    × ((u : ℕ) → Places u → (u < (child page u).0) × ((child page u).0 ≤ (child page u).1))
    × ((u w : ℕ) → Places u → 2 ≤ w → Places w → (parent page w ≡ u) ↔ IsChild page u w)

pub tree_512 : IsTree 512
unfolding parent child
tree_512 = (λ u h. ground arith, λ u h. ground arith, λ u w p h q. ground arith)

pub tree_1024 : IsTree 1_024
unfolding parent child
tree_1024 = (λ u h. ground arith, λ u h. ground arith, λ u w p h q. ground arith)

-- binary_heap.c: on pages of 4096 bytes, with pointers of 8 or of 4 bytes, parent and child agree:
-- an index w from 2 on and other than UINT_MAX has u as its parent if and only if w is one of the two
-- that child gives for u, and its parent is at least 1 and less than w.
pub child-parent_lem :
    (page u w : ℕ)
    → (page ≡ 512) ⊎ (page ≡ 1_024)
    → Places u
    → 2 ≤ w
    → Places w
    → ((parent page w ≡ u) ↔ ((w ≡ (child page u).0) ⊎ (w ≡ (child page u).1)))
      × (1 ≤ parent page w)
      × (parent page w < w)
child-parent_lem page u w (inl e) p h q =
    rw e (tree_512.2 u w p h q, (tree_512.0 w h).0, (tree_512.0 w h).1)
child-parent_lem page u w (inr e) p h q =
    rw e (tree_1024.2 u w p h q, (tree_1024.0 w h).0, (tree_1024.0 w h).1)
