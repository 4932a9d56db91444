-- ===== src/Binheap/Tests.antt =====
-- Runs of lib/libvarnish/binary_heap.c, and its theorems at a heap of two pointers.
use pkg_varnish.Prelude.{
  ℕ, zero, suc, ◌+◌, ◌*◌, ◌%◌, ◌≤◌, ◌<◌, ◌≡◌, refl, ◌≢◌, ◌↔◌, ◌⊎◌, inl, Bool, true, false, Option,
  none, some, List, [], ◌∷◌, arith, ltb, ◌==◌, if◌then◌else◌, ◌>>=◌,
}
use pkg_varnish.Prelude.Cells.{write}
use pkg_varnish.Binheap.{
  Binheap, parent, child, is_filled, update, swap, root, trickleup, trickleup_loop, trickledown,
  trickledown_loop, lesser_child, insert, return_row, trickle, delete, reorder, addrow, page_shift,
  new,
}
use pkg_varnish.Binheap.Pages.{tree_512, child-parent_lem}
use pkg_varnish.Binheap.Operations.{IsMember, IsHeap, insert-IsHeap}
use pkg_varnish.Binheap.Removal.{delete-IsHeap, reorder-IsHeap, root_least}

-- A pointer's key.
abbrev key : ℕ → ℕ
key p = p * 7 % 10

abbrev cmp : ℕ → ℕ → Bool
cmp a b = ltb (key a) (key b)

-- 3 with the key 1 at the root, and 7 with the key 9.
abbrev two : Binheap
two = record {
  cells = λ u. if u == 1 then 3 else (if u == 2 then 7 else 0);
  index = λ p. if p == 3 then 1 else (if p == 7 then 2 else 0);
  row = λ r. r == 0;
  rows = 16;
  length = 65_536;
  next = 3;
  page_size = 512;
}

two-IsHeap : IsHeap cmp key (λ a b. refl) 512 tree_512 two
unfolding root parent
two-IsHeap = (
  refl,
  (λ u h l. ground arith, λ p h. ground arith),
  λ w h l. ground arith,
  (refl, omega arith, omega arith, λ r. ground arith),
  omega arith,
  omega arith,
  λ e. omega arith,
)

child-parent_example :
    ((parent 512 515 ≡ 513) ↔ ((515 ≡ (child 512 513).0) ⊎ (515 ≡ (child 512 513).1)))
    × (1 ≤ parent 512 515)
    × (parent 512 515 < 515)
child-parent_example =
    child-parent_lem 512 513 515 (inl refl) (omega arith, omega arith) (omega arith)
      (omega arith, omega arith)

insert-IsHeap_example :
    (bh' : Binheap) × (insert cmp true two 2 ≡ some bh')
    × IsHeap cmp key (λ a b. refl) 512 tree_512 bh'
    × (bh'.next ≡ 4)
    × ((q : ℕ) → IsMember bh' q ↔ ((q ≡ 2) ⊎ IsMember two q))
insert-IsHeap_example =
    insert-IsHeap cmp key (λ a b. refl) 512 tree_512 two 2 two-IsHeap (omega arith) refl
      (omega arith)

delete-IsHeap_example :
    (bh' : Binheap) × (delete cmp two 1 ≡ some bh')
    × IsHeap cmp key (λ a b. refl) 512 tree_512 bh'
    × (bh'.next + 1 ≡ 3)
    × ((q : ℕ) → IsMember bh' q ↔ (IsMember two q × (q ≢ 3)))
delete-IsHeap_example =
    delete-IsHeap cmp key (λ a b. refl) 512 tree_512 two 1 two-IsHeap (omega arith, omega arith)
      (omega arith)

-- The key of 7 is 0 now.
abbrev key' : ℕ → ℕ
key' p = if p == 7 then 0 else key p

abbrev cmp' : ℕ → ℕ → Bool
cmp' a b = ltb (key' a) (key' b)

reorder-IsHeap_example :
    (bh' : Binheap) × (reorder cmp' two 2 ≡ some bh')
    × IsHeap cmp' key' (λ a b. refl) 512 tree_512 bh'
    × (bh'.next ≡ 3)
    × ((q : ℕ) → IsMember bh' q ↔ IsMember two q)
reorder-IsHeap_example =
    reorder-IsHeap cmp' key' (λ a b. refl) 512 tree_512 key cmp (λ a b. refl) two 2
      (λ p h. ground arith) two-IsHeap (omega arith, omega arith) (omega arith)

root_least_example : (root two ≢ 0) × (two.index (root two) ≡ 1) × (cmp 7 (root two) ≡ false)
root_least_example = root_least cmp key (λ a b. refl) 512 tree_512 two 7 two-IsHeap (omega arith)

-- The roots, as the least are deleted in turn from a heap of three that were inserted.
abbrev roots : ℕ → Option Binheap → List ℕ
roots zero bh = []
roots (suc n) none = []
roots (suc n) (some bh) = root bh ∷ roots n (delete cmp bh 1)

sorted :
    roots 3 (
      new 4096 8 true >>= λ a.
      insert cmp true a 7 >>= λ b. insert cmp true b 2 >>= λ c. insert cmp true c 3)
    ≡ 3 ∷ 2 ∷ 7 ∷ []
unfolding new page_shift addrow insert update is_filled write trickleup trickleup_loop parent child
    swap delete trickle trickledown trickledown_loop lesser_child return_row root
sorted = refl
