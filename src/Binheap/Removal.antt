-- ===== src/Binheap/Removal.antt =====
-- binheap_delete, binheap_reorder and binheap_root of lib/libvarnish/binary_heap.c.
use pkg_varnish.Prelude.{
  ℕ, ◌+◌, ◌-◌, ◌*◌, ◌≤◌, ◌<◌, ◌≡◌, refl, sym, ap, ◌∙◌, ◌≢◌, ◌↔◌, inl, inr, Bool, true, false, some,
  arith, ltb, ◌==◌, Bool-cases, length, ◌>>=◌,
}
use pkg_varnish.Prelude.Cells.{write, write_at, write_else}
use pkg_varnish.Binheap.{
  unsigned_range, row_width, Binheap, parent, update, root, return_row, trickle, delete, reorder,
}
use pkg_varnish.Binheap.Pages.{IsTree}
use pkg_varnish.Binheap.Order.{Around, replace_Around, Ordered-first}
use pkg_varnish.Binheap.Exchange.{IsConsistent, filled, update_at}
use pkg_varnish.Binheap.Rows.{return_row_lem}
use pkg_varnish.Binheap.Steps.{keys, InUse}
use pkg_varnish.Binheap.Operations.{IsMember, trickle_lem, IsHeap, moved-IsHeap}

module _ (cmp : ℕ → ℕ → Bool) (key : ℕ → ℕ) (cmp_key : (a b : ℕ) → cmp a b ≡ ltb (key a) (key b))
    (page : ℕ) (tree : IsTree page) where
  -- Without the last place, whose pointer is now at `idx`.
  abbrev replaced : Binheap → ℕ → Binheap
  replaced bh idx = record bh {
    next = bh.next - 1;
    cells = write (write bh.cells idx (bh.cells (bh.next - 1))) (bh.next - 1) 0;
    index = write (write bh.index (bh.cells idx) 0) (bh.cells (bh.next - 1)) idx;
  }

  replaced-IsConsistent :
      (bh : Binheap) (idx : ℕ)
      → IsConsistent bh
      → 1 ≤ idx
      → idx < bh.next - 1
      → IsConsistent (replaced bh idx)
  unfolding write
  replaced-IsConsistent bh idx ok h l = (
    λ w hw lw. ground (arith, ok.0 w hw, ok.0 idx h, ok.0 (bh.next - 1)),
    λ q hq. ground (arith, ok.1 q, ok.0 idx h, ok.0 (bh.next - 1)),
  )

  abbrev shortened : Binheap → ℕ → Binheap
  shortened bh idx = record bh {
    next = bh.next - 1;
    cells = write bh.cells (bh.next - 1) 0;
    index = write bh.index (bh.cells idx) 0;
  }

  shortened-IsConsistent :
      (bh : Binheap) (idx : ℕ)
      → IsConsistent bh
      → 1 ≤ idx
      → idx ≡ bh.next - 1
      → idx < bh.next
      → IsConsistent (shortened bh idx)
  unfolding write
  shortened-IsConsistent bh idx ok h e l =
      (λ w hw lw. ground (arith, ok.0 w hw, ok.0 idx h), λ q hq. ground (arith, ok.1 q, ok.0 idx h))

  return_row-IsHeap :
      (bh : Binheap)
      → IsHeap cmp key cmp_key page tree bh
      → bh.next + 2 * row_width < unsigned_range
      → IsHeap cmp key cmp_key page tree (return_row bh)
        × ((return_row bh).next ≡ bh.next)
        × ((return_row bh).index ≡ bh.index)
  unfolding root
  return_row-IsHeap bh (pg, ok, o, rowed, h, l, empty) small =
      let (row, length, e, r, n) = return_row_lem bh rowed l small in
      rw e ((pg, ok, o, r, h, n, empty), refl, refl)

  -- Where the pointer is not the last.
  delete_moved :
      (bh : Binheap) (idx : ℕ)
      → IsHeap cmp key cmp_key page tree bh
      → (1 ≤ idx) × (idx < bh.next - 1)
      → bh.next + 2 * row_width < unsigned_range
      → (bh' : Binheap) × ((update
              record bh {
                index = write bh.index (bh.cells idx) 0;
                next = bh.next - 1;
                cells = write (write bh.cells idx (bh.cells (bh.next - 1))) (bh.next - 1) 0;
              }
              idx
            >>= λ bh2. trickle cmp bh2 idx >>= λ bh3. some (return_row bh3))
          ≡ some bh')
        × IsHeap cmp key cmp_key page tree bh'
        × (bh'.next + 1 ≡ bh.next)
        × ((q : ℕ) → IsMember bh' q ↔ (IsMember bh q × (q ≢ bh.cells idx)))
  delete_moved bh idx (pg, ok, o, rowed, h, le, empty) (hi, li) small =
      let tail = bh.next - 1 in
      let bh1 : Binheap = record bh {
        index = write bh.index (bh.cells idx) 0;
        next = tail;
        cells = write (write bh.cells idx (bh.cells tail)) tail 0;
      } in
      let bh2 : Binheap = replaced bh idx in
      let ok2 : IsConsistent bh2 = replaced-IsConsistent bh idx ok hi li in
      let at : bh1.cells idx ≡ bh.cells tail =
        write_else (write bh.cells idx (bh.cells tail)) tail idx 0 (omega arith)
        ∙ write_at bh.cells idx (bh.cells tail) in
      let e2 : update bh1 idx ≡ some bh2 =
        update_at bh1 idx (bh.cells tail) li at ((ok.0 tail (omega arith) (omega arith)).0) in
      let kept : (w : ℕ) → 1 ≤ w → w < tail → w ≢ idx → keys key bh2 w ≡ keys key bh w =
        λ w hw lw ne. ap key (
          write_else (write bh.cells idx (bh.cells tail)) tail w 0 (omega arith)
          ∙ write_else bh.cells idx w (bh.cells tail) ne) in
      let a : Around (parent page) tree.0 (keys key bh2) tail idx =
        replace_Around (parent page) tree.0 (keys key bh) (keys key bh2) bh.next idx tail
          (omega arith) o kept in
      let (bh3, e3, ok3, m3, o3) =
        trickle_lem cmp key cmp_key page tree bh2 idx (ok2, pg, omega arith, (hi, li)) a in
      let n3 : bh3.next ≡ tail = ap (λ x. x.next) m3.0 in
      let (heap4, n4, i4) =
        return_row-IsHeap bh3
          (moved-IsHeap cmp key cmp_key page tree bh2 bh3 m3 pg rowed (omega arith, omega arith) ok3
            o3)
          (omega arith) in
      (
        return_row bh3,
        rw (e2, e3) refl,
        heap4,
        omega arith,
        λ q. rw i4 (unfold write in ground (arith, m3.1 q, ok.0 idx hi, ok.0 tail)),
      )

  -- binheap_delete of binary_heap.c: from a heap whose order is that of a key and that has fewer than
  -- 2^32 - 2^17 places, the pointer at a place in use is deleted without a failed assertion; the result
  -- is a heap again, with one place less, of the other pointers that were in it.
  pub delete-IsHeap :
      (bh : Binheap) (idx : ℕ)
      → IsHeap cmp key cmp_key page tree bh
      → InUse bh idx
      → bh.next + 2 * row_width < unsigned_range
      → (bh' : Binheap) × (delete cmp bh idx ≡ some bh')
        × IsHeap cmp key cmp_key page tree bh'
        × (bh'.next + 1 ≡ bh.next)
        × ((q : ℕ) → IsMember bh' q ↔ (IsMember bh q × (q ≢ bh.cells idx)))
  unfolding delete
  delete-IsHeap bh idx heap iu small =
      let (pg, ok, o, rowed, h, le, empty) = heap in
      let (hi, li) = iu in
      let z1 : ltb 1 bh.next ≡ true = ground arith in
      let z2 : ltb 0 idx ≡ true = ground arith in
      elim (Bool-cases (idx == bh.next - 1)) [
        | inl e ↦
            let e' : idx ≡ bh.next - 1 = ground arith in
            (
              shortened bh idx,
              rw (z1, z2, filled bh ok idx hi li, e) refl,
              (
                pg,
                shortened-IsConsistent bh idx ok hi e' li,
                λ w hw lw. unfold write in ground (arith, o w hw, tree.0 w hw),
                rowed,
                omega arith,
                omega arith,
                λ e1. unfold root write in ground arith,
              ),
              omega arith,
              λ q. unfold write in ground (arith, ok.0 idx hi li),
            )
        | inr e ↦
            let li' : idx < bh.next - 1 = ground arith in
            let (bh', e', heap', n', m') = delete_moved bh idx heap (hi, li') small in
            (bh', rw (z1, z2, filled bh ok idx hi li, e) e', heap', n', m')
      ]

  -- binheap_reorder of binary_heap.c: where the key of the pointer at a place in use has changed, in a
  -- heap ordered by the keys before, of fewer than 2^32 places, the operation ends without a failed
  -- assertion in a heap ordered by the keys now, of the same size and the same pointers.
  pub reorder-IsHeap :
      (before : ℕ → ℕ) (cmp_before : ℕ → ℕ → Bool)
      (cmp_before_key : (a b : ℕ) → cmp_before a b ≡ ltb (before a) (before b)) (bh : Binheap)
      (idx : ℕ)
      → ((p : ℕ) → p ≢ bh.cells idx → key p ≡ before p)
      → IsHeap cmp_before before cmp_before_key page tree bh
      → InUse bh idx
      → bh.next < unsigned_range
      → (bh' : Binheap) × (reorder cmp bh idx ≡ some bh')
        × IsHeap cmp key cmp_key page tree bh'
        × (bh'.next ≡ bh.next)
        × ((q : ℕ) → IsMember bh' q ↔ IsMember bh q)
  unfolding reorder
  reorder-IsHeap before cmp_before cmp_before_key bh idx same (pg, ok, o, rowed, h, le, empty) iu
        small =
      let (hi, li) = iu in
      let z1 : ltb 1 bh.next ≡ true = ground arith in
      let z2 : ltb 0 idx ≡ true = ground arith in
      let kept : (w : ℕ) → 1 ≤ w → w < bh.next → w ≢ idx → key (bh.cells w) ≡ before (bh.cells w) =
        λ w hw lw ne.
          same (bh.cells w)
            (λ e. ne (sym ((ok.0 w hw lw).1) ∙ ap bh.index e ∙ (ok.0 idx hi li).1)) in
      let a : Around (parent page) tree.0 (keys key bh) bh.next idx =
        replace_Around (parent page) tree.0 (keys before bh) (keys key bh) bh.next idx bh.next
          (omega arith) o kept in
      let (bh', e', ok', m', o') =
        trickle_lem cmp key cmp_key page tree bh idx (ok, pg, small, iu) a in
      (
        bh',
        rw (z1, z2, filled bh ok idx hi li) e',
        moved-IsHeap cmp key cmp_key page tree bh bh' m' pg rowed (omega arith, le) ok' o',
        ap (λ x. x.next) m'.0,
        λ q. ground (arith, m'.1 q),
      )

  -- binheap_root of binary_heap.c: in a heap whose order is that of a key, where a pointer is in it, the
  -- root is not NULL, is in the heap, and no pointer in the heap compares as less than it.
  pub root_least :
      (bh : Binheap) (p : ℕ)
      → IsHeap cmp key cmp_key page tree bh
      → IsMember bh p
      → (root bh ≢ 0) × (bh.index (root bh) ≡ 1) × (cmp p (root bh) ≡ false)
  unfolding root
  root_least bh p (pg, ok, o, rowed, h, le, empty) m =
      let (l, c) = ok.1 p m in
      let (n, i) = ok.0 1 (omega arith) (omega arith) in
      let k : keys key bh 1 ≤ keys key bh (bh.index p) =
        Ordered-first (parent page) tree.0 (keys key bh) bh.next o (bh.index p) (omega arith) l in
      let k' : key (bh.cells 1) ≤ key p = rw c at k in
      (n, i, cmp_key p (bh.cells 1) ∙ (ground arith))

  -- An empty heap has no root.
  pub root_empty : (bh : Binheap) → IsHeap cmp key cmp_key page tree bh → root bh ≡ 0 → bh.next ≡ 1
  unfolding root
  root_empty bh (pg, ok, o, rowed, h, le, empty) z = ground (arith, ok.0 1)
