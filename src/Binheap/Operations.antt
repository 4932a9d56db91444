-- ===== src/Binheap/Operations.antt =====
-- The operations of lib/libvarnish/binary_heap.c.
use pkg_varnish.Prelude.{
  ℕ, suc, ◌+◌, ◌-◌, ◌%◌, ◌≤◌, ◌<◌, ◌≡◌, refl, ap, ◌∙◌, ◌≢◌, ◌↔◌, ◌⊎◌, inl, inr, Bool, true, Option,
  some, arith, ltb, leb, ◌==◌, if◌then◌else◌, Bool-cases, length,
}
use pkg_varnish.Prelude.Cells.{write, write_at, write_else}
use pkg_varnish.Binheap.{
  unsigned_range, row_width, Binheap, parent, is_filled, update, root, trickleup, trickledown,
  insert, trickle, addrow,
}
use pkg_varnish.Binheap.Pages.{IsTree}
use pkg_varnish.Binheap.Order.{Around, AboveOnly, append_AboveOnly}
use pkg_varnish.Binheap.Exchange.{IsConsistent, IsMove, IsMove-trans, filled, update_at}
use pkg_varnish.Binheap.Rows.{IsRowed, with_rows, addrow_lem}
use pkg_varnish.Binheap.Loops.{
  IsOrdered, IsGood, trickleup_loop-IsOrdered, trickleup_loop-IsBelowOnly,
  trickledown_loop-IsOrdered,
}
use pkg_varnish.Binheap.Steps.{keys}

-- The pointer is in the heap.
abbrev pub IsMember : Binheap → ℕ → Type 0
IsMember bh p = bh.index p ≢ 0

module _ (cmp : ℕ → ℕ → Bool) (key : ℕ → ℕ) (cmp_key : (a b : ℕ) → cmp a b ≡ ltb (key a) (key b))
    (page : ℕ) (tree : IsTree page) where
  abbrev pub Trickled : Binheap → Option Binheap → Type 0
  Trickled bh o =
      (bh' : Binheap) × (o ≡ some bh')
      × IsConsistent bh'
      × IsMove bh bh'
      × IsOrdered cmp key cmp_key page tree bh' 0

  pub trickle_lem :
      (bh : Binheap) (u : ℕ)
      → IsGood cmp key cmp_key page tree bh u
      → Around (parent page) tree.0 (keys key bh) bh.next u
      → Trickled bh (trickle cmp bh u)
  unfolding trickle trickleup
  trickle_lem bh u good a =
      let (ok, e, small, iu) = good in
      let (bh1, u1, e1, ok1, m1, iu1, b1) =
        trickleup_loop-IsBelowOnly cmp key cmp_key page tree u bh u good (omega arith) a in
      let good1 : IsGood cmp key cmp_key page tree bh1 u1 =
        (ok1, ap (λ x. x.page_size) m1.0 ∙ e, rw (ap (λ x. x.next) m1.0) small, iu1) in
      let (bh2, u2, e2, ok2, m2, iu2, o2) =
        trickledown_loop-IsOrdered cmp key cmp_key page tree (bh1.next - u1) bh1 u1 good1
          (omega arith) b1 in
      let z1 : ltb 0 u1 ≡ true = ground arith in
      let z2 : ltb 0 u2 ≡ true = ground arith in
      let d : trickledown cmp bh1 u1 ≡ some (bh2, u2) =
        unfold trickledown in rw (filled bh1 ok1 u1 iu1.0 iu1.1) e2 in
      (
        bh2,
        rw
            (
              filled bh ok u iu.0 iu.1,
              e1,
              z1,
              filled bh1 ok1 u1 iu1.0 iu1.1,
              d,
              z2,
              filled bh2 ok2 u2 iu2.0 iu2.1,
            )
            refl,
        ok2,
        IsMove-trans bh bh1 bh2 m1 m2,
        o2,
      )

  -- A heap between two operations.
  abbrev pub IsHeap : Binheap → Type 0
  IsHeap bh =
      (bh.page_size ≡ page)
      × IsConsistent bh
      × IsOrdered cmp key cmp_key page tree bh 0
      × IsRowed bh
      × (1 ≤ bh.next)
      × (bh.next ≤ bh.length)
      × (bh.next ≡ 1 → root bh ≡ 0)

  pub moved-IsHeap :
      (bh bh' : Binheap)
      → IsMove bh bh'
      → bh.page_size ≡ page
      → IsRowed bh
      → (2 ≤ bh.next) × (bh.next ≤ bh.length)
      → IsConsistent bh'
      → IsOrdered cmp key cmp_key page tree bh' 0
      → IsHeap bh'
  moved-IsHeap bh bh' m pg (r, le, one, rows) (h, l) ok o =
      let n : bh'.next ≡ bh.next = ap (λ x. x.next) m.0 in
      let e : bh'.length ≡ bh.length = ap (λ x. x.length) m.0 in
      let e' : bh'.rows ≡ bh.rows = ap (λ x. x.rows) m.0 in
      let f : bh'.row ≡ bh.row = ap (λ x. x.row) m.0 in
      let rowed : IsRowed bh' = (rw e r, rw (e, e') le, rw e' one, λ q. rw (e, f) (rows q)) in
      (ap (λ x. x.page_size) m.0 ∙ pg, ok, o, rowed, omega arith, rw (n, e) l, λ e1. ground arith)

  -- The space that an insertion makes.
  room :
      (bh : Binheap)
      → IsHeap bh
      → bh.next + row_width < unsigned_range
      → (rows : ℕ) × (row : ℕ → Bool) × (length : ℕ) × ((if bh.length == bh.next
            then addrow true bh
            else some bh)
          ≡ some (with_rows bh rows row length))
        × IsRowed (with_rows bh rows row length)
        × (bh.next < length)
  room bh (pg, ok, o, rowed, h, le, empty) small = elim (Bool-cases (bh.length == bh.next)) [
    | inl e ↦
        let (rows, row, e', r) = addrow_lem bh rowed (ground arith) in
        (rows, row, bh.length + row_width, rw (e, e') refl, r, omega arith)
    | inr e ↦ (bh.rows, bh.row, bh.length, rw e refl, rowed, ground arith)
  ]

  -- The heap with `p` at its end.
  abbrev appended : Binheap → ℕ → Binheap
  appended bh p = record bh {
    next = bh.next + 1;
    cells = write bh.cells bh.next p;
    index = write bh.index p bh.next;
  }

  appended-IsConsistent :
      (bh : Binheap) (p : ℕ)
      → IsConsistent bh
      → 1 ≤ bh.next
      → p ≢ 0
      → bh.index p ≡ 0
      → IsConsistent (appended bh p)
  unfolding write
  appended-IsConsistent bh p ok h n z =
      (λ w hw lw. ground (arith, ok.0 w hw), λ q hq. ground (arith, ok.1 q))

  -- binheap_insert of binary_heap.c: into a heap whose order is that of a key, a pointer other than
  -- NULL that is not in it is inserted without a failed assertion where malloc gives memory and fewer
  -- than 2^32 places are needed; the result is a heap again, with one place more, of the pointers that
  -- were in it and the new one.
  pub insert-IsHeap :
      (bh : Binheap) (p : ℕ)
      → IsHeap bh
      → p ≢ 0
      → bh.index p ≡ 0
      → bh.next + row_width < unsigned_range
      → (bh' : Binheap) × (insert cmp true bh p ≡ some bh')
        × IsHeap bh'
        × (bh'.next ≡ bh.next + 1)
        × ((q : ℕ) → IsMember bh' q ↔ ((q ≡ p) ⊎ IsMember bh q))
  unfolding insert trickleup
  insert-IsHeap bh p heap n out small =
      let (pg, ok, o, rowed, h, le, empty) = heap in
      let (rows, row, length, e1, r, l) = room bh heap small in
      let bh1 : Binheap = with_rows bh rows row length in
      let bh2 : Binheap = appended bh1 p in
      let ok2 : IsConsistent bh2 = appended-IsConsistent bh1 p ok h n out in
      let kept : (w : ℕ) → w < bh.next → keys key bh2 w ≡ keys key bh1 w =
        λ w lw. ap key (write_else bh.cells bh.next w p (omega arith)) in
      let a : AboveOnly (parent page) tree.0 (keys key bh2) (bh.next + 1) bh.next =
        append_AboveOnly (parent page) tree.0 (keys key bh) (keys key bh2) bh.next 1 o kept in
      let good : IsGood cmp key cmp_key page tree bh2 bh.next =
        (ok2, pg, omega arith, (h, omega arith)) in
      let (bh3, u3, e3, ok3, m3, iu3, o3) =
        trickleup_loop-IsOrdered cmp key cmp_key page tree (suc bh.next) bh2 bh.next good
          (omega arith) a in
      let z1 : leb bh.next bh.length ≡ true = ground arith in
      let z2 : ltb bh.next length ≡ true = ground arith in
      let z3 : (bh.next + 1) % unsigned_range ≡ bh.next + 1 = omega arith in
      let up : update record bh1 { next = bh.next + 1; cells = write bh1.cells bh.next p } bh.next
          ≡ some bh2 =
        update_at record bh1 { next = bh.next + 1; cells = write bh1.cells bh.next p } bh.next p
          (omega arith) (write_at bh.cells bh.next p) n in
      let f3 : is_filled bh3 bh.next ≡ true =
        filled bh3 ok3 bh.next h (rw (ap (λ x. x.next) m3.0) (omega arith)) in
      (
        bh3,
        rw (z1, e1, z2, z3, up, filled bh2 ok2 bh.next h (omega arith), e3, f3) refl,
        moved-IsHeap bh2 bh3 m3 pg r (omega arith, omega arith) ok3 o3,
        ap (λ x. x.next) m3.0,
        λ q. unfold write in ground (arith, m3.1 q),
      )
