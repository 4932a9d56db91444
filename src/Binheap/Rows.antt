-- ===== src/Binheap/Rows.antt =====
-- The rows of lib/libvarnish/binary_heap.c: how the array grows and shrinks.
use pkg_varnish.Prelude.{
  ℕ, ◌+◌, ◌-◌, ◌*◌, ◌/◌, ◌%◌, ◌≤◌, ◌<◌, ◌≡◌, refl, ◌∙◌, inl, inr, Bool, true, false, some, arith,
  ltb, leb, if◌then◌else◌, Bool-cases, length,
}
use pkg_varnish.Prelude.Cells.{write}
use pkg_varnish.Binheap.{unsigned_range, row_width, Binheap, addrow, return_row}

-- The rows below `length` are allocated, and the array of rows has space for them.
abbrev pub IsRowed : Binheap → Type 0
IsRowed bh =
    (bh.length % row_width ≡ 0)
    × (bh.length ≤ bh.rows * row_width)
    × (1 ≤ bh.rows)
    × ((r : ℕ) → bh.row r ≡ ltb (r * row_width) bh.length)

-- The changes to the rows.
abbrev pub with_rows : Binheap → ℕ → (ℕ → Bool) → ℕ → Binheap
with_rows bh rows row length = record bh { rows = rows; row = row; length = length }

pub addrow_lem :
    (bh : Binheap)
    → IsRowed bh
    → bh.length + row_width < unsigned_range
    → (rows : ℕ) × (row : ℕ → Bool) × (addrow true bh
        ≡ some (with_rows bh rows row (bh.length + row_width)))
      × IsRowed (with_rows bh rows row (bh.length + row_width))
unfolding addrow
addrow_lem bh (m, le, one, rows) small =
    let r = bh.length / row_width in
    let rows' = if leb bh.rows r then (bh.rows * 2) % unsigned_range else bh.rows in
    let e1 : bh.row r ≡ false = rows r ∙ (ground arith) in
    let e2 : (bh.length + row_width) % unsigned_range ≡ bh.length + row_width = omega arith in
    (
      rows',
      write bh.row r true,
      rw (e1, e2) refl,
      (omega arith, ground arith, ground arith, λ q. unfold write in ground (arith, rows q)),
    )

pub return_row_lem :
    (bh : Binheap)
    → IsRowed bh
    → bh.next ≤ bh.length
    → bh.next + 2 * row_width < unsigned_range
    → (row : ℕ → Bool) × (length : ℕ) × (return_row bh ≡ with_rows bh bh.rows row length)
      × IsRowed (with_rows bh bh.rows row length)
      × (bh.next ≤ length)
unfolding return_row
return_row_lem bh (m, le, one, rows) l small =
    elim (Bool-cases (leb ((bh.next + 2 * row_width) % unsigned_range) bh.length)) [
      | inl e ↦ (
        write bh.row ((bh.length - 1) / row_width) false,
        bh.length - row_width,
        rw e refl,
        (ground arith, ground arith, one, λ q. unfold write in ground (arith, rows q)),
        ground arith,
      )
      | inr e ↦ (bh.row, bh.length, rw e refl, (m, le, one, rows), l)
    ]
