-- ===== src/Binheap.antt =====
-- lib/libvarnish/binary_heap.c: the heap of pointers, each of which is told its place.
-- A pointer is a number, NULL is 0. A(bh, n) is `cells n`: the two-level table is flattened, and
-- `row` says which of its rows are allocated. `index` is what the callback recorded last for each
-- pointer, as object_update of cache_expire.c does in timer_idx; no index is 0.
-- A failed assertion is `none`. A size is a power of two, so the masks are remainders.
pub mod Exchange
pub mod Loops
pub mod Rows
pub mod Operations
pub mod Removal
pub mod Tests
pub mod Steps
pub mod Pages
pub mod Order
use pkg_varnish.Prelude.{
  ℕ, zero, suc, ◌+◌, ◌-◌, ◌*◌, ◌/◌, ◌%◌, ◌^◌, ◌≤◌, ◌<◌, ◌≡◌, refl, sym, ap, ◌∙◌, ◌≢◌, ◌↔◌, ◌⊎◌, inl,
  inr, Bool, true, false, not, ◌&&◌, ◌||◌, Option, none, some, List, [], ◌∷◌, ◌++◌, arith, ltb, leb,
  ◌==◌, if◌then◌else◌, ltb→lt, leb→le, ==_iff, Bool-cases, Option-cases, length, length-append,
  take, drop, ◌>>=◌, ◌>>◌, assert,
}
use pkg_varnish.Prelude.Cells.{write}

abbrev pub unsigned_range : ℕ
unsigned_range = 4_294_967_296

abbrev pub row_width : ℕ
row_width = 65_536

pub record Binheap : Type 0 where
  pub cells : ℕ → ℕ
  pub index : ℕ → ℕ
  pub row : ℕ → Bool
  pub rows : ℕ
  pub length : ℕ
  pub next : ℕ
  pub page_size : ℕ

unfoldable pub parent : ℕ → ℕ → ℕ
parent page u =
    let po = u % page in
    let v = (u - page) / page in
    if ltb u page || ltb 3 po
    then (u - po) + po / 2
    else (if ltb po 2 then v + (v - v % (page / 2)) + page / 2 else u - 2)

unfoldable pub child : ℕ → ℕ → ℕ × ℕ
child page u =
    let po = u % page in
    let uu = ((u - po) / 2 + po % (page / 2) + 1) * page in
    if ltb (page - 1) u && ltb po 2
    then ((u + 2) % unsigned_range, (u + 2) % unsigned_range)
    else (if leb (page / 2) po
        then (if ltb uu unsigned_range
            then (uu, uu + 1)
            else (unsigned_range - 1, unsigned_range - 1))
        else ((u + po) % unsigned_range, ((u + po) % unsigned_range + 1) % unsigned_range))

-- `memory`: realloc and malloc give some.
unfoldable pub addrow : Bool → Binheap → Option Binheap
addrow memory bh =
    let r = bh.length / row_width in
    let rows = if leb bh.rows r then (bh.rows * 2) % unsigned_range else bh.rows in
    assert (memory || not (leb bh.rows r))
    >> (assert (not (bh.row r))
        >> (assert memory
            >> some record bh {
              rows = rows;
              row = write bh.row r true;
              length = (bh.length + row_width) % unsigned_range;
            }))

unfoldable pub is_filled : Binheap → ℕ → Bool
is_filled bh u = ltb u bh.next && not (bh.cells u == 0)

unfoldable pub update : Binheap → ℕ → Option Binheap
update bh u = assert (is_filled bh u) >> some record bh { index = write bh.index (bh.cells u) u }

unfoldable pub swap : Binheap → ℕ → ℕ → Option Binheap
swap bh u v =
    assert (is_filled bh u)
    >> (assert (is_filled bh v)
        >> (update record bh { cells = write (write bh.cells u (bh.cells v)) v (bh.cells u) } u
            >>= λ bh'. update bh' v))

unfoldable pub root : Binheap → ℕ
root bh = bh.cells 1

-- One full row more than is in use is kept.
unfoldable pub return_row : Binheap → Binheap
return_row bh =
    if leb ((bh.next + 2 * row_width) % unsigned_range) bh.length
    then record bh {
      row = write bh.row ((bh.length - 1) / row_width) false;
      length = bh.length - row_width;
    }
    else bh

module _ (cmp : ℕ → ℕ → Bool) where
  unfoldable pub trickleup_loop : ℕ → Binheap → ℕ → Option (Binheap × ℕ)
  trickleup_loop zero bh u = none
  trickleup_loop (suc fuel) bh u =
      let v = parent bh.page_size u in
      if ltb 1 u
      then assert (is_filled bh u)
        >> (assert (not (u == unsigned_range - 1))
            >> (assert (ltb v u)
                >> (assert (is_filled bh v)
                    >> (if cmp (bh.cells u) (bh.cells v)
                        then (swap bh u v >>= λ bh'. trickleup_loop fuel bh' v)
                        else some (bh, u)))))
      else some (bh, u)

  -- Each turn goes to a smaller index.
  unfoldable pub trickleup : Binheap → ℕ → Option (Binheap × ℕ)
  trickleup bh u = assert (is_filled bh u) >> trickleup_loop (suc u) bh u

  -- The child to compare with: the second where there is one and it is less.
  unfoldable pub lesser_child : Binheap → ℕ → ℕ → Option ℕ
  lesser_child bh v1 v2 =
      if not (v1 == v2) && ltb v2 bh.next
      then assert (not (bh.cells v2 == 0))
        >> some (if cmp (bh.cells v2) (bh.cells v1) then v2 else v1)
      else some v1

  unfoldable pub trickledown_loop : ℕ → Binheap → ℕ → Option (Binheap × ℕ)
  trickledown_loop zero bh u = none
  trickledown_loop (suc fuel) bh u =
      let (v1, v2) = child bh.page_size u in
      assert (is_filled bh u)
      >> (assert (ltb 0 v1 && ltb 0 v2 && leb v1 v2)
          >> (if leb bh.next v1
              then some (bh, u)
              else (assert (not (bh.cells v1 == 0))
                  >> (lesser_child bh v1 v2 >>= λ v.
                      assert (is_filled bh v)
                      >> (if cmp (bh.cells u) (bh.cells v)
                          then some (bh, u)
                          else (swap bh u v >>= λ bh'. trickledown_loop fuel bh' v))))))

  -- Each turn goes to a greater index, below `next`.
  unfoldable pub trickledown : Binheap → ℕ → Option (Binheap × ℕ)
  trickledown bh u = assert (is_filled bh u) >> trickledown_loop (bh.next - u) bh u

  unfoldable pub insert : Bool → Binheap → ℕ → Option Binheap
  insert memory bh p =
      assert (leb bh.next bh.length)
      >> ((if bh.length == bh.next then addrow memory bh else some bh) >>= λ bh1.
          assert (ltb bh1.next bh1.length)
          >> (let u = bh1.next in
              update record bh1 { next = (u + 1) % unsigned_range; cells = write bh1.cells u p } u
              >>= λ bh2. trickleup bh2 u >>= λ (bh3, _). assert (is_filled bh3 u) >> some bh3))

  unfoldable pub trickle : Binheap → ℕ → Option Binheap
  trickle bh idx = trickleup bh idx >>= λ (bh1, idx1).
      assert (ltb 0 idx1 && is_filled bh1 idx1)
      >> (trickledown bh1 idx1 >>= λ (bh2, idx2).
          assert (ltb 0 idx2 && is_filled bh2 idx2) >> some bh2)

  unfoldable pub delete : Binheap → ℕ → Option Binheap
  delete bh idx =
      assert (ltb 1 bh.next && ltb 0 idx && is_filled bh idx)
      >> (let bh1 : Binheap = record bh {
        index = write bh.index (bh.cells idx) 0;
        next = bh.next - 1;
      } in
          let tail = bh.next - 1 in
          if idx == tail
          then some record bh1 { cells = write bh.cells tail 0 }
          else (update record bh1 { cells = write (write bh.cells idx (bh.cells tail)) tail 0 } idx
              >>= λ bh2. trickle bh2 idx >>= λ bh3. some (return_row bh3)))

  unfoldable pub reorder : Binheap → ℕ → Option Binheap
  reorder bh idx = assert (ltb 1 bh.next && ltb 0 idx && is_filled bh idx) >> trickle bh idx

-- The exponent of the page size: no assertion fails and the search ends only for a power of two.
unfoldable pub page_shift : ℕ → ℕ → ℕ → Option ℕ
page_shift zero page u = none
page_shift (suc fuel) page u = if 2 ^ u == page then some u else page_shift fuel page (u + 1)

-- The system's page and a pointer are so many bytes. `memory`: the allocations succeed. Else there is
-- no heap, or an assertion fails: the two are not told apart.
unfoldable pub new : ℕ → ℕ → Bool → Option Binheap
new system_page pointer memory =
    let page = system_page / pointer in
    page_shift 32 page 1 >>= λ _.
    assert (leb page (pointer * row_width))
    >> (addrow memory record {
      cells = λ _. 0;
      index = λ _. 0;
      row = λ _. false;
      rows = 16;
      length = 0;
      next = 1;
      page_size = page;
    }
        >>= λ bh. some record bh { cells = write bh.cells 1 0 })
