-- ===== src/Expire/Listed.antt =====
-- The heap and the LRU lists of bin/varnishd/cache_expire.c: an object is on both or on neither.
use pkg_varnish.Prelude.{
  ℕ, ◌+◌, ◌*◌, ◌≤◌, ◌<◌, ◌≡◌, refl, ap, ◌∙◌, ◌≢◌, ◌↔◌, ◌⊎◌, true, false, not, ◌&&◌, some, [], ◌∷◌,
  ◌++◌, arith, ltb, ◌==◌, if◌then◌else◌,
}
use pkg_varnish.Prelude.Cells.{write, write_at}
use pkg_varnish.Prelude.Tailq.{remove, count, count-append, count-remove}
use pkg_varnish.Binheap.{Binheap, root, unsigned_range, row_width}
use pkg_varnish.Binheap
use pkg_varnish.Binheap.Pages.{IsTree}
use pkg_varnish.Binheap.Operations.{IsMember, IsHeap, insert-IsHeap}
use pkg_varnish.Binheap.Removal.{delete-IsHeap}
use pkg_varnish.Expire.{Exp, update_object_when, object_when}
use pkg_varnish.Expire.Timer.{update_object_when-object_when}
use pkg_varnish.Expire.Store.{Store, object_cmp, is_timed, take_off, insert, inject, insert_object}

pub object_cmp_key :
    (st : Store) (a b : ℕ) → object_cmp st a b ≡ ltb (st.timer_when a) (st.timer_when b)
unfolding object_cmp
object_cmp_key st a b = refl

module _ (getlru : ℕ → ℕ) (page : ℕ) (tree : IsTree page) where
  abbrev pub HasHeap : Store → Type 0
  HasHeap st = IsHeap (object_cmp st) st.timer_when (object_cmp_key st) page tree st.heap

  -- On its own list once, if it is in the heap, and else on none.
  abbrev pub AreListed : Store → Type 0
  AreListed st =
      (oc l : ℕ)
      → count oc (st.lru l) ≡ (if getlru oc == l && not (st.heap.index oc == 0) then 1 else 0)

  abbrev pub IsStore : Store → Type 0
  IsStore st = HasHeap st × AreListed st

  -- The time of an object that is not in the heap does not matter.
  pub rekeyed :
      (st : Store) (oc when : ℕ)
      → HasHeap st
      → st.heap.index oc ≡ 0
      → HasHeap record st { timer_when = write st.timer_when oc when }
  rekeyed st oc when (pg, ok, o, rowed, h, le, empty) out = (
    pg,
    ok,
    λ w hw lw.
        unfold write in ground (arith, o w hw, ok.0 w, ok.0 (Binheap.parent page w), tree.0 w hw),
    rowed,
    h,
    le,
    empty,
  )

  insert_lem :
      (st : Store) (oc : ℕ)
      → IsStore st
      → oc ≢ 0
      → st.heap.index oc ≡ 0
      → st.heap.next + row_width < unsigned_range
      → (st' : Store) × (insert getlru true st oc ≡ some st')
        × IsStore st'
        × ((q : ℕ) → IsMember st'.heap q ↔ ((q ≡ oc) ⊎ IsMember st.heap q))
        × (st' ≡ record st { heap = st'.heap; lru = st'.lru })
  unfolding insert is_timed count
  insert_lem st oc (heap, listed) n out small =
      let (h, e, heap', nx, members) =
        insert-IsHeap (object_cmp st) st.timer_when (object_cmp_key st) page tree st.heap oc heap n
          out small in
      let z : (h.index oc == 0) ≡ false = ground (arith, members oc) in
      let l = st.lru (getlru oc) in
      (
        record st { heap = h; lru = write st.lru (getlru oc) (l ++ oc ∷ []) },
        rw (out, e, z) refl,
        (
          heap',
          λ q k. unfold write in ground (arith, listed q k, count-append q l (oc ∷ []), members q),
        ),
        members,
        refl,
      )

  -- EXP_Inject of cache_expire.c: where each object is in the heap and once on its own LRU list or on
  -- neither, an object that is on neither is put on both with the given time, where malloc gives memory
  -- and fewer than 2^32 places are needed; no assertion fails, it is so of every object again, and the
  -- objects in the heap are those before and the new one.
  pub inject-IsStore :
      (st : Store) (oc when : ℕ)
      → IsStore st
      → oc ≢ 0
      → st.heap.index oc ≡ 0
      → st.heap.next + row_width < unsigned_range
      → (st' : Store) × (inject getlru true st oc when ≡ some st')
        × IsStore st'
        × (st'.timer_when oc ≡ when)
        × ((q : ℕ) → IsMember st'.heap q ↔ ((q ≡ oc) ⊎ IsMember st.heap q))
  unfolding inject
  inject-IsStore st oc when (heap, listed) n out small =
      let (st', e, is, members, same) =
        insert_lem record st { timer_when = write st.timer_when oc when } oc
          (rekeyed st oc when heap out, listed) n out small in
      (st', e, is, ap (λ x. x.timer_when oc) same ∙ write_at st.timer_when oc when, members)

  -- EXP_Insert of cache_expire.c: where each object is in the heap and once on its own LRU list or on
  -- neither, a busy object with a reference that is on neither and was entered at some time is put on
  -- both, where malloc gives memory and fewer than 2^32 places are needed; no assertion fails, it is so
  -- of every object again, the objects in the heap are those before and the new one, its time is the one
  -- that its lifetimes give, and it has one reference more.
  pub insert_object-IsStore :
      (default_grace default_keep : ℕ) (st : Store) (oc : ℕ) (exp : Exp)
      → IsStore st
      → oc ≢ 0
      → st.heap.index oc ≡ 0
      → st.busy oc ≡ true
      → 1 ≤ st.refcnt oc
      → exp.entered ≢ 0
      → st.heap.next + row_width < unsigned_range
      → (st' : Store) × (insert_object getlru default_grace default_keep true st oc exp ≡ some st')
        × IsStore st'
        × (st'.timer_when oc ≡ object_when default_grace default_keep exp)
        × (st'.refcnt oc ≡ st.refcnt oc + 1)
        × ((q : ℕ) → IsMember st'.heap q ↔ ((q ≡ oc) ⊎ IsMember st.heap q))
  unfolding insert_object
  insert_object-IsStore default_grace default_keep st oc exp (heap, listed) n out b ref en small =
      let when = (update_object_when default_grace default_keep (st.timer_when oc) exp).1 in
      let st1 : Store = record st {
        refcnt = write st.refcnt oc (st.refcnt oc + 1);
        last_lru = write st.last_lru oc exp.entered;
        timer_when = write st.timer_when oc when;
      } in
      let (st', e, is, members, same) =
        insert_lem st1 oc (rekeyed st oc when heap out, listed) n out small in
      let en' : (ltb 0 (st.refcnt oc) && not (exp.entered == 0)) ≡ true = ground arith in
      (
        st',
        rw (b, en') e,
        is,
        ap (λ x. x.timer_when oc) same
            ∙ write_at st.timer_when oc when
            ∙ update_object_when-object_when default_grace default_keep (st.timer_when oc) exp,
        ap (λ x. x.refcnt oc) same ∙ write_at st.refcnt oc (st.refcnt oc + 1),
        members,
      )

  pub take_off_lem :
      (st : Store) (oc : ℕ)
      → IsStore st
      → IsMember st.heap oc
      → st.heap.next + 2 * row_width < unsigned_range
      → (st' : Store) × (take_off st (getlru oc) oc ≡ some st')
        × IsStore st'
        × ((q : ℕ) → IsMember st'.heap q ↔ (IsMember st.heap q × (q ≢ oc)))
        × (st' ≡ record st { heap = st'.heap; lru = st'.lru })
  unfolding take_off
  take_off_lem st oc (heap, listed) m small =
      let (l, c) = ((heap.1).1) oc m in
      let (h, e, heap', nx, members) =
        delete-IsHeap (object_cmp st) st.timer_when (object_cmp_key st) page tree st.heap
          (st.heap.index oc) heap (omega arith, l) small in
      let members' : (q : ℕ) → IsMember h q ↔ (IsMember st.heap q × (q ≢ oc)) = rw c at members in
      let z : (h.index oc == 0) ≡ true = ground (arith, members' oc) in
      (
        record st { heap = h; lru = write st.lru (getlru oc) (remove oc (st.lru (getlru oc))) },
        rw (e, z) refl,
        (
          heap',
          λ q k.
              unfold write in
              ground (arith, listed q k, count-remove q oc (st.lru (getlru oc)), members' q),
        ),
        members',
        refl,
      )
