-- ===== src/Expire/Rearm.antt =====
-- EXP_Rearm and EXP_Touch of bin/varnishd/cache_expire.c.
use pkg_varnish.Prelude.{
  ℕ, ◌<◌, ◌≡◌, refl, ◌≢◌, ◌↔◌, ◌⊎◌, inl, inr, Bool, false, not, ◌||◌, some, [], ◌∷◌, arith, ◌==◌,
  Bool-cases,
}
use pkg_varnish.Prelude.Tailq.{remove, count, count-append, count-remove}
use pkg_varnish.Prelude.Cells.{write, write_at, write_else}
use pkg_varnish.Binheap.{unsigned_range}
use pkg_varnish.Binheap.Pages.{IsTree}
use pkg_varnish.Binheap.Operations.{IsMember}
use pkg_varnish.Binheap.Removal.{reorder-IsHeap}
use pkg_varnish.Expire.{Exp, object_when}
use pkg_varnish.Expire.Timer.{update_object_when-cases}
use pkg_varnish.Expire.Store.{Store, object_cmp, is_timed, touch, rearm}
use pkg_varnish.Expire.Listed.{object_cmp_key, IsStore}

module _ (getlru : ℕ → ℕ) (page : ℕ) (tree : IsTree page) where
  -- EXP_Rearm of cache_expire.c: where each object is in the heap and once on its own LRU list or on
  -- neither, and the heap has fewer than 2^32 places, an object whose lifetimes were changed is moved in
  -- the heap without a failed assertion, that stays so, the objects in the heap are the same, and the
  -- object's time is the one its lifetimes give, if it is in the heap.
  pub rearm-IsStore :
      (default_grace default_keep : ℕ) (st : Store) (oc : ℕ) (exp : Exp)
      → IsStore getlru page tree st
      → st.heap.next < unsigned_range
      → (st' : Store) × (rearm getlru default_grace default_keep st oc exp ≡ some st')
        × IsStore getlru page tree st'
        × ((q : ℕ) → IsMember st'.heap q ↔ IsMember st.heap q)
        × ((st.heap.index oc ≡ 0)
            ⊎ (st'.timer_when oc ≡ object_when default_grace default_keep exp))
  unfolding rearm is_timed
  rearm-IsStore default_grace default_keep st oc exp (heap, listed) small =
      elim (Bool-cases (st.heap.index oc == 0)) [
        | inl z ↦ (st, rw z refl, (heap, listed), λ q. ground arith, inl (ground arith))
        | inr z ↦
            elim (update_object_when-cases default_grace default_keep (st.timer_when oc) exp) [
              | inl (e, w) ↦ (st, rw (z, e) refl, (heap, listed), λ q. ground arith, inr w)
              | inr e ↦
                  let when = object_when default_grace default_keep exp in
                  let st1 : Store = record st { timer_when = write st.timer_when oc when } in
                  let m : IsMember st.heap oc = ground arith in
                  let (l, c) = (heap.1).1 oc m in
                  let same : (p : ℕ)
                      → p ≢ st.heap.cells (st.heap.index oc)
                      → write st.timer_when oc when p ≡ st.timer_when p =
                    λ p n. write_else st.timer_when oc p when (rw c at n) in
                  let (h, e1, heap', nx, members) =
                    reorder-IsHeap (object_cmp st1) st1.timer_when (object_cmp_key st1) page tree
                      st.timer_when (object_cmp st) (object_cmp_key st) st.heap (st.heap.index oc)
                      same heap (omega arith, l) small in
                  let z' : (h.index oc == 0) ≡ false = ground (arith, members oc) in
                  (
                    record st1 { heap = h },
                    rw (z, e, e1, z') refl,
                    (heap', λ q k. ground (arith, listed q k, members q)),
                    members,
                    inr (write_at st.timer_when oc when),
                  )
            ]
      ]

  -- EXP_Touch of cache_expire.c keeps each object in the heap and once on its own LRU list or on neither,
  -- and changes only the list of the object, where it is to be moved and the list's lock is free.
  pub touch-IsStore :
      (lock : Bool) (st : Store) (dont_move : Bool) (oc : ℕ)
      → IsStore getlru page tree st
      → IsStore getlru page tree (touch getlru lock st dont_move oc).0
  unfolding touch is_timed count
  touch-IsStore lock st dont_move oc (heap, listed) = elim (Bool-cases (dont_move || not lock)) [
    | inl e ↦ rw e (heap, listed)
    | inr e ↦ elim (Bool-cases (st.heap.index oc == 0)) [
      | inl z ↦ rw (e, z) (heap, listed)
      | inr z ↦
          rw (e, z)
            (
              heap,
              λ q k.
                  unfold write in
                  ground (
                    arith,
                    listed q k,
                    count-append q (remove oc (st.lru (getlru oc))) (oc ∷ []),
                    count-remove q oc (st.lru (getlru oc)),
                  ),
            )
    ]
  ]
