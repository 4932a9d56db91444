-- ===== src/Expire/Turns.antt =====
-- exp_timer of bin/varnishd/cache_expire.c.
use pkg_varnish.Prelude.{
  ℕ, ◌+◌, ◌*◌, ◌≤◌, ◌<◌, ◌≡◌, refl, sym, ◌∙◌, ◌≢◌, ◌↔◌, ◌⊎◌, inl, inr, Bool, true, false, some,
  arith, ltb, ◌==◌, if◌then◌else◌, Bool-cases,
}
use pkg_varnish.Binheap.{root, unsigned_range, row_width}
use pkg_varnish.Binheap.Pages.{IsTree}
use pkg_varnish.Binheap.Operations.{IsMember}
use pkg_varnish.Binheap.Removal.{root_least, root_empty}
use pkg_varnish.Expire.Store.{
  Store, object_cmp, is_timed, Timed, nothing, early, wait_busy, wait_lru, expired, timer_turn,
}
use pkg_varnish.Expire.Listed.{object_cmp_key, IsStore, take_off_lem}

-- What a turn of the timer with its time at `t` tells of the objects in the heap, and does.
abbrev pub IsTurn : Bool → Store → ℕ → Store → Timed → Type 0
IsTurn lock st t st' nothing = (st' ≡ st) × ((q : ℕ) → st.heap.index q ≡ 0)
IsTurn lock st t st' early = (st' ≡ st) × ((q : ℕ) → (st.heap.index q ≡ 0) ⊎ (t < st.timer_when q))
IsTurn lock st t st' wait_busy =
    (st' ≡ st) × (st.busy (root st.heap) ≡ true) × (st.timer_when (root st.heap) ≤ t)
IsTurn lock st t st' wait_lru = (st' ≡ st) × (lock ≡ false) × (st.timer_when (root st.heap) ≤ t)
IsTurn lock st t st' (expired oc) =
    (st.timer_when oc ≤ t)
    × (st.busy oc ≡ false)
    × ((q : ℕ) → (st.heap.index q ≡ 0) ⊎ (st.timer_when oc ≤ st.timer_when q))
    × IsMember st.heap oc
    × ((q : ℕ) → IsMember st'.heap q ↔ (IsMember st.heap q × (q ≢ oc)))

module _ (getlru : ℕ → ℕ) (page : ℕ) (tree : IsTree page) where
  root_cases :
      (st : Store)
      → IsStore getlru page tree st
      → ((root st.heap ≡ 0) × ((q : ℕ) → st.heap.index q ≡ 0))
        ⊎ ((root st.heap ≢ 0)
            × IsMember st.heap (root st.heap)
            × ((q : ℕ) → (st.heap.index q ≡ 0) ⊎ (st.timer_when (root st.heap) ≤ st.timer_when q)))
  root_cases st (heap, listed) = elim (Bool-cases (root st.heap == 0)) [
    | inl e ↦
        let n =
          root_empty (object_cmp st) st.timer_when (object_cmp_key st) page tree st.heap heap
            (ground arith) in
        inl (ground arith, λ q. let i = (heap.1).1 q in ground arith)
    | inr e ↦
        let (pg, ok, o, rowed, h, le, empty) = heap in
        inr (
          ground arith,
          unfold root in ground (arith, ok.0 1, empty),
          λ q. elim (Bool-cases (st.heap.index q == 0)) [
            | inl z ↦ inl (ground arith)
            | inr z ↦
                let (n, i, c) =
                  root_least (object_cmp st) st.timer_when (object_cmp_key st) page tree st.heap q
                    heap (ground arith) in
                let c' = sym (object_cmp_key st q (root st.heap)) ∙ c in inr (ground arith)
          ],
        )
  ]

  -- A turn of exp_timer of cache_expire.c: where each object is in the heap and once on its own LRU list
  -- or on neither, and the heap has fewer than 2^32 - 2^17 places, the turn fails no assertion and leaves
  -- that so. It finds nothing only where no object is in the heap; goes to sleep early only where the
  -- times of all in it are later than the turn's; waits for a busy object or a held list only with the
  -- state as it was; and what it takes off is due, not busy, no later than any other, and the only one
  -- to leave the heap.
  pub timer_turn-IsTurn :
      (lock : Bool) (st : Store) (t now : ℕ)
      → IsStore getlru page tree st
      → st.heap.next + 2 * row_width < unsigned_range
      → (what : Timed) × (t' : ℕ) × (st' : Store) × (timer_turn getlru lock st t now
          ≡ some (what, t', st'))
        × ((t' ≡ t) ⊎ (t' ≡ now))
        × IsStore getlru page tree st'
        × IsTurn lock st t' st' what
  unfolding timer_turn is_timed
  timer_turn-IsTurn lock st t now is small = elim (root_cases st is) [
    | inl (z, none_in) ↦ (nothing, t, st, rw z refl, inl refl, is, (refl, none_in))
    | inr (n, m, least) ↦
        let oc = root st.heap in
        let z : (root st.heap == 0) ≡ false = ground arith in
        let t' = if ltb t (st.timer_when oc) then now else t in
        let time : (t' ≡ t) ⊎ (t' ≡ now) = ground arith in
        elim (Bool-cases (ltb t' (st.timer_when oc))) [
          | inl later ↦ (
            early,
            t',
            st,
            rw (z, later) refl,
            time,
            is,
            (refl, λ q. let l = least q in ground arith),
          )
          | inr due ↦ elim (Bool-cases (st.busy oc)) [
            | inl b ↦ (wait_busy, t', st, rw (z, due, b) refl, time, is, (refl, b, ground arith))
            | inr b ↦ elim (Bool-cases lock) [
              | inr f ↦
                  (wait_lru, t', st, rw (z, due, b, f) refl, time, is, (refl, f, ground arith))
              | inl f ↦
                  let (st', e, is', members, same) =
                    take_off_lem getlru page tree st oc is m small in
                  let w : (st.heap.index oc == 0) ≡ false = ground arith in
                  (
                    expired oc,
                    t',
                    record st' { n_expired = st'.n_expired + 1 },
                    rw (z, due, b, f, w, e) refl,
                    time,
                    is',
                    (ground arith, b, least, m, members),
                  )
            ]
          ]
        ]
  ]
