-- ===== src/Expire/Store.antt =====
-- The heap and the LRU lists of bin/varnishd/cache_expire.c.
-- An object is the number of its objcore. Its timer_idx is the heap's `index`, its other fields are
-- functions of it. `lru` holds the list of each LRU, and `getlru` is oc_getlru. Times are in
-- microseconds. A failed assertion is `none`, and the locks but for the attempts are left out.
use pkg_varnish.Prelude.{
  ℕ, ◌+◌, Bool, true, false, not, ◌&&◌, ◌||◌, Option, none, some, List, [], ◌∷◌, ◌++◌, ltb, ◌==◌,
  if◌then◌else◌, ◌>>=◌, ◌>>◌, assert,
}
use pkg_varnish.Prelude.Cells.{write}
use pkg_varnish.Prelude.Tailq.{remove}
use pkg_varnish.Binheap.{Binheap, root}
use pkg_varnish.Binheap
use pkg_varnish.Expire.{Exp, update_object_when}

pub record Store : Type 0 where
  pub heap : Binheap
  pub lru : ℕ → List ℕ
  pub timer_when : ℕ → ℕ
  pub last_lru : ℕ → ℕ
  pub refcnt : ℕ → ℕ
  pub busy : ℕ → Bool
  pub n_lru_moved : ℕ
  pub n_expired : ℕ
  pub n_lru_nuked : ℕ

-- object_cmp.
unfoldable pub object_cmp : Store → ℕ → ℕ → Bool
object_cmp st a b = ltb (st.timer_when a) (st.timer_when b)

unfoldable pub is_timed : Store → ℕ → Bool
is_timed st oc = not (st.heap.index oc == 0)

-- What a turn of exp_timer comes to.
pub data Timed : Type 0 where
  nothing : Timed
  early : Timed
  wait_busy : Timed
  wait_lru : Timed
  expired : ℕ → Timed

-- Out of the heap and of the list `l`.
unfoldable pub take_off : Store → ℕ → ℕ → Option Store
take_off st l oc = Binheap.delete (object_cmp st) st.heap (st.heap.index oc) >>= λ h.
    assert (h.index oc == 0)
    >> some record st { heap = h; lru = write st.lru l (remove oc (st.lru l)) }

-- The first object of the list that nobody uses.
unfoldable pub unused : Store → List ℕ → Option (Option ℕ)
unused st [] = some none
unused st (oc ∷ ocs) =
    assert (is_timed st oc)
    >> (if st.refcnt oc == 1 && not (st.busy oc) then some (some oc) else unused st ocs)

unfoldable pub nuke : Store → ℕ → Option ℕ → Option (Option ℕ × Store)
nuke st l none = some (none, st)
nuke st l (some oc) =
    take_off st l oc >>= λ st'. some (some oc, record st' { n_lru_nuked = st'.n_lru_nuked + 1 })

-- EXP_NukeOne of a list, up to giving up the reference: the object, where there is one.
unfoldable pub nuke_one : Store → ℕ → Option (Option ℕ × Store)
nuke_one st l = unused st (st.lru l) >>= nuke st l

module _ (getlru : ℕ → ℕ) where
  unfoldable pub insert : Bool → Store → ℕ → Option Store
  insert memory st oc =
      assert (not (is_timed st oc))
      >> (Binheap.insert (object_cmp st) memory st.heap oc >>= λ h.
          assert (not (h.index oc == 0))
          >> some record st {
            heap = h;
            lru = write st.lru (getlru oc) (st.lru (getlru oc) ++ oc ∷ []);
          })

  -- EXP_Inject.
  unfoldable pub inject : Bool → Store → ℕ → ℕ → Option Store
  inject memory st oc when = insert memory record st { timer_when = write st.timer_when oc when } oc

  -- EXP_Touch: `lock` is whether the list's lock was free.
  unfoldable pub touch : Bool → Store → Bool → ℕ → Store × Bool
  touch lock st dont_move oc = if dont_move || not lock then (st, false) else (
    (if is_timed st oc
        then record st {
          lru = write st.lru (getlru oc) (remove oc (st.lru (getlru oc)) ++ oc ∷ []);
          n_lru_moved = st.n_lru_moved + 1;
        }
        else st),
    true,
  )

  module _ (default_grace default_keep : ℕ) where
    -- EXP_Insert, up to the metadata.
    unfoldable pub insert_object : Bool → Store → ℕ → Exp → Option Store
    insert_object memory st oc exp =
        assert (st.busy oc)
        >> (assert (ltb 0 (st.refcnt oc) && not (exp.entered == 0))
            >> insert memory
                record st {
                  refcnt = write st.refcnt oc (st.refcnt oc + 1);
                  last_lru = write st.last_lru oc exp.entered;
                  timer_when =
                      write st.timer_when oc
                        (update_object_when default_grace default_keep (st.timer_when oc) exp).1;
                }
                oc)

    -- EXP_Rearm of an object in the cache.
    unfoldable pub rearm : Store → ℕ → Exp → Option Store
    rearm st oc exp =
        let (changed, when) =
          update_object_when default_grace default_keep (st.timer_when oc) exp in
        let st' : Store = record st { timer_when = write st.timer_when oc when } in
        if is_timed st oc && changed
        then (Binheap.reorder (object_cmp st') st.heap (st.heap.index oc) >>= λ h.
            assert (not (h.index oc == 0)) >> some record st' { heap = h })
        else some st

  -- A turn of exp_timer, up to giving up the reference: `t` is its time, `now` what TIM_real gives.
  unfoldable pub timer_turn : Bool → Store → ℕ → ℕ → Option (Timed × ℕ × Store)
  timer_turn lock st t now =
      let oc = root st.heap in
      let t' = if ltb t (st.timer_when oc) then now else t in
      if oc == 0
      then some (nothing, t, st)
      else (if ltb t' (st.timer_when oc)
          then some (early, t', st)
          else (if st.busy oc
              then some (wait_busy, t', st)
              else (if not lock
                  then some (wait_lru, t', st)
                  else (assert (is_timed st oc)
                      >> (take_off st (getlru oc) oc >>= λ st'.
                          some (expired oc, t', record st' { n_expired = st'.n_expired + 1 }))))))
