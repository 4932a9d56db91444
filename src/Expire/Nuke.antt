-- ===== src/Expire/Nuke.antt =====
-- EXP_NukeOne of bin/varnishd/cache_expire.c.
use pkg_varnish.Prelude.{
  ℕ, ◌+◌, ◌*◌, ◌≤◌, ◌<◌, ◌≡◌, refl, sym, ap, ◌∙◌, ◌≢◌, ◌↔◌, ◌⊎◌, inl, inr, true, false, not, ◌&&◌,
  Option, none, some, List, [], ◌∷◌, arith, ◌==◌, Bool-cases,
}
use pkg_varnish.Prelude.Tailq.{count}
use pkg_varnish.Binheap.{unsigned_range, row_width}
use pkg_varnish.Binheap.Pages.{IsTree}
use pkg_varnish.Binheap.Operations.{IsMember}
use pkg_varnish.Expire.Store.{Store, is_timed, take_off, unused, nuke, nuke_one}
use pkg_varnish.Expire.Listed.{IsStore, take_off_lem}

-- What EXP_NukeOne finds on a list.
abbrev pub IsUnused : Store → List ℕ → Option ℕ → Type 0
IsUnused st l none = (q : ℕ) → (count q l ≡ 0) ⊎ ((st.refcnt q ≢ 1) ⊎ (st.busy q ≡ true))
IsUnused st l (some oc) = (st.refcnt oc ≡ 1) × (st.busy oc ≡ false) × (1 ≤ count oc l)

-- What leaves the heap with it.
abbrev pub Leaves : Store → Store → Option ℕ → Type 0
Leaves st st' none = st' ≡ st
Leaves st st' (some oc) = (q : ℕ) → IsMember st'.heap q ↔ (IsMember st.heap q × (q ≢ oc))

module _ (getlru : ℕ → ℕ) (page : ℕ) (tree : IsTree page) where
  unused_lem :
      (st : Store) (l : List ℕ)
      → ((q : ℕ) → (count q l ≡ 0) ⊎ IsMember st.heap q)
      → (found : Option ℕ) × (unused st l ≡ some found) × IsUnused st l found
  unfolding unused is_timed count
  unused_lem st [] m = (none, refl, λ q. inl refl)
  unused_lem st (o ∷ os) m =
      let z : (st.heap.index o == 0) ≡ false = let m' = m o in ground arith in
      let (found, e, is) = unused_lem st os (λ q. let m' = m q in ground arith) in
      elim (Bool-cases (st.refcnt o == 1 && not (st.busy o))) [
        | inl u ↦ (some o, rw (z, u) refl, (ground arith, ground arith, ground arith))
        | inr u ↦ (found, rw (z, u) e, further found is u)
      ]
    where
      further :
          (found : Option ℕ)
          → IsUnused st os found
          → (st.refcnt o == 1 && not (st.busy o)) ≡ false
          → IsUnused st (o ∷ os) found
      further none is u = λ q. let i = is q in ground arith
      further (some oc) (r, b, c) u = (r, b, omega arith)

  -- EXP_NukeOne of cache_expire.c: where each object is in the heap and once on its own LRU list or on
  -- neither, and the heap has fewer than 2^32 - 2^17 places, no assertion fails and that stays so. The
  -- object taken was on the list, has one reference and is not busy, and is the only one to leave the
  -- heap; where none is taken, each object on the list has other references or is busy, and nothing
  -- changes.
  pub nuke_one-IsUnused :
      (st : Store) (l : ℕ)
      → IsStore getlru page tree st
      → st.heap.next + 2 * row_width < unsigned_range
      → (found : Option ℕ) × (st' : Store) × (nuke_one st l ≡ some (found, st'))
        × IsStore getlru page tree st'
        × IsUnused st (st.lru l) found
        × Leaves st st' found
  unfolding nuke_one nuke count
  nuke_one-IsUnused st l is small =
      let (found, e, u) = unused_lem st (st.lru l) (λ q. let k = is.1 q l in ground arith) in
      rw e (took found u)
    where
      took :
          (found : Option ℕ)
          → IsUnused st (st.lru l) found
          → (found' : Option ℕ) × (st' : Store) × (nuke st l found ≡ some (found', st'))
            × IsStore getlru page tree st'
            × IsUnused st (st.lru l) found'
            × Leaves st st' found'
      took none u = (none, st, refl, is, u, refl)
      took (some oc) (r, b, c) =
          let k = is.1 oc l in
          let own : getlru oc ≡ l = ground arith in
          let m : IsMember st.heap oc = ground arith in
          let (st', e, is', members, same) = take_off_lem getlru page tree st oc is m small in
          let e' : take_off st l oc ≡ some st' = ap (λ k. take_off st k oc) (sym own) ∙ e in
          (
            some oc,
            record st' { n_lru_nuked = st'.n_lru_nuked + 1 },
            rw e' refl,
            is',
            (r, b, c),
            members,
          )
