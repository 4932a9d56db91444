-- ===== src/Binheap/Steps.antt =====
-- One turn of the loops of lib/libvarnish/binary_heap.c.
use pkg_varnish.Prelude.{
  ℕ, suc, ◌-◌, ◌≤◌, ◌<◌, ◌≡◌, refl, ◌⊎◌, inl, inr, Bool, true, false, not, ◌&&◌, some, arith, ltb,
  leb, ◌==◌, if◌then◌else◌, Bool-cases,
}
use pkg_varnish.Binheap.{
  unsigned_range, Binheap, parent, child, swap, trickleup_loop, lesser_child, trickledown_loop,
}
use pkg_varnish.Binheap.Exchange.{IsConsistent, exchanged, filled, swap_lem}

abbrev pub keys : (ℕ → ℕ) → Binheap → ℕ → ℕ
keys key bh u = key (bh.cells u)

abbrev pub InUse : Binheap → ℕ → Type 0
InUse bh u = (1 ≤ u) × (u < bh.next)

abbrev pub first : Binheap → ℕ → ℕ
first bh u = (child bh.page_size u).0

abbrev pub second : Binheap → ℕ → ℕ
second bh u = (child bh.page_size u).1

module _ (cmp : ℕ → ℕ → Bool) (key : ℕ → ℕ)
    (cmp_key : (a b : ℕ) → cmp a b ≡ ltb (key a) (key b)) where
  module _ (bh : Binheap) (ok : IsConsistent bh) (small : bh.next < unsigned_range) where
    pub up_turn :
        (fuel u v : ℕ)
        → InUse bh u
        → InUse bh v
        → 2 ≤ u
        → v < u
        → parent bh.page_size u ≡ v
        → trickleup_loop cmp (suc fuel) bh u ≡ (
            if ltb (keys key bh u) (keys key bh v)
            then trickleup_loop cmp fuel (exchanged bh u v) v
            else some (bh, u))
    unfolding trickleup_loop
    up_turn fuel u v (hu, lu) (hv, lv) h l e =
        let e1 : ltb 1 u ≡ true = ground arith in
        let e2 : (u == unsigned_range - 1) ≡ false = ground arith in
        let e3 : ltb v u ≡ true = ground arith in
        let s : swap bh u v ≡ some (exchanged bh u v) =
          swap_lem bh ok u v hu lu hv lv (omega arith) in
        rw
          (
            e,
            e1,
            e2,
            e3,
            filled bh ok u hu lu,
            filled bh ok v hv lv,
            s,
            cmp_key (bh.cells u) (bh.cells v),
          )
          refl

    -- The child that trickledown goes on with.
    abbrev pub IsLeast : ℕ → ℕ → ℕ → Type 0
    IsLeast v1 v2 v =
        ((v ≡ v1) ⊎ (v ≡ v2))
        × (v < bh.next)
        × (keys key bh v ≤ keys key bh v1)
        × (v2 < bh.next → keys key bh v ≤ keys key bh v2)

    pub lesser_child_lem :
        (v1 v2 : ℕ)
        → InUse bh v1
        → v1 ≤ v2
        → (v : ℕ) × (lesser_child cmp bh v1 v2 ≡ some v) × IsLeast v1 v2 v
    unfolding lesser_child
    lesser_child_lem v1 v2 (h1, l1) le = elim (Bool-cases (not (v1 == v2) && ltb v2 bh.next)) [
      | inl e ↦
          let h2 : 1 ≤ v2 = omega arith in
          let l2 : v2 < bh.next = ground arith in
          let n : (bh.cells v2 == 0) ≡ false = let (m, i) = ok.0 v2 h2 l2 in ground arith in
          rw (e, n, cmp_key (bh.cells v2) (bh.cells v1)) (lesser v1 v2 l1 l2)
      | inr e ↦ rw e (v1, refl, (inl refl, l1, omega arith, λ l. ground arith))
    ]
      where
        lesser :
            (v1 v2 : ℕ)
            → v1 < bh.next
            → v2 < bh.next
            → (v : ℕ) × (some (if ltb (keys key bh v2) (keys key bh v1) then v2 else v1) ≡ some v)
              × IsLeast v1 v2 v
        lesser v1 v2 l1 l2 = elim (Bool-cases (ltb (keys key bh v2) (keys key bh v1))) [
          | inl e ↦ rw e (v2, refl, (inr refl, l2, ground arith, λ _. omega arith))
          | inr e ↦ rw e (v1, refl, (inl refl, l1, omega arith, λ _. ground arith))
        ]

    pub down_end :
        (fuel u : ℕ)
        → InUse bh u
        → u < (first bh u)
        → (first bh u) ≤ (second bh u)
        → bh.next ≤ (first bh u)
        → trickledown_loop cmp (suc fuel) bh u ≡ some (bh, u)
    unfolding trickledown_loop
    down_end fuel u (hu, lu) l le n =
        let e1 : (ltb 0 (first bh u) && ltb 0 (second bh u) && leb (first bh u) (second bh u))
            ≡ true =
          ground arith in
        let e2 : leb bh.next (first bh u) ≡ true = ground arith in
        rw (filled bh ok u hu lu, e1, e2) refl

    pub down_turn :
        (fuel u : ℕ)
        → InUse bh u
        → u < (first bh u)
        → (first bh u) ≤ (second bh u)
        → (first bh u) < bh.next
        → (v : ℕ) × (trickledown_loop cmp (suc fuel) bh u ≡ (
            if ltb (keys key bh u) (keys key bh v)
            then some (bh, u)
            else trickledown_loop cmp fuel (exchanged bh u v) v))
          × IsLeast (first bh u) (second bh u) v
    unfolding trickledown_loop
    down_turn fuel u (hu, lu) l le n =
        let e1 : (ltb 0 (first bh u) && ltb 0 (second bh u) && leb (first bh u) (second bh u))
            ≡ true =
          ground arith in
        let e2 : leb bh.next (first bh u) ≡ false = ground arith in
        let h1 : 1 ≤ (first bh u) = omega arith in
        let e3 : (bh.cells (first bh u) == 0) ≡ false =
          let (m, i) = ok.0 (first bh u) h1 n in ground arith in
        let (v, e, is) = lesser_child_lem (first bh u) (second bh u) (h1, n) le in
        let (w, lv, a, b) = is in
        let hv : u < v = ground arith in
        let s : swap bh u v ≡ some (exchanged bh u v) =
          swap_lem bh ok u v hu lu (omega arith) lv (omega arith) in
        (
          v,
          rw
              (
                filled bh ok u hu lu,
                e1,
                e2,
                e3,
                e,
                filled bh ok v (omega arith) lv,
                s,
                cmp_key (bh.cells u) (bh.cells v),
              )
              refl,
          is,
        )
