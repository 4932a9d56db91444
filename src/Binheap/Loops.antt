-- ===== src/Binheap/Loops.antt =====
-- The loops of lib/libvarnish/binary_heap.c: binheap_trickleup and binheap_trickledown.
use pkg_varnish.Prelude.{
  ℕ, zero, suc, ◌+◌, ◌≤◌, ◌<◌, ◌≡◌, refl, sym, ap, ◌≢◌, ◌⊎◌, inl, inr, Bool, Option, some, arith,
  ltb, leb, Bool-cases,
}
use pkg_varnish.Binheap.{unsigned_range, Binheap, parent, child, trickleup_loop, trickledown_loop}
use pkg_varnish.Binheap.Pages.{IsTree}
use pkg_varnish.Binheap.Order.{
  Ordered, Around, AboveOnly, BelowOnly, IsExchange, exchange_up, exchange_down, above_Ordered,
  below_Ordered, Ordered-BelowOnly,
}
use pkg_varnish.Binheap.Exchange.{
  IsConsistent, IsMove, IsMove-refl, IsMove-trans, exchanged, exchanged_u, exchanged_v,
  exchanged_else, exchanged-IsConsistent, exchanged-IsMove,
}
use pkg_varnish.Binheap.Steps.{keys, InUse, first, second, up_turn, down_end, down_turn}

-- A loop ends, with the same pointers in other places, and `Q` holds of the heap and the index.
abbrev pub Ends : (Binheap → ℕ → Type 0) → Binheap → Option (Binheap × ℕ) → Type 0
Ends Q bh o =
    (bh' : Binheap) × (u' : ℕ) × (o ≡ some (bh', u'))
    × IsConsistent bh'
    × IsMove bh bh'
    × InUse bh' u'
    × Q bh' u'

module _ (cmp : ℕ → ℕ → Bool) (key : ℕ → ℕ)
    (cmp_key : (a b : ℕ) → cmp a b ≡ ltb (key a) (key b)) where
  module _ (page : ℕ) (tree : IsTree page) where
    abbrev pub IsOrdered : Binheap → ℕ → Type 0
    IsOrdered bh _ = Ordered (parent page) tree.0 (keys key bh) bh.next

    abbrev pub IsAboveOnly : Binheap → ℕ → Type 0
    IsAboveOnly bh u = AboveOnly (parent page) tree.0 (keys key bh) bh.next u

    abbrev pub IsBelowOnly : Binheap → ℕ → Type 0
    IsBelowOnly bh u = BelowOnly (parent page) tree.0 (keys key bh) bh.next u

    module _ (bh : Binheap) (ok : IsConsistent bh) (u v : ℕ) (iu : InUse bh u) (iv : InUse bh v)
        (ne : u ≢ v) where
      keys-IsExchange :
          IsExchange (parent page) tree.0 (keys key bh) (keys key (exchanged bh u v)) u v
      keys-IsExchange = (
        ap key (exchanged_u bh ok u v iu.0 iu.1 iv.0 iv.1 ne),
        ap key (exchanged_v bh ok u v iu.0 iu.1 iv.0 iv.1 ne),
        λ w a b. ap key (exchanged_else bh ok u v iu.0 iu.1 iv.0 iv.1 ne w a b),
      )

      -- What a loop does after an exchange, it does with it.
      exchange_first :
          (Q : Binheap → ℕ → Type 0) (o : Option (Binheap × ℕ))
          → Ends Q (exchanged bh u v) o
          → Ends Q bh o
      exchange_first Q o (bh', u', e, ok', m, iu', q) = (
        bh',
        u',
        e,
        ok',
        IsMove-trans bh (exchanged bh u v) bh' (exchanged-IsMove bh ok u v iu.0 iu.1 iv.0 iv.1 ne)
            m,
        iu',
        q,
      )

    -- What the loops are run on.
    abbrev pub IsGood : Binheap → ℕ → Type 0
    IsGood bh u = IsConsistent bh × (bh.page_size ≡ page) × (bh.next < unsigned_range) × InUse bh u

    stop :
        (Q : Binheap → ℕ → Type 0) (bh : Binheap) (u : ℕ)
        → IsGood bh u
        → Q bh u
        → Ends Q bh (some (bh, u))
    stop Q bh u (ok, e, small, iu) q = (bh, u, refl, ok, IsMove-refl bh, iu, q)

    module _ (bh : Binheap) (u : ℕ) (good : IsGood bh u) where
      exchanged-IsGood : (v : ℕ) → InUse bh v → u ≢ v → IsGood (exchanged bh u v) v
      exchanged-IsGood v iv ne =
          let (ok, e, small, iu) = good in
          (exchanged-IsConsistent bh ok u v iu.0 iu.1 iv.0 iv.1 ne, e, small, iv)

      -- One turn of trickleup, where `Q` is to hold at the end.
      up_step :
          (Q : Binheap → ℕ → Type 0) (fuel : ℕ)
          → Around (parent page) tree.0 (keys key bh) bh.next u
          → (IsBelowOnly bh u → Q bh u)
          → ((v : ℕ)
              → 1 ≤ v
              → v < u
              → IsGood (exchanged bh u v) v
              → IsAboveOnly (exchanged bh u v) v
              → Ends Q (exchanged bh u v) (trickleup_loop cmp fuel (exchanged bh u v) v))
          → Ends Q bh (trickleup_loop cmp (suc fuel) bh u)
      up_step Q fuel a here rest = elim (Bool-cases (ltb 1 u)) [
        | inl t ↦
            let (ok, e, small, iu) = good in
            let h : 2 ≤ u = ground arith in
            let (hv, lv) = tree.0 u h in
            let iv : InUse bh (parent page u) = (hv, omega arith) in
            let ne : u ≢ parent page u = omega arith in
            let turn =
              up_turn cmp key cmp_key bh ok small fuel u (parent page u) iu iv h lv (rw e refl) in
            elim (Bool-cases (ltb (keys key bh u) (keys key bh (parent page u)))) [
              | inl c ↦
                  let o =
                    exchange_up (parent page) tree.0 (keys key bh)
                      (keys key (exchanged bh u (parent page u))) bh.next u h iu.1 (ground arith) a
                      (keys-IsExchange bh ok u (parent page u) iu iv ne) in
                  rw (turn, c)
                    (exchange_first bh ok u (parent page u) iu iv ne Q
                      (trickleup_loop cmp fuel (exchanged bh u (parent page u)) (parent page u))
                      (rest (parent page u) hv lv (exchanged-IsGood (parent page u) iv ne) o))
              | inr c ↦ rw (turn, c) (stop Q bh u good (here (a, λ _. ground arith)))
            ]
        | inr t ↦ unfold trickleup_loop in rw t (stop Q bh u good (here (a, λ h. ground arith)))
      ]

    pub trickleup_loop-IsOrdered :
        (fuel : ℕ) (bh : Binheap) (u : ℕ)
        → IsGood bh u
        → u ≤ fuel
        → IsAboveOnly bh u
        → Ends IsOrdered bh (trickleup_loop cmp fuel bh u)
    trickleup_loop-IsOrdered zero bh u (ok, e, small, (hu, lu)) f a =
        let absurd : ⊥ = omega arith in elim absurd [ ]
    trickleup_loop-IsOrdered (suc fuel) bh u good f a =
        up_step bh u good IsOrdered fuel a.0
          (λ b. above_Ordered (parent page) tree.0 (keys key bh) bh.next u a b.1)
          (λ v hv lv g o. trickleup_loop-IsOrdered fuel (exchanged bh u v) v g (omega arith) o)

    -- trickleup on a heap that is in order but for the element at `u`.
    pub trickleup_loop-IsBelowOnly :
        (fuel : ℕ) (bh : Binheap) (u : ℕ)
        → IsGood bh u
        → u ≤ fuel
        → Around (parent page) tree.0 (keys key bh) bh.next u
        → Ends IsBelowOnly bh (trickleup_loop cmp (suc fuel) bh u)
    trickleup_loop-IsBelowOnly fuel bh u good f a =
        up_step bh u good IsBelowOnly fuel a (λ b. b)
          (λ v hv lv g o.
            in_order v (trickleup_loop-IsOrdered fuel (exchanged bh u v) v g (omega arith) o))
      where
        in_order :
            (v : ℕ)
            → Ends IsOrdered (exchanged bh u v) (trickleup_loop cmp fuel (exchanged bh u v) v)
            → Ends IsBelowOnly (exchanged bh u v) (trickleup_loop cmp fuel (exchanged bh u v) v)
        in_order v (bh', u', e, ok, m, iu, o) = (
          bh',
          u',
          e,
          ok,
          m,
          iu,
          Ordered-BelowOnly (parent page) tree.0 (keys key bh') bh'.next u' iu.1 o,
        )

    down_step :
        (fuel : ℕ) (bh : Binheap) (u : ℕ)
        → IsGood bh u
        → IsBelowOnly bh u
        → ((v : ℕ)
            → u < v
            → v < bh.next
            → IsGood (exchanged bh u v) v
            → IsBelowOnly (exchanged bh u v) v
            → Ends IsOrdered (exchanged bh u v) (trickledown_loop cmp fuel (exchanged bh u v) v))
        → Ends IsOrdered bh (trickledown_loop cmp (suc fuel) bh u)
    down_step fuel bh u good b rest =
        let (ok, e, small, iu) = good in
        let (l, le) : (u < first bh u) × (first bh u ≤ second bh u) =
          rw e (tree.1 u (iu.0, omega arith)) in
        let children : (w : ℕ)
            → 2 ≤ w
            → w < bh.next
            → parent page w ≡ u
            → (w ≡ first bh u) ⊎ (w ≡ second bh u) =
          λ w hw lw. rw e ((tree.2 u w (iu.0, omega arith) hw (omega arith, omega arith)).0) in
        elim (Bool-cases (leb bh.next (first bh u))) [
          | inl c ↦ rw (down_end cmp key cmp_key bh ok small fuel u iu l le (ground arith)) (
              stop IsOrdered bh u good (
                below_Ordered (parent page) tree.0 (keys key bh) bh.next u b
                  (λ w hw lw q. let q' = children w hw lw q in ground arith)))
          | inr c ↦
              let (v, turn, (is, lv, a1, a2)) =
                down_turn cmp key cmp_key bh ok small fuel u iu l le (ground arith) in
              let iv : InUse bh v = (ground arith, lv) in
              let ne : u ≢ v = ground arith in
              let is' : (v ≡ (child page u).0) ⊎ (v ≡ (child page u).1) = rw (sym e) is in
              let p : parent page v ≡ u =
                (tree.2 u v (iu.0, omega arith) (ground arith) (iv.0, omega arith)).1 is' in
              let least : (w : ℕ)
                  → 2 ≤ w
                  → w < bh.next
                  → parent page w ≡ u
                  → keys key bh v ≤ keys key bh w =
                λ w hw lw q. let q' = children w hw lw q in ground arith in
              elim (Bool-cases (ltb (keys key bh u) (keys key bh v))) [
                | inl t ↦
                    rw (turn, t)
                      (stop IsOrdered bh u good (
                        below_Ordered (parent page) tree.0 (keys key bh) bh.next u b
                          (λ w hw lw q. let q' = least w hw lw q in ground arith)))
                | inr t ↦
                    rw (turn, t)
                      (exchange_first bh ok u v iu iv ne IsOrdered
                        (trickledown_loop cmp fuel (exchanged bh u v) v)
                        (rest v (ground arith) lv (exchanged-IsGood bh u good v iv ne) (
                          exchange_down (parent page) tree.0 (keys key bh)
                            (keys key (exchanged bh u v)) bh.next u v (ground arith) lv p
                            (ground arith) least b (keys-IsExchange bh ok u v iu iv ne))))
              ]
        ]

    pub trickledown_loop-IsOrdered :
        (fuel : ℕ) (bh : Binheap) (u : ℕ)
        → IsGood bh u
        → bh.next ≤ u + fuel
        → IsBelowOnly bh u
        → Ends IsOrdered bh (trickledown_loop cmp fuel bh u)
    trickledown_loop-IsOrdered zero bh u (ok, e, small, (hu, lu)) f b =
        let absurd : ⊥ = omega arith in elim absurd [ ]
    trickledown_loop-IsOrdered (suc fuel) bh u good f b =
        down_step fuel bh u good b
          (λ v l lv g o. trickledown_loop-IsOrdered fuel (exchanged bh u v) v g (omega arith) o)
