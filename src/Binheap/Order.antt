-- ===== src/Binheap/Order.antt =====
-- The order of the heap of lib/libvarnish/binary_heap.c while one element is out of its place. `k u`
-- is the key at index u, `n` is the first index not in use, and `up` gives the parent.
use pkg_varnish.Prelude.{ℕ, zero, suc, ◌+◌, ◌≤◌, ◌<◌, ◌≡◌, ◌≢◌, inl, inr, arith, ◌==◌, Bool-cases}

module _ (up : ℕ → ℕ) (up_lt : (u : ℕ) → 2 ≤ u → (1 ≤ up u) × (up u < u)) where
  abbrev pub Ordered : (ℕ → ℕ) → ℕ → Type 0
  Ordered k n = (w : ℕ) → 2 ≤ w → w < n → k (up w) ≤ k w

  -- All is in order but for the element at `u`.
  abbrev pub Around : (ℕ → ℕ) → ℕ → ℕ → Type 0
  Around k n u =
      ((w : ℕ) → 2 ≤ w → w < n → w ≢ u → up w ≢ u → k (up w) ≤ k w)
      × ((w : ℕ) → 2 ≤ u → 2 ≤ w → w < n → up w ≡ u → k (up u) ≤ k w)

  -- It may be less than its parent.
  abbrev pub AboveOnly : (ℕ → ℕ) → ℕ → ℕ → Type 0
  AboveOnly k n u = Around k n u × ((w : ℕ) → 2 ≤ w → w < n → up w ≡ u → k u ≤ k w)

  -- It may be greater than a child.
  abbrev pub BelowOnly : (ℕ → ℕ) → ℕ → ℕ → Type 0
  BelowOnly k n u = Around k n u × (2 ≤ u → k (up u) ≤ k u)

  abbrev pub IsExchange : (ℕ → ℕ) → (ℕ → ℕ) → ℕ → ℕ → Type 0
  IsExchange k k' u v = (k' u ≡ k v) × (k' v ≡ k u) × ((w : ℕ) → w ≢ u → w ≢ v → k' w ≡ k w)

  module _ (k k' : ℕ → ℕ) (n u : ℕ) where
    pub exchange_up :
        2 ≤ u
        → u < n
        → k u < k (up u)
        → Around k n u
        → IsExchange k k' u (up u)
        → AboveOnly k' n (up u)
    exchange_up h l lt (edge, over) (e, e', same) = (
      (
        λ w hw lw n1 n2. ground (arith, edge w, over w, same w, same (up w), up_lt w, up_lt u),
        λ w hv hw lw q. ground (
          arith,
          edge w,
          edge (up u),
          over w,
          same w,
          same (up (up u)),
          up_lt w,
          up_lt u,
          up_lt (up u),
        ),
      ),
      λ w hw lw q. ground (arith, edge w, over w, same w, same (up w), up_lt w, up_lt u),
    )

    pub exchange_down :
        (v : ℕ)
        → 2 ≤ v
        → v < n
        → up v ≡ u
        → k v ≤ k u
        → ((w : ℕ) → 2 ≤ w → w < n → up w ≡ u → k v ≤ k w)
        → BelowOnly k n u
        → IsExchange k k' u v
        → BelowOnly k' n v
    exchange_down v h l p le least ((edge, over), above) (e, e', same) = (
      (
        λ w hw lw n1 n2.
            ground (arith, edge w, over v, least w, same w, same (up w), up_lt w, up_lt v),
        λ w hv hw lw q. ground (arith, edge w, same w, same (up v), same (up w), up_lt w, up_lt v),
      ),
      λ _. ground (arith, up_lt v, above),
    )

    -- One element changes.
    pub replace_Around :
        (m : ℕ)
        → m ≤ n
        → Ordered k n
        → ((w : ℕ) → 1 ≤ w → w < m → w ≢ u → k' w ≡ k w)
        → Around k' m u
    replace_Around m le o same = (
      λ w hw lw n1 n2. ground (arith, o w, same w, same (up w), up_lt w),
      λ w hu hw lw q. ground (arith, o w, o u, same w, same (up u), up_lt w, up_lt u),
    )

    pub append_AboveOnly : Ordered k n → ((w : ℕ) → w < n → k' w ≡ k w) → AboveOnly k' (n + 1) n
    append_AboveOnly o same = (
      (
        λ w hw lw n1 n2. ground (arith, o w, same w, same (up w), up_lt w),
        λ w hu hw lw q. ground (arith, up_lt w),
      ),
      λ w hw lw q. ground (arith, up_lt w),
    )

  module _ (k : ℕ → ℕ) (n u : ℕ) where
    pub above_Ordered : AboveOnly k n u → (2 ≤ u → k (up u) ≤ k u) → Ordered k n
    above_Ordered ((edge, over), below) h w hw lw = ground (arith, edge w, below w, h)

    pub below_Ordered :
        BelowOnly k n u → ((w : ℕ) → 2 ≤ w → w < n → up w ≡ u → k u ≤ k w) → Ordered k n
    below_Ordered ((edge, over), h) below w hw lw = ground (arith, edge w, below w, h)

    pub Ordered-BelowOnly : u < n → Ordered k n → BelowOnly k n u
    Ordered-BelowOnly l o = (
      (λ w hw lw n1 n2. o w hw lw, λ w hu hw lw q. ground (arith, o w, o u, up_lt u)),
      λ h. o u h l,
    )

  -- The first is the least.
  pub Ordered-first : (k : ℕ → ℕ) (n : ℕ) → Ordered k n → (u : ℕ) → 1 ≤ u → u < n → k 1 ≤ k u
  Ordered-first k n o u h l = climb u u h l (omega arith)
    where
      climb : (fuel u : ℕ) → 1 ≤ u → u < n → u ≤ fuel → k 1 ≤ k u
      climb zero u h l f = omega arith
      climb (suc fuel) u h l f = elim (Bool-cases (u == 1)) [
        | inl e ↦ ground arith
        | inr e ↦
            let hu : 2 ≤ u = ground arith in
            let (p, q) = up_lt u hu in
            omega (arith, o u hu l, climb fuel (up u) p (omega arith) (omega arith))
      ]
