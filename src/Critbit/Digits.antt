-- ===== src/Critbit/Digits.antt =====
-- hcb_bits in bin/varnishd/hash_critbit.c: the bits that two bytes have in common.
use pkg_varnish.Prelude.{
  ℕ, zero, suc, ◌+◌, ◌-◌, ◌*◌, ◌/◌, ◌%◌, ◌^◌, ◌≤◌, ◌<◌, ◌≡◌, refl, sym, ap, ◌∙◌, ◌⊎◌, inl, inr,
  Bool, true, ◌&&◌, ◌||◌, arith, ltb, leb, ◌==◌, Bool-cases,
}
use pkg_varnish.Critbit.{byte_at, xor, hcb_bittbl}

-- Bit `i` of the difference.
abbrev pub differ : ℕ → ℕ → ℕ → ℕ
differ x y i = (x / 2 ^ i + y / 2 ^ i) % 2

parity : (a : ℕ) → (a % 2 ≡ 0) ⊎ (a % 2 ≡ 1)
parity a = omega arith

same_or_less : (i n : ℕ) → i < suc n → (i ≡ n) ⊎ (i < n)
same_or_less i n h = omega arith

pow_le : (k n : ℕ) → k ≤ n → 2 ^ k ≤ 2 ^ n
pow_le k zero h = let z : k ≡ 0 = omega arith in omega (arith, ap (λ m. 2 ^ m) z)
pow_le k (suc n) h = elim (same_or_less k (suc n) (omega arith)) [
  | inl e ↦ omega (arith, ap (λ m. 2 ^ m) e)
  | inr e ↦ omega (arith, pow_le k n (omega arith))
]

pub xor_lt : (n x y : ℕ) → xor n x y < 2 ^ n
unfolding xor
xor_lt zero x y = omega arith
xor_lt (suc n) x y = elim (parity (x / 2 ^ n + y / 2 ^ n)) [
  | inl e ↦ rw e (omega (arith, xor_lt n x y))
  | inr e ↦ rw e (omega (arith, xor_lt n x y))
]

-- Above the highest bit of the difference nothing differs.
pub xor-above : (n x y k i : ℕ) → xor n x y < 2 ^ k → k ≤ i → i < n → differ x y i ≡ 0
unfolding xor
xor-above zero x y k i h ki lt = absurd (omega arith)
xor-above (suc n) x y k i h ki lt = elim (parity (x / 2 ^ n + y / 2 ^ n)) [
  | inl e ↦
      let rest : xor n x y < 2 ^ k = omega (arith, ap (λ d. d * 2 ^ n + xor n x y) e) in
      elim (same_or_less i n lt) [
        | inl s ↦ ap (differ x y) s ∙ e
        | inr s ↦ xor-above n x y k i rest ki s
      ]
  | inr e ↦ absurd (omega (arith, ap (λ d. d * 2 ^ n + xor n x y) e, pow_le k n (omega arith)))
]

-- At it they differ.
pub xor-at : (n x y k : ℕ) → 2 ^ k ≤ xor n x y → xor n x y < 2 ^ suc k → k < n → differ x y k ≡ 1
unfolding xor
xor-at zero x y k lo hi lt = absurd (omega arith)
xor-at (suc n) x y k lo hi lt = elim (same_or_less k n lt) [
  | inl s ↦ elim (parity (x / 2 ^ n + y / 2 ^ n)) [
    | inl e ↦
        absurd (omega (arith, ap (λ d. d * 2 ^ n + xor n x y) e, xor_lt n x y, ap (λ m. 2 ^ m) s))
    | inr e ↦ ap (differ x y) s ∙ e
  ]
  | inr s ↦
      let z = xor-above (suc n) x y (suc k) n hi s (omega arith) in
      let same : xor (suc n) x y ≡ xor n x y = ap (λ d. d * 2 ^ n + xor n x y) z ∙ omega arith in
      xor-at n x y k (omega (arith, same)) (omega (arith, same)) s
]

-- The entry for `z` counts its leading zeros.
pub is_entry : ℕ → Bool
is_entry z =
    let r = byte_at hcb_bittbl z in
    leb r 8 && (ltb z (2 ^ (8 - r)) && ((z == 0) || (leb (2 ^ (7 - r)) z && ltb r 8)))

unfoldable pub all_below : (ℕ → Bool) → ℕ → Bool
all_below p zero = true
all_below p (suc n) = p n && all_below p n

pub entries : all_below is_entry 256 ≡ true
unfolding all_below is_entry hcb_bittbl byte_at
entries = refl

pub all_below-at : (p : ℕ → Bool) (n i : ℕ) → all_below p n ≡ true → i < n → p i ≡ true
unfolding all_below
all_below-at p zero i h lt = absurd (omega arith)
all_below-at p (suc n) i h lt = elim (Bool-cases (p n)) [
  | inl t ↦ elim (same_or_less i n lt) [
    | inl s ↦ ap p s ∙ t
    | inr s ↦ all_below-at p n i (ap (λ b. b && all_below p n) (sym t) ∙ h) s
  ]
  | inr f ↦ cc
]

-- What an entry of the table says.
pub is_entry-cases :
    (z : ℕ)
    → z < 256
    → let r = byte_at hcb_bittbl z in
      (r ≤ 8) × (z < 2 ^ (8 - r)) × ((z ≡ 0) ⊎ ((2 ^ (7 - r) ≤ z) × (r < 8)))
unfolding is_entry
is_entry-cases z h =
    let e = all_below-at is_entry 256 z entries h in
    by_tests (byte_at hcb_bittbl z) (2 ^ (8 - byte_at hcb_bittbl z))
      (2 ^ (7 - byte_at hcb_bittbl z)) e
  where
    by_tests :
        (r hi lo : ℕ)
        → (leb r 8 && (ltb z hi && ((z == 0) || (leb lo z && ltb r 8)))) ≡ true
        → (r ≤ 8) × (z < hi) × ((z ≡ 0) ⊎ ((lo ≤ z) × (r < 8)))
    by_tests r hi lo e = ground arith
