-- ===== src/Critbit/Bits.antt =====
-- hcb_crit_bit in bin/varnishd/hash_critbit.c: the first bit in which two digests differ.
use pkg_varnish.Prelude.{
  ℕ, zero, suc, ◌+◌, ◌-◌, ◌*◌, ◌/◌, ◌%◌, ◌^◌, ◌≤◌, ◌<◌, ◌≡◌, refl, sym, ap, ◌∙◌, ◌≢◌, ◌⊎◌, inl, inr,
  Bool, true, false, not, ◌&&◌, some, List, [], ◌∷◌, arith, ltb, ◌==◌, ==_iff, Bool-cases, length,
}
use pkg_varnish.Critbit.{
  digest_len, Node, byte_at, xor, hcb_bits, has_bit, first_diff, crit_bit, side, eq_digest,
}
use pkg_varnish.Critbit.Digits.{
  differ, xor_lt, xor-above, xor-at, is_entry-cases, all_below, all_below-at,
}

-- Bit `c` of a digest, counted from the first byte's highest.
pub dbit : ℕ → List ℕ → Bool
unfolding has_bit byte_at
dbit c d = has_bit (byte_at d (c / 8)) (128 / 2 ^ (c % 8))

abbrev pub AllBytes : List ℕ → Type 0
AllBytes [] = Unit {0}
AllBytes (b ∷ bs) = (b < 256) × AllBytes bs

abbrev pub IsDigest : List ℕ → Type 0
IsDigest d = (length d ≡ digest_len) × AllBytes d

-- The byte and the mask are those of the critical bit.
abbrev pub IsNode : Node → Type 0
IsNode y = (y.ptr ≡ y.critbit / 8) × (y.bitmask ≡ 128 / 2 ^ (y.critbit % 8)) × (y.ptr < digest_len)

parities_agree : (a b : ℕ) → (a + b) % 2 ≡ 0 → not (a % 2 == 0) ≡ not (b % 2 == 0)
parities_agree a b h = ground arith

parities_differ : (a b : ℕ) → (a + b) % 2 ≡ 1 → not (a % 2 == 0) ≡ not (not (b % 2 == 0))
parities_differ a b h = ground arith

masks : all_below (λ j. 128 / 2 ^ j == 2 ^ (7 - j)) 8 ≡ true
unfolding all_below
masks = refl

mask_at : (j : ℕ) → j < 8 → 128 / 2 ^ j ≡ 2 ^ (7 - j)
mask_at j h =
    (==_iff (128 / 2 ^ j) (2 ^ (7 - j))).0
      (all_below-at (λ j. 128 / 2 ^ j == 2 ^ (7 - j)) 8 j masks h)

has_bit-agree :
    (x y j : ℕ) → j < 8 → differ x y (7 - j) ≡ 0 → has_bit x (128 / 2 ^ j) ≡ has_bit y (128 / 2 ^ j)
unfolding has_bit
has_bit-agree x y j h d = rw (mask_at j h) (parities_agree (x / 2 ^ (7 - j)) (y / 2 ^ (7 - j)) d)

has_bit-differ :
    (x y j : ℕ)
    → j < 8
    → differ x y (7 - j) ≡ 1
    → has_bit x (128 / 2 ^ j) ≡ not (has_bit y (128 / 2 ^ j))
unfolding has_bit
has_bit-differ x y j h d = rw (mask_at j h) (parities_differ (x / 2 ^ (7 - j)) (y / 2 ^ (7 - j)) d)

same_byte : (x y : ℕ) → x < 256 → y < 256 → ((i : ℕ) → i < 8 → differ x y i ≡ 0) → x ≡ y
same_byte x y hx hy d =
    let e7 : x / 128 ≡ y / 128 = omega (arith, d 7 (omega arith)) in
    let e6 : x / 64 ≡ y / 64 = omega (arith, e7, d 6 (omega arith)) in
    let e5 : x / 32 ≡ y / 32 = omega (arith, e6, d 5 (omega arith)) in
    let e4 : x / 16 ≡ y / 16 = omega (arith, e5, d 4 (omega arith)) in
    let e3 : x / 8 ≡ y / 8 = omega (arith, e4, d 3 (omega arith)) in
    let e2 : x / 4 ≡ y / 4 = omega (arith, e3, d 2 (omega arith)) in
    let e1 : x / 2 ≡ y / 2 = omega (arith, e2, d 1 (omega arith)) in
    omega (arith, e1, d 0 (omega arith))

-- hcb_bits counts the bits that two bytes have in common, from the highest.
abbrev Counts : ℕ → ℕ → ℕ → Type 0
Counts x y r =
    (r < 8)
    × ((j : ℕ) → j < r → has_bit x (128 / 2 ^ j) ≡ has_bit y (128 / 2 ^ j))
    × (has_bit x (128 / 2 ^ r) ≡ not (has_bit y (128 / 2 ^ r)))

hcb_bits-Counts : (x y : ℕ) → x < 256 → y < 256 → x ≢ y → Counts x y (hcb_bits x y)
unfolding hcb_bits
hcb_bits-Counts x y hx hy ne =
    let (r8, hi, lo) = is_entry-cases (xor 8 x y) (xor_lt 8 x y) in
    elim lo [
      | inl z ↦
          absurd
            (ne (same_byte x y hx hy (λ i h. xor-above 8 x y 0 i (omega arith) (omega arith) h)))
      | inr (least, r7) ↦ counted (hcb_bits x y) r7 hi least
    ]
  where
    counted : (r : ℕ) → r < 8 → xor 8 x y < 2 ^ (8 - r) → 2 ^ (7 - r) ≤ xor 8 x y → Counts x y r
    counted r r7 hi least =
        let e : 8 - r ≡ suc (7 - r) = omega arith in
        let hi' : xor 8 x y < 2 ^ suc (7 - r) = omega (arith, ap (λ m. 2 ^ m) e) in
        (
          r7,
          λ j h.
              has_bit-agree x y j (omega arith)
                (xor-above 8 x y (8 - r) (7 - j) hi (omega arith) (omega arith)),
          has_bit-differ x y r r7 (xor-at 8 x y (7 - r) least hi' (omega arith)),
        )

pub eq_digest-≡ : (d1 d2 : List ℕ) → eq_digest d1 d2 ≡ true → d1 ≡ d2
unfolding eq_digest
eq_digest-≡ [] [] e = refl
eq_digest-≡ [] (b ∷ bs) e = cc
eq_digest-≡ (a ∷ xs) [] e = cc
eq_digest-≡ (a ∷ xs) (b ∷ ys) e =
    let (same, rest) = both (a == b) (eq_digest xs ys) e in
    ap (λ h. h ∷ xs) ((==_iff a b).0 same) ∙ ap (λ t. b ∷ t) (eq_digest-≡ xs ys rest)
  where
    both : (p q : Bool) → (p && q) ≡ true → (p ≡ true) × (q ≡ true)
    both p q h = ground arith

pub eq_digest_refl : (d : List ℕ) → eq_digest d d ≡ true
unfolding eq_digest
eq_digest_refl [] = refl
eq_digest_refl (a ∷ d) = rw ((==_iff a a).1 refl) (eq_digest_refl d)

byte_at-lt : (d : List ℕ) (i : ℕ) → AllBytes d → byte_at d i < 256
unfolding byte_at
byte_at-lt [] i h = omega arith
byte_at-lt (b ∷ bs) zero (h, hs) = h
byte_at-lt (b ∷ bs) (suc i) (h, hs) = byte_at-lt bs i hs

-- The bytes before `u` are the same, and those at `u` are not.
abbrev Differ : List ℕ → List ℕ → ℕ → Type 0
Differ d1 d2 u =
    (u < length d1)
    × ((i : ℕ) → i < u → byte_at d1 i ≡ byte_at d2 i)
    × (byte_at d1 u ≢ byte_at d2 u)

first_diff-Differ :
    (d1 d2 : List ℕ)
    → length d1 ≡ length d2
    → eq_digest d2 d1 ≡ false
    → Differ d1 d2 (first_diff d1 d2)
unfolding first_diff eq_digest byte_at
first_diff-Differ [] [] n e = cc
first_diff-Differ [] (b ∷ ys) n e = absurd (omega arith)
first_diff-Differ (a ∷ xs) [] n e = absurd (omega arith)
first_diff-Differ (a ∷ xs) (b ∷ ys) n e = elim (Bool-cases (a == b)) [
  | inl h ↦
      let same : a ≡ b = (==_iff a b).0 h in
      let (lt, before, at) =
        first_diff-Differ xs ys (omega arith)
          (ap (λ t. t && eq_digest ys xs) (sym ((==_iff b a).1 (sym same))) ∙ e) in
      rw h (omega arith, same_before same before, at)
  | inr h ↦ rw h (omega arith, λ i l. absurd (omega arith), λ same. cc ((==_iff a b).1 same))
]
  where
    same_before :
        a ≡ b
        → ((i : ℕ) → i < first_diff xs ys → byte_at xs i ≡ byte_at ys i)
        → (i : ℕ) → i < suc (first_diff xs ys)
        → byte_at (a ∷ xs) i ≡ byte_at (b ∷ ys) i
    same_before same before zero l = same
    same_before same before (suc i) l = before i (omega arith)

pub side-dbit : (y : Node) (d : List ℕ) → IsNode y → side y d ≡ some (dbit y.critbit d)
unfolding side dbit
side-dbit y d (p, m, lt) =
    let within : ltb y.ptr digest_len ≡ true = ground arith in rw (within, p, m) refl

-- The node separates the digests: they agree in every bit before its critical bit, and differ there.
abbrev pub Separates : Node → List ℕ → List ℕ → Type 0
Separates y d1 d2 =
    IsNode y
    × ((c : ℕ) → c < y.critbit → dbit c d1 ≡ dbit c d2)
    × (dbit y.critbit d1 ≡ not (dbit y.critbit d2))

-- For two digests that differ hcb_crit_bit fails no assertion, and the node that it gives separates them:
-- they agree in every bit before its critical bit, and differ there.
pub crit_bit-Separates :
    (d1 d2 : List ℕ)
    → IsDigest d1
    → IsDigest d2
    → eq_digest d2 d1 ≡ false
    → (y : Node) × (crit_bit d1 d2 ≡ some y) × Separates y d1 d2
unfolding crit_bit dbit
crit_bit-Separates d1 d2 (n1, b1) (n2, b2) e =
    let u = first_diff d1 d2 in
    let (lt, before, at) = first_diff-Differ d1 d2 (omega arith) e in
    let within : ltb u digest_len ≡ true = ground arith in
    let counts =
      hcb_bits-Counts (byte_at d1 u) (byte_at d2 u) (byte_at-lt d1 u b1) (byte_at-lt d2 u b2) at in
    let r = hcb_bits (byte_at d1 u) (byte_at d2 u) in
    (
      record { critbit = u * 8 + r; ptr = u; bitmask = 128 / 2 ^ r },
      rw within refl,
      separates u r (omega arith) before counts,
    )
  where
    separates :
        (u r : ℕ)
        → u < 32
        → ((i : ℕ) → i < u → byte_at d1 i ≡ byte_at d2 i)
        → Counts (byte_at d1 u) (byte_at d2 u) r
        → Separates (record { critbit = u * 8 + r; ptr = u; bitmask = 128 / 2 ^ r }) d1 d2
    separates u r lt before (r8, agree, differs) =
        let byte : u ≡ (u * 8 + r) / 8 = omega arith in
        let bit : r ≡ (u * 8 + r) % 8 = omega arith in
        ((byte, ap (λ k. 128 / 2 ^ k) bit, lt), λ c l. agrees c (earlier c l), at_node byte bit)
      where
        earlier : (c : ℕ) → c < u * 8 + r → (c / 8 < u) ⊎ ((c / 8 ≡ u) × (c % 8 < r))
        earlier c l = omega arith

        agrees : (c : ℕ) → (c / 8 < u) ⊎ ((c / 8 ≡ u) × (c % 8 < r)) → dbit c d1 ≡ dbit c d2
        agrees c (inl l) = ap (λ b. has_bit b (128 / 2 ^ (c % 8))) (before (c / 8) l)
        agrees c (inr (s, l)) =
            ap (λ i. has_bit (byte_at d1 i) (128 / 2 ^ (c % 8))) s
            ∙ agree (c % 8) l
            ∙ ap (λ i. has_bit (byte_at d2 i) (128 / 2 ^ (c % 8))) (sym s)

        at_node :
            u ≡ (u * 8 + r) / 8
            → r ≡ (u * 8 + r) % 8
            → dbit (u * 8 + r) d1 ≡ not (dbit (u * 8 + r) d2)
        at_node byte bit = rw (← byte, ← bit) differs
