-- ===== src/Prelude/Masks.antt =====
-- Masks of the bits above a power of two.
use Prim.Native.Nat.{
  ℕ, zero, suc, ◌+◌, ◌-◌, ◌*◌, ◌/◌, ◌%◌, ◌^◌, ◌≤◌, ◌<◌, min, bit_and, digits, bit_and-bitwise,
}
use mathlib.Core.Path.{◌≡◌, refl, sym, ap, ◌∙◌}
use native.Mathlib.Omega.{arith}
use native.Mathlib.Nat.{
  div-div-eq-div-mul, pow-suc, one-le-pow, add-mul-mod_self_left, mod-eq_of_lt, div-add-mod, mod-lt,
  mul_assoc, mul_comm,
}

-- More rounds than digits change nothing.
digits_rounds :
    (m n a b : ℕ) → a ≤ m → a ≤ n → digits (λ _. zero) min m a b ≡ digits (λ _. zero) min n a b
digits_rounds zero zero a b h k = refl
digits_rounds (suc m) (suc n) zero b h k = refl
digits_rounds (suc m) (suc n) (suc a) b h k =
    ap (λ d. d * 2 + min (suc a % 2) (b % 2))
      (digits_rounds m n (suc a / 2) (b / 2) (omega arith) (omega arith))
digits_rounds zero (suc n) zero b h k = refl
digits_rounds zero (suc n) (suc a) b h k = absurd (omega arith)
digits_rounds (suc m) zero zero b h k = refl
digits_rounds (suc m) zero (suc a) b h k = absurd (omega arith)

-- The lowest digit, and the others.
lowest : (a b : ℕ) → bit_and a b ≡ bit_and (a / 2) (b / 2) * 2 + min (a % 2) (b % 2)
lowest zero b = omega (arith, bit_and-bitwise 0 b, bit_and-bitwise 0 (b / 2))
lowest (suc a) b =
    let halves = digits_rounds a (suc a / 2) (suc a / 2) (b / 2) (omega arith) (omega arith) in
    omega (arith, bit_and-bitwise (suc a) b, bit_and-bitwise (suc a / 2) (b / 2), halves)

digits_zero : (n a : ℕ) → digits (λ _. zero) min n a 0 ≡ 0
digits_zero zero a = refl
digits_zero (suc n) zero = refl
digits_zero (suc n) (suc a) = omega (arith, digits_zero n (suc a / 2))

pub shifted : (k x m : ℕ) → bit_and x (m * 2 ^ k) ≡ bit_and (x / 2 ^ k) m * 2 ^ k
shifted zero x m =
    let e : m * 2 ^ 0 ≡ m = omega arith in
    let f : x ≡ x / 2 ^ 0 = omega arith in ap (bit_and x) e ∙ ap (λ t. bit_and t m) f ∙ omega arith
shifted (suc k) x m =
    let b = m * 2 ^ suc k in
    let eb : b ≡ m * 2 ^ k * 2 = ap (λ t. m * t) (pow-suc 2 k) ∙ sym (mul_assoc m (2 ^ k) 2) in
    let half : b / 2 ≡ m * 2 ^ k = omega (arith, eb) in
    let ex : x / 2 / 2 ^ k ≡ x / 2 ^ suc k =
      div-div-eq-div-mul x 2 (2 ^ k) ∙ ap (λ t. x / t) (mul_comm 2 (2 ^ k) ∙ sym (pow-suc 2 k)) in
    let q = bit_and (x / 2 ^ suc k) m in
    let e : bit_and (x / 2) (b / 2) ≡ q * 2 ^ k =
      ap (bit_and (x / 2)) half ∙ shifted k (x / 2) m ∙ ap (λ t. bit_and t m * 2 ^ k) ex in
    let f : q * 2 ^ suc k ≡ q * 2 ^ k * 2 =
      ap (λ t. q * t) (pow-suc 2 k) ∙ sym (mul_assoc q (2 ^ k) 2) in
    omega (arith, lowest x b, e, eb, f)

-- The digits of the remainder by an even number.
mod_double : (x p : ℕ) → 0 < p → x / 2 % p * 2 + x % 2 ≡ x % (p * 2)
mod_double x p h =
    let d = x / 2 / p in
    let r = x / 2 % p in
    let e : x ≡ r * 2 + x % 2 + p * 2 * d =
      let m : p * 2 * d ≡ p * d * 2 =
        mul_assoc p 2 d ∙ ap (λ t. p * t) (mul_comm 2 d) ∙ sym (mul_assoc p d 2) in
      omega (arith, div-add-mod (x / 2) p, m) in
    let lt : r * 2 + x % 2 < p * 2 = omega (arith, mod-lt (x / 2) h) in
    sym
      (ap (λ t. t % (p * 2)) e ∙ add-mul-mod_self_left (r * 2 + x % 2) (p * 2) d ∙ mod-eq_of_lt lt)

pub ones : (w x : ℕ) → bit_and x (2 ^ w - 1) ≡ x % 2 ^ w
ones zero x = bit_and-bitwise x 0 ∙ digits_zero x x ∙ omega arith
ones (suc w) x =
    let b = 2 ^ suc w - 1 in
    let pos = one-le-pow w 2 (omega arith) in
    let half : b / 2 ≡ 2 ^ w - 1 = omega (arith, pow-suc 2 w, pos) in
    let e : bit_and (x / 2) (b / 2) ≡ x / 2 % 2 ^ w = ap (bit_and (x / 2)) half ∙ ones w (x / 2) in
    let f : x / 2 % 2 ^ w * 2 + x % 2 ≡ x % 2 ^ suc w =
      mod_double x (2 ^ w) pos ∙ ap (λ t. x % t) (sym (pow-suc 2 w)) in
    omega (arith, lowest x b, e, f, pow-suc 2 w, pos)
