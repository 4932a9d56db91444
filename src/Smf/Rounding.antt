-- ===== src/Smf/Rounding.antt =====
-- The rounding of smf_alloc and smf_trim of bin/varnishd/storage_file.c to whole pages.
use pkg_varnish.Prelude.{
  ℕ, zero, suc, ◌+◌, ◌-◌, ◌*◌, ◌/◌, ◌%◌, ◌^◌, ◌≤◌, ◌<◌, ◌≡◌, sym, ap, ◌∙◌, arith,
}
use Prim.Native.Nat.{bit_and}
use native.Mathlib.Nat.{
  pow-suc, one-le-pow, mul-mod_left, mod-lt, div-add-mod', mod-eq_of_lt, div-lt_iff_lt-mul,
  mul_assoc, mul-le-mul_right, mul-sub, mul_comm, suc-mul, suc-mul,
}
use pkg_varnish.Prelude.Masks.{shifted, ones}
use pkg_varnish.Smf.{add}
use pkg_varnish.Smf.Storage.{round_up}

pow_add : (w k : ℕ) → 2 ^ w * 2 ^ k ≡ 2 ^ (w + k)
pow_add w zero =
    let e : w ≡ w + 0 = omega arith in
    let f : 2 ^ w * 2 ^ 0 ≡ 2 ^ w = omega arith in f ∙ ap (λ t. 2 ^ t) e
pow_add w (suc k) =
    let e : w + suc k ≡ suc (w + k) = omega arith in
    ap (λ t. 2 ^ w * t) (pow-suc 2 k)
    ∙ sym (mul_assoc (2 ^ w) (2 ^ k) 2)
    ∙ ap (λ t. t * 2) (pow_add w k)
    ∙ sym (pow-suc 2 (w + k))
    ∙ ap (λ t. 2 ^ t) (sym e)

mask_lem : (w k : ℕ) → (2 ^ w - 1) * 2 ^ k ≡ 2 ^ (w + k) - 2 ^ k
mask_lem w k =
    mul_comm (2 ^ w - 1) (2 ^ k)
    ∙ mul-sub (2 ^ k) (2 ^ w) 1
    ∙ omega (arith, mul_comm (2 ^ k) (2 ^ w), pow_add w k)

module _ (w k : ℕ) (bits : w + k ≡ 32) (size : ℕ) where
  round_up_pages : round_up (2 ^ k) size ≡ add size (2 ^ k - 1) / 2 ^ k % 2 ^ w * 2 ^ k
  unfolding round_up
  round_up_pages =
      ap (λ t. bit_and (add size (2 ^ k - 1)) t)
        (ap (λ t. 2 ^ t - 2 ^ k) (sym bits) ∙ sym (mask_lem w k))
      ∙ shifted k (add size (2 ^ k - 1)) (2 ^ w - 1)
      ∙ ap (λ t. t * 2 ^ k) (ones w (add size (2 ^ k - 1) / 2 ^ k))

  -- A number of pages below 2^32 bytes.
  pub round_up_bounds :
      (round_up (2 ^ k) size % 2 ^ k ≡ 0) × (round_up (2 ^ k) size + 2 ^ k ≤ 2 ^ 32)
  round_up_bounds =
      let q = add size (2 ^ k - 1) / 2 ^ k % 2 ^ w in
      let lt : q < 2 ^ w = mod-lt _ (one-le-pow w 2 (omega arith)) in
      let le : suc q * 2 ^ k ≤ 2 ^ w * 2 ^ k = mul-le-mul_right (2 ^ k) lt in
      let e : 2 ^ w * 2 ^ k ≡ 2 ^ 32 = pow_add w k ∙ ap (λ t. 2 ^ t) bits in
      rw round_up_pages (mul-mod_left q (2 ^ k), omega (arith, suc-mul q (2 ^ k), le, e))

  -- For a size that leaves room for a page below 2^32, the least number of pages that holds it.
  pub round_up_least :
      size + 2 ^ k ≤ 2 ^ 32
      → (size ≤ round_up (2 ^ k) size) × (round_up (2 ^ k) size < size + 2 ^ k)
  unfolding add
  round_up_least h =
      let pos = one-le-pow k 2 (omega arith) in
      let x = size + (2 ^ k - 1) in
      let e : 2 ^ w * 2 ^ k ≡ 2 ^ 32 = pow_add w k ∙ ap (λ t. 2 ^ t) bits in
      let whole : x % 2 ^ 64 ≡ x = mod-eq_of_lt (omega arith) in
      let lt : x / 2 ^ k < 2 ^ w = (div-lt_iff_lt-mul pos).1 (omega arith) in
      let f : x % 2 ^ 64 / 2 ^ k % 2 ^ w ≡ x / 2 ^ k =
        ap (λ t. t / 2 ^ k % 2 ^ w) whole ∙ mod-eq_of_lt lt in
      let g : round_up (2 ^ k) size ≡ x / 2 ^ k * 2 ^ k = round_up_pages ∙ ap (λ t. t * 2 ^ k) f in
      omega (arith, g, div-add-mod' x (2 ^ k), mod-lt x pos)
