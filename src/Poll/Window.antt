-- ===== src/Poll/Window.antt =====
-- The bitmaps of bin/varnishd/cache_backend_poll.c as lists of outcomes, newest first.
use native.Mathlib.Nat.{pow-suc}
use pkg_varnish.Prelude.{
  ℕ, zero, suc, ◌+◌, ◌*◌, ◌/◌, ◌^◌, ◌≤◌, ◌<◌, ◌≡◌, refl, ap, Bool, true, false, List, [], ◌∷◌,
  arith, take, take-nil,
}
use pkg_varnish.Poll.{shift, mark, window_loop}

abbrev pub bit : Bool → ℕ
bit true = 1
bit false = 0

-- The number of good probes.
pub count : List Bool → ℕ
count [] = 0
count (h ∷ hs) = bit h + count hs

-- The bitmap of a list of outcomes.
unfoldable pub encode : List Bool → ℕ
encode [] = 0
encode (h ∷ hs) = bit h + 2 * encode hs

pub window_loop-encode :
    (w : ℕ) (hs : List Bool) (j : ℕ) → window_loop w (encode hs) j ≡ j + count (take w hs)
unfolding window_loop encode count
window_loop-encode zero hs j = omega arith
window_loop-encode (suc w) [] j =
    omega (arith, window_loop-encode w [] j, ap count (take-nil {A = Bool} w))
window_loop-encode (suc w) (true ∷ hs) j =
    let half : (1 + 2 * encode hs) / 2 ≡ encode hs = omega arith in
    rw half (ground (arith, window_loop-encode w hs (j + 1)))
window_loop-encode (suc w) (false ∷ hs) j =
    let half : (0 + 2 * encode hs) / 2 ≡ encode hs = omega arith in
    rw half (ground (arith, window_loop-encode w hs j))

encode-take-lt : (n : ℕ) (hs : List Bool) → encode (take n hs) < 2 ^ n
unfolding encode
encode-take-lt zero hs = omega arith
encode-take-lt (suc n) [] = rw pow-suc (omega (arith, encode-take-lt n []))
encode-take-lt (suc n) (h ∷ hs) = rw pow-suc (ground (arith, encode-take-lt n hs))

encode-take-suc :
    (n : ℕ) (hs : List Bool) → (b : ℕ) × (encode (take (suc n) hs) ≡ encode (take n hs) + 2 ^ n * b)
unfolding encode
encode-take-suc zero [] = (0, omega arith)
encode-take-suc (suc n) [] = (0, omega arith)
encode-take-suc zero (h ∷ hs) = (bit h, omega arith)
encode-take-suc (suc n) (h ∷ hs) =
    let (b, e) = encode-take-suc n hs in (b, rw pow-suc (omega (arith, e, ap (λ (t : ℕ). 2 * t) e)))

-- The 64 bits of the bitmap are the outcomes of the last 64 probes.
pub shift-encode : (hs : List Bool) → shift (encode (take 64 hs)) ≡ encode (take 64 (false ∷ hs))
unfolding encode
shift-encode hs = let (b, e) = encode-take-suc 63 hs in omega (arith, e, encode-take-lt 63 hs)

pub mark-encode :
    (hs : List Bool) → mark (encode (take 64 (false ∷ hs))) ≡ encode (take 64 (true ∷ hs))
unfolding encode
mark-encode hs = ground arith

pub take-take : (w n : ℕ) (hs : List Bool) → w ≤ n → take w (take n hs) ≡ take w hs
take-take zero n hs h = refl
take-take (suc w) zero hs h = absurd (omega arith)
take-take (suc w) (suc n) [] h = refl
take-take (suc w) (suc n) (x ∷ hs) h = ap (λ t. x ∷ t) (take-take w n hs (omega arith))
