-- ===== src/Prelude/Cells.antt =====
-- Memory as a function of the place.
use Prim.Native.Nat.{ℕ}
use mathlib.Core.Path.{◌≡◌, refl}
use mathlib.Core.Logic.{◌≢◌}
use mathlib.Core.Bool.{true, false}
use native.Mathlib.Omega.{arith}
use pkg_varnish.Prelude.Tests.{◌==◌, if◌then◌else◌}

-- An assignment to one place.
unfoldable pub write {ℓ} : {A : Type ℓ} → (ℕ → A) → ℕ → A → ℕ → A
write f a b x = if x == a then b else f x

pub write_at {ℓ} : {A : Type ℓ} (f : ℕ → A) (a : ℕ) (b : A) → write f a b a ≡ b
unfolding write
write_at f a b = let e : (a == a) ≡ true = ground arith in rw e refl

pub write_else {ℓ} : {A : Type ℓ} (f : ℕ → A) (a x : ℕ) (b : A) → x ≢ a → write f a b x ≡ f x
unfolding write
write_else f a x b h = let e : (x == a) ≡ false = ground arith in rw e refl
