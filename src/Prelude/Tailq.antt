-- ===== src/Prelude/Tailq.antt =====
-- The lists of include/vqueue.h: the numbers of the elements, in order. An element is on such a list
-- once at most.
use Prim.Native.Nat.{ℕ, ◌+◌, ◌-◌}
use mathlib.Core.Path.{◌≡◌}
use mathlib.Core.List.{List, [], ◌∷◌, ◌++◌}
use mathlib.Core.Option.{Option, none, some}
use native.Mathlib.Omega.{arith}
use pkg_varnish.Prelude.Tests.{◌==◌, if◌then◌else◌}

-- VTAILQ_REMOVE.
unfoldable pub remove : ℕ → List ℕ → List ℕ
remove oc [] = []
remove oc (o ∷ os) = if o == oc then os else o ∷ remove oc os

-- How often the element is on the list.
unfoldable pub count : ℕ → List ℕ → ℕ
count oc [] = 0
count oc (o ∷ os) = (if o == oc then 1 else 0) + count oc os

pub count-append : (q : ℕ) (xs ys : List ℕ) → count q (xs ++ ys) ≡ count q xs + count q ys
unfolding count
count-append q [] ys = omega arith
count-append q (x ∷ xs) ys = ground (arith, count-append q xs ys)

pub count-remove :
    (q o : ℕ) (xs : List ℕ)
    → count q (remove o xs) ≡ (if q == o then count q xs - 1 else count q xs)
unfolding count remove
count-remove q o [] = ground arith
count-remove q o (x ∷ xs) = ground (arith, count-remove q o xs)

-- VTAILQ_FIRST.
unfoldable pub first : List ℕ → Option ℕ
first [] = none
first (x ∷ xs) = some x

-- VTAILQ_NEXT.
unfoldable pub next : ℕ → List ℕ → Option ℕ
next e [] = none
next e (x ∷ xs) = if x == e then first xs else next e xs

-- VTAILQ_PREV.
unfoldable pub prev : ℕ → List ℕ → Option ℕ
prev e [] = none
prev e (x ∷ []) = none
prev e (x ∷ y ∷ ys) = if y == e then some x else prev e (y ∷ ys)

-- VTAILQ_INSERT_BEFORE.
unfoldable pub insert_before : ℕ → ℕ → List ℕ → List ℕ
insert_before e new [] = []
insert_before e new (x ∷ xs) = if x == e then new ∷ x ∷ xs else x ∷ insert_before e new xs

-- VTAILQ_INSERT_AFTER.
unfoldable pub insert_after : ℕ → ℕ → List ℕ → List ℕ
insert_after e new [] = []
insert_after e new (x ∷ xs) = if x == e then x ∷ new ∷ xs else x ∷ insert_after e new xs
