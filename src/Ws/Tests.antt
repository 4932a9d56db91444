-- ===== src/Ws/Tests.antt =====
-- Runs of bin/varnishd/cache_ws.c, and its theorems at a small workspace.
use pkg_varnish.Prelude.{◌≡◌, refl, none, some, [], ◌∷◌, arith, ◌>>=◌}
use pkg_varnish.Prelude.Memory.{Memory}
use pkg_varnish.Ws.{Ws, init, alloc, reset, snapshot, reserve, reserve_size}
use pkg_varnish.Ws.Valid.{IsValid}
use pkg_varnish.Ws.Alloc.{
  Allocated, alloc-Allocated, alloc_all, AllAllocated, alloc_all-AllAllocated, reset-snapshot,
}

abbrev small : Ws
small = record { overflow = 0; s = 4096; f = 4096; r = none; e = 4160 }

abbrev blank : Memory
blank = λ a. 0

small-IsValid : IsValid small
small-IsValid = omega arith

init_runs : init 4096 64 ≡ some small
unfolding init
init_runs = refl

alloc_runs : alloc small 13 ≡ some (some 4096, record small { f = 4112 })
unfolding alloc
alloc_runs = refl

alloc_overflows : alloc small 65 ≡ some (none, record small { overflow = 1 })
unfolding alloc
alloc_overflows = refl

reserve_runs : reserve small 13 ≡ some (8, record small { r = some 4104 })
unfolding reserve reserve_size
reserve_runs = refl

-- Nothing is left of seven bytes, and the assertion that a reservation ends past the start fails.
reserve_fails : reserve small 7 ≡ none
unfolding reserve reserve_size
reserve_fails = refl

alloc-Allocated_example : Allocated small 13 (alloc small 13)
alloc-Allocated_example = alloc-Allocated small 13 small-IsValid refl (omega arith)

alloc_all-AllAllocated_example :
    AllAllocated small 4096 (13 ∷ 70 ∷ 20 ∷ []) (alloc_all small (13 ∷ 70 ∷ 20 ∷ []))
alloc_all-AllAllocated_example =
    alloc_all-AllAllocated small 4096 (13 ∷ 70 ∷ 20 ∷ []) small-IsValid refl (omega arith)
      (omega arith)

alloc_all_runs :
    alloc_all small (13 ∷ 70 ∷ [])
    ≡ some (some 4096 ∷ none ∷ [], record small { f = 4112; overflow = 1 })
unfolding alloc_all
alloc_all_runs = refl

reset-snapshot_example :
    (snapshot small >>= λ p. reset (record small { f = 4112; overflow = 1 }) (some p))
    ≡ some (record small { overflow = 1 })
reset-snapshot_example =
    reset-snapshot small (13 ∷ 70 ∷ []) (some 4096 ∷ none ∷ [])
      (record small { f = 4112; overflow = 1 }) small-IsValid refl (omega arith) alloc_all_runs
