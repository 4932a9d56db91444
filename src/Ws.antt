-- ===== src/Ws.antt =====
-- bin/varnishd/cache_ws.c: the workspace, a bump allocator with one reservation.
-- Pointers are addresses; `none` for `r` is the null pointer. A method returns its result and the
-- new workspace, or `none` where one of its assertions fails.
pub mod Valid
pub mod Alloc
pub mod Dup
pub mod Reserve
pub mod Tests
use pkg_varnish.Prelude.{
  ℕ, zero, suc, ◌+◌, ◌-◌, ◌*◌, ◌/◌, ◌%◌, ◌^◌, ◌≤◌, ◌<◌, ◌≡◌, refl, sym, ap, ◌∙◌, ◌≢◌, ◌↔◌, ◌⊎◌, inl,
  inr, Bool, true, false, not, ◌&&◌, ◌||◌, Option, none, some, List, [], ◌∷◌, ◌++◌, arith, ltb, leb,
  ◌==◌, if◌then◌else◌, ltb→lt, leb→le, ==_iff, Bool-cases, Option-cases, length, get_elem?, set,
  take, drop, length-append, ◌>>=◌, ◌>>◌, assert,
}
use pkg_varnish.Prelude.Memory.{Memory, memcpy}

-- sizeof(void *), on a 64-bit machine.
abbrev pub pointer_size : ℕ
pointer_size = 8

abbrev pub unsigned_mod : ℕ
unsigned_mod = 2 ^ 32

abbrev pub paok : ℕ → Bool
paok p = p % pointer_size == 0

abbrev pub prnddn : ℕ → ℕ
prnddn p = p / pointer_size * pointer_size

abbrev pub prndup : ℕ → ℕ
prndup p = (p + (pointer_size - 1)) / pointer_size * pointer_size

-- `unsigned bytes = PRNDUP(bytes)`: the sum is a uintptr_t, and the store keeps 32 bits.
abbrev pub prndup_unsigned : ℕ → ℕ
prndup_unsigned bytes = prndup bytes % unsigned_mod

pub record Ws : Type 0 where
  pub overflow : ℕ
  pub s : ℕ
  pub f : ℕ
  pub r : Option ℕ
  pub e : ℕ

reservation_ok : Ws → Option ℕ → Bool
reservation_ok ws none = true
reservation_ok ws (some r) = ltb ws.s r && leb r ws.e && paok r

pub ws_assert : Ws → Option (Unit {0})
unfolding reservation_ok
ws_assert ws = do
  assert (not (ws.s == 0))
  assert (paok ws.s)
  assert (not (ws.e == 0))
  assert (paok ws.e)
  assert (ltb ws.s ws.e)
  assert (leb ws.s ws.f)
  assert (leb ws.f ws.e)
  assert (paok ws.f)
  assert (reservation_ok ws ws.r)

abbrev pub is_null : Option ℕ → Bool
is_null none = true
is_null (some p) = false

pub init : ℕ → ℕ → Option Ws
unfolding ws_assert
init space len = do
  assert (not (space == 0))
  assert (paok space)
  let ws : Ws = record { overflow = 0; s = space; f = space; r = none; e = space + len }
  assert (paok len)
  ws_assert ws
  some ws

reset_to : Ws → Option ℕ → Option Ws
reset_to ws none = some (record ws { f = ws.s })
reset_to ws (some p) = do assert (leb ws.s p); assert (ltb p ws.e); some (record ws { f = p })

pub reset : Ws → Option ℕ → Option Ws
unfolding ws_assert reset_to
reset ws p = do ws_assert ws; assert (is_null ws.r); ws' ← reset_to ws p; ws_assert ws'; some ws'

pub alloc : Ws → ℕ → Option (Option ℕ × Ws)
unfolding ws_assert
alloc ws request = do
  ws_assert ws
  let bytes = prndup_unsigned request
  assert (is_null ws.r)
  let full : Ws = record ws { overflow = (ws.overflow + 1) % 2 ^ 32 }
  let taken : Ws = record ws { f = ws.f + bytes }
  if ltb ws.e (ws.f + bytes)
      then (ws_assert full >> some (none, full))
      else (ws_assert taken >> some (some ws.f, taken))

copy_if : Memory → Option ℕ → List ℕ → Memory
unfolding memcpy
copy_if m none bytes = m
copy_if m (some p) bytes = memcpy m p bytes

-- A C string is its bytes, and the nul after them.
pub dup : Memory → Ws → List ℕ → Option (Option ℕ × Ws × Memory)
dup m ws str = do
  ws_assert ws
  let bytes = str ++ 0 ∷ []
  (p, ws') ← alloc ws ((length str + 1) % unsigned_mod)
  ws_assert ws'
  some (p, ws', copy_if m p bytes)

pub free : Ws → Option ℕ
unfolding ws_assert
free ws = do ws_assert ws; some ((ws.e - ws.f) % unsigned_mod)

pub snapshot : Ws → Option ℕ
unfolding ws_assert
snapshot ws = do ws_assert ws; assert (is_null ws.r); some ws.f

reserve_size : Ws → ℕ → ℕ
reserve_size ws bytes =
    if bytes == 0
    then (ws.e - ws.f) % unsigned_mod
    else if ltb (ws.e - ws.f) bytes
    then (ws.e - ws.f) % unsigned_mod
    else bytes

pub reserve : Ws → ℕ → Option (ℕ × Ws)
unfolding ws_assert
reserve ws bytes = do
  ws_assert ws
  assert (is_null ws.r)
  let b2 = prnddn (reserve_size ws bytes)
  assert (leb (ws.f + b2) ws.e)
  let ws' : Ws = record ws { r = some (ws.f + b2) }
  ws_assert ws'
  some ((ws.f + b2 - ws.f) % unsigned_mod, ws')

pub release : Ws → ℕ → Option Ws
unfolding ws_assert
release ws request = do
  ws_assert ws
  let bytes = prndup_unsigned request
  assert (leb bytes (ws.e - ws.f))
  r ← ws.r
  assert (leb (ws.f + bytes) r)
  let ws' : Ws = record ws { f = ws.f + bytes; r = none }
  ws_assert ws'
  some ws'

pub release_p : Ws → ℕ → Option Ws
unfolding ws_assert
release_p ws ptr = do
  ws_assert ws
  r ← ws.r
  assert (leb ws.f ptr)
  assert (leb ptr r)
  let ws' : Ws = record ws { f = ws.f + prndup (ptr - ws.f); r = none }
  ws_assert ws'
  some ws'
