-- ===== src/Ws/Valid.antt =====
-- WS_Assert and WS_Init of bin/varnishd/cache_ws.c.
use pkg_varnish.Prelude.{ℕ, ◌+◌, ◌-◌, ◌%◌, ◌≤◌, ◌<◌, ◌≡◌, refl, true, Option, none, some, arith}
use pkg_varnish.Ws.{Ws, pointer_size, unsigned_mod, ws_assert, init, reservation_ok}

abbrev pub ReservationOk : Ws → Option ℕ → Type 0
ReservationOk ws none = Unit {0}
ReservationOk ws (some r) = (ws.f ≤ r) × (ws.s < r) × (r ≤ ws.e) × (r % pointer_size ≡ 0)

pub ReservationOk-none : (ws : Ws) (r : Option ℕ) → r ≡ none → ReservationOk ws r
ReservationOk-none ws r h = rw h tt

-- What WS_Assert demands, and that the workspace is shorter than an `unsigned` can count.
pub record IsValid (ws : Ws) : Type 0 where
  pub not_null : 0 < ws.s
  pub start_aligned : ws.s % pointer_size ≡ 0
  pub end_aligned : ws.e % pointer_size ≡ 0
  pub free_aligned : ws.f % pointer_size ≡ 0
  pub some_room : ws.s < ws.e
  pub after_start : ws.s ≤ ws.f
  pub before_end : ws.f ≤ ws.e
  pub short : ws.e - ws.s < unsigned_mod
  pub reservation : ReservationOk ws ws.r

reservation_ok-IsValid : (ws : Ws) (r : Option ℕ) → ReservationOk ws r → reservation_ok ws r ≡ true
unfolding reservation_ok
reservation_ok-IsValid ws none h = refl
reservation_ok-IsValid ws (some r) h = ground arith

pub ws_assert-IsValid : (ws : Ws) → IsValid ws → ws_assert ws ≡ some tt
unfolding ws_assert
ws_assert-IsValid ws v = ground (arith, reservation_ok-IsValid ws ws.r v.reservation)

-- A workspace on aligned space of an aligned, nonzero length starts empty, and passes WS_Assert.
pub init-IsValid :
    (space len : ℕ)
    → 0 < space
    → space % pointer_size ≡ 0
    → 0 < len
    → len % pointer_size ≡ 0
    → len < unsigned_mod
    → (ws : Ws) × (init space len ≡ some ws)
      × IsValid ws
      × (ws.f ≡ space)
      × (ws.e ≡ space + len)
      × (ws.r ≡ none)
unfolding init
init-IsValid space len h a l b w =
    let ws : Ws = record { overflow = 0; s = space; f = space; r = none; e = space + len } in
    let v : IsValid ws = record {
      not_null = h;
      start_aligned = a;
      end_aligned = omega arith;
      free_aligned = a;
      some_room = omega arith;
      after_start = omega arith;
      before_end = omega arith;
      short = omega arith;
      reservation = tt;
    } in
    (ws, ground (arith, ws_assert-IsValid ws v), v, refl, refl, refl)
