-- ===== src/Ws/Reserve.antt =====
-- WS_Reserve, WS_Release and WS_ReleaseP of bin/varnishd/cache_ws.c.
use pkg_varnish.Prelude.{
  ℕ, ◌+◌, ◌-◌, ◌%◌, ◌≤◌, ◌<◌, ◌≡◌, ap, ◌∙◌, ◌||◌, none, some, arith, ltb, ◌==◌, if◌then◌else◌,
}
use pkg_varnish.Ws.{
  Ws, pointer_size, prndup, prnddn, ws_assert, reserve, reserve_size, release, release_p,
}
use pkg_varnish.Ws.Valid.{IsValid, ws_assert-IsValid}

-- The bytes that a reservation asks for: all that are free, if none are named or too many.
abbrev pub wanted : Ws → ℕ → ℕ
wanted ws n = if n == 0 || ltb (ws.e - ws.f) n then ws.e - ws.f else n

reserve_size-wanted : (ws : Ws) (n : ℕ) → IsValid ws → reserve_size ws n ≡ wanted ws n
unfolding reserve_size
reserve_size-wanted ws n v = ground arith

wanted-le : (ws : Ws) (n : ℕ) → wanted ws n ≤ ws.e - ws.f
wanted-le ws n = ground arith

module _ (ws : Ws) (v : IsValid ws) (idle : ws.r ≡ none) where
  held-IsValid :
      (b : ℕ)
      → ws.f + b ≤ ws.e
      → b % pointer_size ≡ 0
      → ws.s < ws.f + b
      → IsValid (record ws { r = some (ws.f + b) })
  held-IsValid b fits whole above = ground arith

  held-refused : (b : ℕ) → ws.f + b ≤ ws.s → ws_assert (record ws { r = some (ws.f + b) }) ≡ none
  unfolding ws_assert
  held-refused b below = ground arith

  -- WS_Reserve sets aside the wanted bytes, rounded down to words. It fails an assertion exactly
  -- where nothing is left after rounding and nothing was allocated before.
  pub reserve_lem :
      (n : ℕ)
      → reserve ws n ≡ (
          if ltb ws.s (ws.f + prnddn (wanted ws n))
          then some (prnddn (wanted ws n), record ws { r = some (ws.f + prnddn (wanted ws n)) })
          else none)
  unfolding reserve
  reserve_lem n = ground (
    arith,
    reserve_size-wanted ws n v,
    wanted-le ws n,
    ws_assert-IsValid ws v,
    ws_assert-IsValid (record ws { r = some (ws.f + prnddn (wanted ws n)) }),
    held-IsValid (prnddn (wanted ws n)),
    held-refused (prnddn (wanted ws n)),
  )

released-IsValid :
    (ws : Ws) (b : ℕ)
    → IsValid ws
    → ws.f + b ≤ ws.e
    → b % pointer_size ≡ 0
    → IsValid (record ws { f = ws.f + b; r = none })
released-IsValid ws b v fits whole = ground arith

abbrev Held : Ws → ℕ → Ws → Type 0
Held ws b ws' =
    (ws' ≡ record ws { r = some (ws.f + b) })
    × (ws.f + b ≤ ws.e)
    × (b % pointer_size ≡ 0)
    × (ws.s < ws.f + b)

reserve-Held :
    (ws : Ws) (n b : ℕ) (ws' : Ws)
    → IsValid ws
    → ws.r ≡ none
    → reserve ws n ≡ some (b, ws')
    → Held ws b ws'
reserve-Held ws n b ws' v idle run = ground (arith, reserve_lem ws v idle n, wanted-le ws n)

module _ (ws : Ws) (b k : ℕ) (v : IsValid ws) (idle : ws.r ≡ none) (fits : ws.f + b ≤ ws.e)
    (whole : b % pointer_size ≡ 0) (above : ws.s < ws.f + b) (le : k ≤ b) where
  held : Ws
  held = record ws { r = some (ws.f + b) }

  done : Ws
  done = record ws { f = ws.f + prndup k; r = none }

  held_assert : ws_assert held ≡ some tt
  unfolding held
  held_assert = ws_assert-IsValid held (held-IsValid ws v idle b fits whole above)

  done_assert : ws_assert done ≡ some tt
  unfolding done
  done_assert =
      ws_assert-IsValid done (released-IsValid ws (prndup k) v (omega arith) (omega arith))

  release-held : release held k ≡ some done
  unfolding release held done
  release-held = ground (arith, held_assert, done_assert)

  release_p-held : release_p held (ws.f + k) ≡ some done
  unfolding release_p held done
  release_p-held = ground (arith, held_assert, done_assert)

-- After a reservation that succeeded, WS_Release of no more bytes than were reserved, and
-- WS_ReleaseP of the pointer just past them, both end the reservation and take exactly those bytes,
-- rounded up to words; the workspace is valid.
pub release-reserve :
    (ws : Ws) (n b k : ℕ) (ws' : Ws)
    → IsValid ws
    → ws.r ≡ none
    → reserve ws n ≡ some (b, ws')
    → k ≤ b
    → (release ws' k ≡ some (record ws { f = ws.f + prndup k }))
      × (release_p ws' (ws.f + k) ≡ some (record ws { f = ws.f + prndup k }))
      × IsValid (record ws { f = ws.f + prndup k })
unfolding held done
release-reserve ws n b k ws' v idle run le =
    let h = reserve-Held ws n b ws' v idle run in
    let same : done ws b k v idle h.1 h.2 h.3 le ≡ record ws { f = ws.f + prndup k } =
      ground arith in
    rw h.0 (
      release-held ws b k v idle h.1 h.2 h.3 le ∙ ap some same,
      release_p-held ws b k v idle h.1 h.2 h.3 le ∙ ap some same,
      rw same at (released-IsValid ws (prndup k) v (omega arith) (omega arith)),
    )
