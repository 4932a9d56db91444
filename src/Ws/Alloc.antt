-- ===== src/Ws/Alloc.antt =====
-- WS_Alloc, WS_Snapshot and WS_Reset of bin/varnishd/cache_ws.c.
use pkg_varnish.Prelude.{
  ℕ, ◌+◌, ◌-◌, ◌%◌, ◌^◌, ◌≤◌, ◌<◌, ◌≡◌, refl, Option, none, some, List, [], ◌∷◌, arith, ltb,
  if◌then◌else◌, ◌>>=◌,
}
use pkg_varnish.Ws.{Ws, pointer_size, unsigned_mod, prndup, alloc, reset, snapshot}
use pkg_varnish.Ws.Valid.{ReservationOk-none, IsValid, ws_assert-IsValid}

-- The largest request whose rounding up still fits an `unsigned`.
abbrev pub max_request : ℕ
max_request = 2 ^ 32 - 8

-- What a call of WS_Alloc for `n` bytes on `ws` may come back with.
abbrev pub Allocated : Ws → ℕ → Option (Option ℕ × Ws) → Type 0
Allocated ws n none = ⊥
Allocated ws n (some (none, ws')) =
    IsValid ws'
    × (ws' ≡ record ws { overflow = (ws.overflow + 1) % 2 ^ 32 })
    × (ws.e < ws.f + prndup n)
Allocated ws n (some (some p, ws')) =
    IsValid ws'
    × (ws' ≡ record ws { f = ws'.f })
    × (p ≡ ws.f)
    × (p + n ≤ ws'.f)
    × (ws'.f < p + n + pointer_size)
    × (p % pointer_size ≡ 0)

module _ (ws : Ws) (n : ℕ) (v : IsValid ws) (idle : ws.r ≡ none) where
  full : Ws
  full = record ws { overflow = (ws.overflow + 1) % 2 ^ 32 }

  taken : Ws
  taken = record ws { f = ws.f + prndup n }

  full-IsValid : IsValid full
  unfolding full
  full-IsValid = record {
    not_null = v.not_null;
    start_aligned = v.start_aligned;
    end_aligned = v.end_aligned;
    free_aligned = v.free_aligned;
    some_room = v.some_room;
    after_start = v.after_start;
    before_end = v.before_end;
    short = v.short;
    reservation = ReservationOk-none full ws.r idle;
  }

  taken-IsValid : taken.f ≤ ws.e → IsValid taken
  unfolding taken
  taken-IsValid h = ground (arith, ReservationOk-none (record ws { f = ws.f + prndup n }) ws.r idle)

  -- From a valid workspace with no reservation WS_Alloc never fails an assertion. It hands out the
  -- aligned block at the free pointer and moves the pointer past it by less than a word more, or,
  -- where the block would not fit, returns the null pointer, counts an overflow and changes nothing
  -- else; the workspace stays valid.
  pub alloc-Allocated : n ≤ max_request → Allocated ws n (alloc ws n)
  unfolding alloc full taken
  alloc-Allocated small = ground (
    arith,
    ws_assert-IsValid ws v,
    full-IsValid,
    taken-IsValid,
    ws_assert-IsValid full,
    ws_assert-IsValid taken,
  )

-- Requests made one after the other.
unfoldable pub alloc_all : Ws → List ℕ → Option (List (Option ℕ) × Ws)
unfolding alloc
alloc_all ws [] = some ([], ws)
alloc_all ws (n ∷ ns) = do (p, ws') ← alloc ws n; (ps, ws'') ← alloc_all ws' ns; some (p ∷ ps, ws'')

-- Each block handed out for the request beside it starts at or past `low`, where the blocks before
-- it ended, and the last ends at or before `high`.
abbrev pub Stacked : ℕ → List ℕ → List (Option ℕ) → ℕ → Type 0
Stacked low [] [] high = low ≤ high
Stacked low (n ∷ ns) (none ∷ ps) high = Stacked low ns ps high
Stacked low (n ∷ ns) (some p ∷ ps) high = (low ≤ p) × Stacked (p + n) ns ps high
Stacked low _ _ high = ⊥

abbrev pub AllSmall : List ℕ → Type 0
AllSmall [] = Unit {0}
AllSmall (n ∷ ns) = (n ≤ max_request) × AllSmall ns

-- What a run of requests may come back with.
abbrev pub AllAllocated : Ws → ℕ → List ℕ → Option (List (Option ℕ) × Ws) → Type 0
AllAllocated ws low ns none = ⊥
AllAllocated ws low ns (some (ps, ws')) =
    IsValid ws' × (ws' ≡ record ws { f = ws'.f; overflow = ws'.overflow }) × Stacked low ns ps ws'.f

-- The first request joined to the rest, `q`.
alloc_step :
    (ws : Ws) (low n : ℕ) (ns : List ℕ) (p : Option ℕ) (ws' : Ws)
    (q : Option (List (Option ℕ) × Ws))
    → low ≤ ws.f
    → Allocated ws n (some (p, ws'))
    → ((next : ℕ) → next ≤ ws'.f → AllAllocated ws' next ns q)
    → AllAllocated ws low (n ∷ ns) (q >>= λ (ps, ws''). some (p ∷ ps, ws''))
alloc_step ws low n ns none ws' none le a ih = ground (arith, ih low)
alloc_step ws low n ns (some p) ws' none le a ih = ground (arith, ih (p + n))
alloc_step ws low n ns none ws' (some (ps, ws'')) le a ih = ground (arith, ih low)
alloc_step ws low n ns (some p) ws' (some (ps, ws'')) le a ih = ground (arith, ih (p + n))

-- A family of results, one for each workspace that the first request may leave.
alloc_next :
    (ws : Ws) (low n : ℕ) (ns : List ℕ) (o : Option (Option ℕ × Ws))
    (q : Ws → Option (List (Option ℕ) × Ws))
    → low ≤ ws.f
    → ws.r ≡ none
    → Allocated ws n o
    → ((ws' : Ws) (next : ℕ)
        → IsValid ws'
        → ws'.r ≡ none
        → next ≤ ws'.f
        → AllAllocated ws' next ns (q ws'))
    → AllAllocated ws low (n ∷ ns) (o >>= λ (p, ws'). q ws' >>= λ (ps, ws''). some (p ∷ ps, ws''))
alloc_next ws low n ns none q le idle a ih = a
alloc_next ws low n ns (some (none, ws')) q le idle a ih =
    alloc_step ws low n ns none ws' (q ws') le a (λ next h. ih ws' next a.0 (cc) h)
alloc_next ws low n ns (some (some p, ws')) q le idle a ih =
    alloc_step ws low n ns (some p) ws' (q ws') le a (λ next h. ih ws' next a.0 (cc) h)

-- A run of requests never fails an assertion, the blocks handed out lie one behind the other within
-- the workspace, and nothing changes but the free pointer and the overflow count.
pub alloc_all-AllAllocated :
    (ws : Ws) (low : ℕ) (ns : List ℕ)
    → IsValid ws
    → ws.r ≡ none
    → low ≤ ws.f
    → AllSmall ns
    → AllAllocated ws low ns (alloc_all ws ns)
unfolding alloc_all
alloc_all-AllAllocated ws low [] v idle le small = (v, refl, le)
alloc_all-AllAllocated ws low (n ∷ ns) v idle le (small, rest) =
    alloc_next ws low n ns (alloc ws n) (λ ws'. alloc_all ws' ns) le idle
      (alloc-Allocated ws n v idle small)
      λ ws' next v' idle' h. alloc_all-AllAllocated ws' next ns v' idle' h rest

counted-IsValid :
    (ws : Ws) (o : ℕ) → IsValid ws → ws.r ≡ none → IsValid (record ws { overflow = o })
counted-IsValid ws o v idle =
    ground (arith, ReservationOk-none (record ws { overflow = o }) ws.r idle)

rewind :
    (ws : Ws) (f o : ℕ)
    → IsValid ws
    → ws.r ≡ none
    → IsValid (record ws { f = f; overflow = o })
    → (snapshot ws >>= λ p. reset (record ws { f = f; overflow = o }) (some p))
      ≡ (if ltb ws.f ws.e then some (record ws { overflow = o }) else none)
unfolding snapshot reset
rewind ws f o v idle v' = ground (
  arith,
  ws_assert-IsValid ws v,
  ws_assert-IsValid (record ws { f = f; overflow = o }) v',
  ws_assert-IsValid (record ws { overflow = o }) (counted-IsValid ws o v idle),
)

-- The snapshot of a workspace is its free pointer. After any run of requests WS_Reset to it takes
-- them all back, except for the overflow count, if the workspace was not full when the snapshot was
-- taken; if it was full, WS_Reset fails an assertion.
pub reset-snapshot :
    (ws : Ws) (ns : List ℕ) (ps : List (Option ℕ)) (ws' : Ws)
    → IsValid ws
    → ws.r ≡ none
    → AllSmall ns
    → alloc_all ws ns ≡ some (ps, ws')
    → (snapshot ws >>= λ p. reset ws' (some p))
      ≡ (if ltb ws.f ws.e then some (record ws { overflow = ws'.overflow }) else none)
reset-snapshot ws ns ps ws' v idle small run =
    let a : AllAllocated ws ws.f ns (some (ps, ws')) =
      rw run at (alloc_all-AllAllocated ws ws.f ns v idle (omega arith) small) in
    rw a.1 (rewind ws ws'.f ws'.overflow v idle (rw a.1 at a.0))

-- A request within a word of 4 GB rounds up to zero: WS_Alloc returns the free pointer, no null
-- pointer, and takes nothing.
pub alloc-wraps :
    (ws : Ws) (n : ℕ)
    → IsValid ws
    → ws.r ≡ none
    → max_request < n
    → n < unsigned_mod
    → alloc ws n ≡ some (some ws.f, ws)
unfolding alloc
alloc-wraps ws n v idle big fits = ground (arith, ws_assert-IsValid ws v)
