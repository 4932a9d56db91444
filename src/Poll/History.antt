-- ===== src/Poll/History.antt =====
-- The health of a backend against its probes since VBP_Insert
-- (bin/varnishd/cache_backend_poll.c).
use mathlib.Core.Path.{subst, subst₂}
use mathlib.Core.List.{append-nil}
use pkg_varnish.Prelude.{
  ℕ, zero, suc, ◌-◌, ◌≤◌, ◌<◌, ◌≡◌, refl, ap, ◌∙◌, Bool, true, false, List, [], ◌∷◌, ◌++◌, arith,
  leb, if◌then◌else◌, take,
}
use pkg_varnish.Poll.{
  new_target, Target, Answers, Probe, shift, mark, start_poke, poke, window_loop, has_poked, probe,
  presume, presume_all, new_vcl, insert, adopt,
}
use pkg_varnish.Poll.Window.{
  count, encode, window_loop-encode, shift-encode, mark-encode, take-take,
}
use pkg_varnish.Poll.Outcome.{is_good, poke_lem}

-- The target has seen these outcomes, newest first: its bitmap holds the last 64.
abbrev pub Tracks : List Bool → Target → Type 0
Tracks hs vt = vt.happy ≡ encode (take 64 hs)

-- What a poll must leave: the outcomes seen, and the health that the outcomes in the window give.
abbrev pub Judged : List Bool → ℕ → ℕ → Target → Type 0
Judged hs window threshold vt =
    Tracks hs vt
    × (vt.good ≡ count (take window hs))
    × (vt.healthy ≡ leb threshold (count (take window hs)))
    × (vt.window ≡ window)
    × (vt.threshold ≡ threshold)

has_poked-Judged :
    (vt : Target) (hs : List Bool)
    → Tracks hs vt
    → vt.window ≤ 64
    → Judged hs vt.window vt.threshold (has_poked vt)
unfolding has_poked
has_poked-Judged vt hs tracks small =
    let seen : window_loop vt.window vt.happy 0 ≡ count (take vt.window hs) =
      ap (λ u. window_loop vt.window u 0) tracks
      ∙ window_loop-encode vt.window (take 64 hs) 0
      ∙ (rw (take-take vt.window 64 hs small) (omega arith)) in
    (tracks, seen, rw seen, refl, refl)

tracks_step :
    (b : Bool) (hs : List Bool) (u : ℕ)
    → u ≡ encode (take 64 hs)
    → (if b then mark (shift u) else shift u) ≡ encode (take 64 (b ∷ hs))
tracks_step true hs u e = rw (e, shift-encode hs) (mark-encode hs)
tracks_step false hs u e = rw e (shift-encode hs)

poked-Tracks :
    (a : Answers) (vt : Target) (hs : List Bool)
    → Tracks hs vt
    → Tracks (is_good a ∷ hs) (poke a (start_poke vt))
unfolding start_poke
poked-Tracks a vt hs tracks =
    (poke_lem a (start_poke vt)).0 ∙ tracks_step (is_good a) hs vt.happy tracks

probe-Judged :
    (a : Answers) (vt : Target) (hs : List Bool) (window threshold : ℕ)
    → Tracks hs vt
    → vt.window ≡ window
    → vt.threshold ≡ threshold
    → window ≤ 64
    → Judged (is_good a ∷ hs) window threshold (probe a vt)
unfolding probe start_poke
probe-Judged a vt hs window threshold tracks w t small =
    let poked = poke a (start_poke vt) in
    let settings = poke_lem a (start_poke vt) in
    let w' : poked.window ≡ window = settings.1 ∙ w in
    let t' : poked.threshold ≡ threshold = settings.2 ∙ t in
    subst₂ (λ w t. Judged (is_good a ∷ hs) w t (has_poked poked)) w' t'
      (has_poked-Judged poked (is_good a ∷ hs) (poked-Tracks a vt hs tracks) (rw w' small))

-- Probes one after the other, the newest at the head.
unfoldable pub run : List Answers → Target → Target
run [] vt = vt
run (a ∷ earlier) vt = probe a (run earlier vt)

pub outcomes : List Answers → List Bool → List Bool
outcomes [] hs = hs
outcomes (a ∷ earlier) hs = is_good a ∷ outcomes earlier hs

run-Judged :
    (a : Answers) (earlier : List Answers) (vt : Target) (hs : List Bool)
    → Tracks hs vt
    → vt.window ≤ 64
    → Judged (outcomes (a ∷ earlier) hs) vt.window vt.threshold (run (a ∷ earlier) vt)
unfolding run outcomes
run-Judged a [] vt hs tracks small =
    probe-Judged a vt hs vt.window vt.threshold tracks refl refl small
run-Judged a (b ∷ earlier) vt hs tracks small =
    let before = run-Judged b earlier vt hs tracks small in
    probe-Judged a (run (b ∷ earlier) vt) (outcomes (b ∷ earlier) hs) vt.window vt.threshold
      before.0 before.3 before.4 small

pub replicate : ℕ → Bool → List Bool
replicate zero b = []
replicate (suc n) b = b ∷ replicate n b

replicate_shift :
    (n : ℕ) (hs : List Bool) → replicate n true ++ true ∷ hs ≡ true ∷ replicate n true ++ hs
unfolding replicate
replicate_shift zero hs = refl
replicate_shift (suc n) hs = ap (λ t. true ∷ t) (replicate_shift n hs)

presume_all-Tracks :
    (n : ℕ) (vt : Target) (hs : List Bool)
    → Tracks hs vt
    → Tracks (replicate n true ++ hs) (presume_all n vt)
unfolding presume_all replicate
presume_all-Tracks zero vt hs tracks = tracks
presume_all-Tracks (suc n) vt hs tracks =
    subst (λ l. Tracks l (presume_all n (presume vt))) (replicate_shift n hs)
      (presume_all-Tracks n (presume vt) (true ∷ hs) presumed)
  where
    presumed : Tracks (true ∷ hs) (presume vt)
    presumed = unfold presume has_poked start_poke in tracks_step true hs vt.happy tracks

-- After VBP_Insert and any polls, at least one, the backend is healthy exactly where at least
-- `threshold` of the last `window` probes were good, for a window of at most 64; the probes before
-- the first are good ones, as many as `initial` says.
pub health_of_history :
    (healthy : Bool) (p : Probe) (a : Answers) (earlier : List Answers)
    → (new_vcl p).window ≤ 64
    → Judged
        (outcomes (a ∷ earlier) (replicate (new_vcl p).initial true))
        (new_vcl p).window
        (new_vcl p).threshold
        (run (a ∷ earlier) (adopt (new_vcl p) (insert healthy p)))
unfolding encode adopt insert
health_of_history healthy p a earlier small =
    run-Judged a earlier (adopt (new_vcl p) (insert healthy p)) (replicate (new_vcl p).initial true)
      start small
  where
    presumed :
        Tracks
          (replicate (new_vcl p).initial true ++ [])
          (presume_all (new_vcl p).initial (new_target healthy))
    presumed = presume_all-Tracks (new_vcl p).initial (new_target healthy) [] refl

    start : Tracks (replicate (new_vcl p).initial true) (adopt (new_vcl p) (insert healthy p))
    start = rw append-nil at presumed

presume-healthy :
    (n : ℕ) (vt : Target)
    → vt.window ≡ 0
    → vt.threshold ≡ 0
    → (presume_all (suc n) vt).healthy ≡ true
unfolding presume_all presume has_poked start_poke window_loop
presume-healthy zero vt w t = rw (w, t)
presume-healthy (suc n) vt w t = presume-healthy n (presume vt) w t

-- A backend whose probe has an `initial` other than 0 is healthy from VBP_Insert until the first
-- poll, whatever the threshold.
pub insert-healthy :
    (healthy : Bool) (p : Probe) → 0 < (new_vcl p).initial → (insert healthy p).healthy ≡ true
unfolding insert
insert-healthy healthy p some_good =
    let e : (new_vcl p).initial ≡ suc ((new_vcl p).initial - 1) = omega arith in
    rw e (presume-healthy ((new_vcl p).initial - 1) (new_target healthy) refl refl)
