-- ===== src/Poll/Outcome.antt =====
-- vbp_poke of bin/varnishd/cache_backend_poll.c: which answers make a good probe.
use pkg_varnish.Prelude.{
  ℕ, ◌≡◌, refl, ◌∙◌, Bool, true, false, not, ◌&&◌, ◌||◌, arith, ltb, if◌then◌else◌,
}
use pkg_varnish.Poll.{
  Target, Answers, Write, whole, short, failed, Received, Connecting, mark, connect_first,
  connect_second, connect_third, receive, send, exchange, poke, gave_up, broken, complete,
}

-- The probe got a connection, with time left after every step that it took.
pub reachable : Answers → Bool
reachable a =
    let first = a.prefer_ipv6 && a.has_ipv6 in
    let third = a.has_ipv6 && a.connects_ipv6_last && not a.late_third in
    let second = if a.has_ipv4 then not a.late_second && (a.connects_ipv4 || third) else third in
    if first then not a.late_first && (a.connects_ipv6_first || second) else second

-- The bytes of a response that was received to its end, or 0.
pub received : Received → ℕ
received gave_up = 0
received broken = 0
received (complete n) = n

abbrev is_whole : Write → Bool
is_whole whole = true
is_whole short = false
is_whole failed = false

-- A probe is good if it reached the backend, sent all of the request, and got all of a response, not
-- an empty one, with the expected status.
pub is_good : Answers → Bool
is_good a = reachable a && is_whole a.written && ltb 0 (received (receive 0 a.reads)) && a.matches

send-happy :
    (a : Answers) (vt : Target) (w : Write)
    → (send a vt w).happy ≡ (
        if is_whole w && ltb 0 (received (receive 0 a.reads)) && a.matches
        then mark vt.happy
        else vt.happy)
unfolding send received
send-happy a vt short = refl
send-happy a vt failed = refl
send-happy a vt whole = ground arith

connected : Answers → Target → Connecting
connected a vt = connect_third a (connect_second a (connect_first a vt))

-- The fields of a target that decide the verdict.
IsKept : Target → Target → Type 0
IsKept vt vt' = (vt'.happy ≡ vt.happy) × (vt'.window ≡ vt.window) × (vt'.threshold ≡ vt.threshold)

IsKept-trans : (a b c : Target) → IsKept a b → IsKept b c → IsKept a c
unfolding IsKept
IsKept-trans a b c (h, w, t) (h', w', t') = (h' ∙ h, w' ∙ w, t' ∙ t)

first-IsKept : (a : Answers) (vt : Target) → IsKept vt (connect_first a vt).2
unfolding connect_first IsKept
first-IsKept a vt = ground arith

second-IsKept : (a : Answers) (c : Connecting) → IsKept c.2 (connect_second a c).2
unfolding connect_second IsKept
second-IsKept a (s, time, vt) = ground arith

third-IsKept : (a : Answers) (c : Connecting) → IsKept c.2 (connect_third a c).2
unfolding connect_third IsKept
third-IsKept a (s, time, vt) = ground arith

connected-IsKept : (a : Answers) (vt : Target) → IsKept vt (connected a vt).2
unfolding connected
connected-IsKept a vt =
    let first = connect_first a vt in
    let second = connect_second a first in
    IsKept-trans vt second.2 (connect_third a second).2
      (IsKept-trans vt first.2 second.2 (first-IsKept a vt) (second-IsKept a first))
      (third-IsKept a second)

-- The answers from the second step on, after a first step that has a connection, time left or both.
reachable_from : Answers → Bool → Bool → Bool
reachable_from a s time =
    if time && not s
    then (if a.has_ipv4 then not a.late_second && (a.connects_ipv4 || third) else third)
    else time && s
  where
    third : Bool
    third = a.has_ipv6 && a.connects_ipv6_last && not a.late_third

connected-last :
    (a : Answers) (c : Connecting)
    → (connect_third a (connect_second a c)).0 && (connect_third a (connect_second a c)).1
      ≡ reachable_from a c.0 c.1
unfolding connect_second connect_third reachable_from
connected-last a (s, time, vt) = ground arith

reachable-first :
    (a : Answers) (vt : Target)
    → reachable_from a (connect_first a vt).0 (connect_first a vt).1 ≡ reachable a
unfolding connect_first reachable reachable_from
reachable-first a vt = ground arith

connected-reachable :
    (a : Answers) (vt : Target) → (connected a vt).0 && (connected a vt).1 ≡ reachable a
unfolding connected
connected-reachable a vt = connected-last a (connect_first a vt) ∙ reachable-first a vt

send-settings :
    (a : Answers) (vt : Target) (w : Write)
    → ((send a vt w).window ≡ vt.window) × ((send a vt w).threshold ≡ vt.threshold)
unfolding send
send-settings a vt short = (refl, refl)
send-settings a vt failed = (refl, refl)
send-settings a vt whole = ground arith

pub poke_lem :
    (a : Answers) (vt : Target)
    → ((poke a vt).happy ≡ (if is_good a then mark vt.happy else vt.happy))
      × ((poke a vt).window ≡ vt.window)
      × ((poke a vt).threshold ≡ vt.threshold)
unfolding poke exchange connected is_good IsKept
poke_lem a vt = ground (
  arith,
  connected-IsKept a vt,
  connected-reachable a vt,
  send-happy a (connected a vt).2 a.written,
  send-settings a (connected a vt).2 a.written,
)
