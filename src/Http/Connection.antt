-- ===== src/Http/Connection.antt =====
-- http_DoConnection of bin/varnishd/cache_http.c.
use pkg_varnish.Prelude.{
  ℕ, zero, suc, ◌+◌, ◌≤◌, ◌<◌, ◌≡◌, refl, ap, ◌∙◌, inl, inr, Bool, true, false, ◌&&◌, ◌||◌, Option,
  none, some, List, [], ◌∷◌, arith, ◌==◌, if◌then◌else◌, Bool-cases, Option-cases, length,
}
use pkg_varnish.Http.{
  Http, Line, starts_nocase, eq_nocase, line_is, find_from, find_hdr, header, set_filter,
  mark_found, tokens, Reason, connection_close, close, connection_loop, connection_of, connection,
  do_connection,
}

-- One of the tokens is `close`, in any case.
pub any_close : List (List ℕ) → Bool
any_close [] = false
any_close (t ∷ ts) = eq_nocase t close || any_close ts

same_length : (a b : List ℕ) → (length a == length b && starts_nocase a b) ≡ eq_nocase a b
unfolding starts_nocase eq_nocase
same_length [] [] = refl
same_length [] (b ∷ bs) = ground arith
same_length (a ∷ rest) [] = ground arith
same_length (a ∷ rest) (b ∷ bs) = ground (arith, same_length rest bs)

-- One round of the loop, with the test for `close` as a comparison.
loop-step :
    (t : List ℕ) (ts : List (List ℕ)) (reason : Option Reason) (hp : Http)
    → connection_loop (t ∷ ts) (reason, hp)
      ≡ connection_loop ts (
        if eq_nocase t close then some connection_close else reason,
        mark_found hp (find_hdr hp t),
      )
unfolding connection_loop
loop-step t ts reason hp =
    let next = mark_found hp (find_hdr hp t) in
    ap (λ b. connection_loop ts (if b then some connection_close else reason, next))
      (same_length t close)

later :
    (b c : Bool) (r : Option Reason)
    → (if c then some connection_close else (if b then some connection_close else r))
      ≡ (if b || c then some connection_close else r)
later true true r = refl
later true false r = refl
later false c r = refl

loop-reason :
    (ts : List (List ℕ)) (reason : Option Reason) (hp : Http)
    → (connection_loop ts (reason, hp)).0 ≡ (if any_close ts then some connection_close else reason)
unfolding connection_loop any_close
loop-reason [] reason hp = refl
loop-reason (t ∷ ts) reason hp =
    ap (λ r. r.0) (loop-step t ts reason hp)
    ∙ loop-reason ts (if eq_nocase t close then some connection_close else reason)
        (mark_found hp (find_hdr hp t))
    ∙ later (eq_nocase t close) (any_close ts) reason

is_line : Option ℕ → ℕ → Bool
is_line none u = false
is_line (some k) u = k == u

-- One of the tokens names the line at `u`, and no line before it.
pub any_names : Http → List (List ℕ) → ℕ → Bool
any_names hp [] u = false
any_names hp (t ∷ ts) u = is_line (find_hdr hp t) u || any_names hp ts u

pub is_marked : List Line → ℕ → Bool
is_marked [] u = false
is_marked (h ∷ hs) zero = h.filter
is_marked (h ∷ hs) (suc u) = is_marked hs u

find_from-set_filter :
    (name : List ℕ) (hs : List Line) (k u : ℕ)
    → find_from name (set_filter hs k) u ≡ find_from name hs u
unfolding find_from set_filter
find_from-set_filter name [] k u = refl
find_from-set_filter name (h ∷ hs) zero u = refl
find_from-set_filter name (h ∷ hs) (suc k) u = rw (find_from-set_filter name hs k (u + 1)) refl

find_hdr-mark_found :
    (hp : Http) (r : Option ℕ) (name : List ℕ) → find_hdr (mark_found hp r) name ≡ find_hdr hp name
unfolding find_hdr mark_found
find_hdr-mark_found hp none name = refl
find_hdr-mark_found hp (some k) name = find_from-set_filter name hp.lines k 0

find_from_le :
    (name : List ℕ) (hs : List Line) (u k : ℕ)
    → find_from name hs u ≡ some k
    → (u ≤ k) × (k < u + length hs)
unfolding find_from
find_from_le name [] u k e = absurd cc
find_from_le name (h ∷ hs) u k e = elim (Bool-cases (line_is name h.text)) [
  | inl here ↦ let f : some u ≡ some k = ground arith in ground arith
  | inr later_on ↦
      let f : find_from name hs (u + 1) ≡ some k = ground arith in
      let (lo, hi) = find_from_le name hs (u + 1) k f in (omega arith, omega arith)
]

is_marked-set_filter :
    (hs : List Line) (k u : ℕ)
    → k < length hs
    → is_marked (set_filter hs k) u ≡ (k == u || is_marked hs u)
unfolding is_marked set_filter
is_marked-set_filter [] k u h = absurd (omega arith)
is_marked-set_filter (x ∷ hs) zero zero h = refl
is_marked-set_filter (x ∷ hs) zero (suc u) h = ground arith
is_marked-set_filter (x ∷ hs) (suc k) zero h = ground arith
is_marked-set_filter (x ∷ hs) (suc k) (suc u) h =
    ground (arith, is_marked-set_filter hs k u (omega arith))

find_hdr_lt : (hp : Http) (name : List ℕ) (k : ℕ) → find_hdr hp name ≡ some k → k < length hp.lines
unfolding find_hdr
find_hdr_lt hp name k e = omega (arith, (find_from_le name hp.lines 0 k e).1)

mark_found-is_marked :
    (hp : Http) (name : List ℕ) (u : ℕ)
    → is_marked (mark_found hp (find_hdr hp name)).lines u
      ≡ (is_line (find_hdr hp name) u || is_marked hp.lines u)
unfolding mark_found is_line
mark_found-is_marked hp name u = elim (Option-cases (find_hdr hp name)) [
  | inl e ↦ rw e refl
  | inr (k, e) ↦ rw e (is_marked-set_filter hp.lines k u (find_hdr_lt hp name k e))
]

any_names-mark_found :
    (hp : Http) (r : Option ℕ) (ts : List (List ℕ)) (u : ℕ)
    → any_names (mark_found hp r) ts u ≡ any_names hp ts u
unfolding any_names
any_names-mark_found hp r [] u = refl
any_names-mark_found hp r (t ∷ ts) u =
    rw (find_hdr-mark_found hp r t, any_names-mark_found hp r ts u) refl

swap : (a b c : Bool) → (a || (b || c)) ≡ ((b || a) || c)
swap true true c = refl
swap true false c = refl
swap false true c = refl
swap false false c = refl

loop-marks :
    (ts : List (List ℕ)) (reason : Option Reason) (hp : Http) (u : ℕ)
    → is_marked (connection_loop ts (reason, hp)).1.lines u
      ≡ (any_names hp ts u || is_marked hp.lines u)
unfolding connection_loop any_names
loop-marks [] reason hp u = refl
loop-marks (t ∷ ts) reason hp u =
    let next = mark_found hp (find_hdr hp t) in
    let ih = loop-marks ts (if eq_nocase t close then some connection_close else reason) next u in
    let n = any_names-mark_found hp (find_hdr hp t) ts u in
    let m = mark_found-is_marked hp t u in
    ap (λ r. is_marked r.1.lines u) (loop-step t ts reason hp)
    ∙ ih
    ∙ rw (n, m) (swap (any_names hp ts u) (is_line (find_hdr hp t) u) (is_marked hp.lines u))

-- Where the message has a Connection header, http_DoConnection gives `Connection: close` as the reason
-- to close exactly where one of the header's tokens is `close`, in any case, and no reason otherwise;
-- it marks for filtering the first line that each token names, and leaves the other marks.
pub do_connection_lem :
    (hp : Http) (p : List ℕ) (u : ℕ)
    → header hp connection ≡ some p
    → ((do_connection hp).0 ≡ (if any_close (tokens [] p) then some connection_close else none))
      × (is_marked (do_connection hp).1.lines u
          ≡ (any_names hp (tokens [] p) u || is_marked hp.lines u))
unfolding do_connection connection_of
do_connection_lem hp p u e =
    (rw e (loop-reason (tokens [] p) none hp), rw e (loop-marks (tokens [] p) none hp u))
