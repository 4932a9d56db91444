-- ===== src/Hash/Rush.antt =====
-- hsh_rush in bin/varnishd/cache_hash.c: which of the waiting sessions it queues.
use pkg_varnish.Prelude.{
  ◌<◌, ◌∙◌, ℕ, zero, suc, ◌+◌, ◌≤◌, ◌≡◌, refl, ap, ◌⊎◌, inl, inr, Bool, true, false, List, [], ◌∷◌,
  ◌++◌, arith, Bool-cases, length, length-append,
}
use pkg_varnish.Hash.{Objhead, Rushed, queue_first, rush_loop, rush}

module _ (queue_fails : ℕ → Bool) where
  queue_first-fail :
      (next : List ℕ → Rushed) (sp : ℕ) (wl : List ℕ) (e : ℕ)
      → queue_fails sp ≡ true
      → queue_first queue_fails e next sp wl
        ≡ record { queued = []; dropped = sp ∷ []; waiting = wl }
  unfolding queue_first
  queue_first-fail next sp wl e f = rw f refl

  queue_first-queue :
      (next : List ℕ → Rushed) (sp : ℕ) (wl : List ℕ) (e : ℕ)
      → queue_fails sp ≡ false
      → queue_first queue_fails e next sp wl ≡ record {
        queued = sp ∷ (next wl).queued;
        dropped = (next wl).dropped;
        waiting = (next wl).waiting;
      }
  unfolding queue_first
  queue_first-queue next sp wl e f = rw f refl

  -- The sessions come off the list in their order.
  abbrev pub InOrder : Rushed → List ℕ → Type 0
  InOrder r wl = r.queued ++ r.dropped ++ r.waiting ≡ wl

  -- No more than `u` of them.
  abbrev pub AtMost : ℕ → Rushed → Type 0
  AtMost u r = length r.queued + length r.dropped ≤ u

  -- One is left only where `u` are queued or one was dropped.
  abbrev pub Enough : ℕ → Rushed → Type 0
  Enough u r = (r.waiting ≡ []) ⊎ ((length r.queued ≡ u) ⊎ (length r.dropped ≡ 1))

  abbrev pub IsRush : ℕ → List ℕ → Rushed → Type 0
  IsRush u wl r = InOrder r wl × AtMost u r × Enough u r

  rush_loop-IsRush : (e u : ℕ) (wl : List ℕ) → IsRush u wl (rush_loop queue_fails e u wl)
  unfolding rush_loop
  rush_loop-IsRush e zero wl = (refl, omega arith, inr (inl refl))
  rush_loop-IsRush e (suc u) [] = (refl, omega arith, inl refl)
  rush_loop-IsRush e (suc u) (sp ∷ wl) = elim (Bool-cases (queue_fails sp)) [
    | inl f ↦
        rw (queue_first-fail (rush_loop queue_fails e u) sp wl e f)
          (refl, omega arith, inr (inr refl))
    | inr f ↦
        let (o, m, enough) = rush_loop-IsRush e u wl in
        rw (queue_first-queue (rush_loop queue_fails e u) sp wl e f)
          (ap (λ t. sp ∷ t) o, omega arith, enough_more (rush_loop queue_fails e u wl) enough)
  ]
    where
      enough_more :
          (r : Rushed)
          → Enough u r
          → (r.waiting ≡ []) ⊎ ((suc (length r.queued) ≡ suc u) ⊎ (length r.dropped ≡ 1))
      enough_more r (inl n) = inl n
      enough_more r (inr (inl n)) = inr (inl (ap suc n))
      enough_more r (inr (inr n)) = inr (inr n)

  -- hsh_rush takes sessions off the front of the waiting list, in their order, and no more than
  -- `rush_exponent` of them; it leaves one there only where it queued that many or could not queue
  -- one, which is dropped. Nothing else of the objhead changes.
  pub rush-IsRush :
      (rush_exponent : ℕ) (oh : Objhead)
      → IsRush rush_exponent oh.waitinglist (rush queue_fails rush_exponent oh).0
        × ((rush queue_fails rush_exponent oh).1
            ≡ record oh { waitinglist = (rush queue_fails rush_exponent oh).0.waiting })
  unfolding rush
  rush-IsRush rush_exponent oh = (rush_loop-IsRush rush_exponent rush_exponent oh.waitinglist, refl)

InOrder-length :
    (queue_fails : ℕ → Bool) (r : Rushed) (wl : List ℕ)
    → InOrder queue_fails r wl
    → length r.queued + length r.dropped + length r.waiting ≡ length wl
InOrder-length queue_fails r wl o =
    let all = length-append (r.queued ++ r.dropped) r.waiting in
    let rest = length-append r.queued r.dropped in
    let sum : length r.queued + length r.dropped + length r.waiting
        ≡ length (r.queued ++ r.dropped ++ r.waiting) =
      omega (arith, all, rest) in
    sum ∙ ap length o

pub rush-length :
    (queue_fails : ℕ → Bool) (rush_exponent : ℕ) (oh : Objhead)
    → length (rush queue_fails rush_exponent oh).0.queued
        + length (rush queue_fails rush_exponent oh).0.dropped
        + length (rush queue_fails rush_exponent oh).0.waiting
      ≡ length oh.waitinglist
rush-length queue_fails rush_exponent oh =
    let ((o, m, enough), same) = rush-IsRush queue_fails rush_exponent oh in
    InOrder-length queue_fails (rush queue_fails rush_exponent oh).0 oh.waitinglist o

rush_loop-dropped :
    (queue_fails : ℕ → Bool) (e u : ℕ) (wl : List ℕ)
    → ((sp : ℕ) → queue_fails sp ≡ false)
    → (rush_loop queue_fails e u wl).dropped ≡ []
unfolding rush_loop
rush_loop-dropped queue_fails e zero wl ok = refl
rush_loop-dropped queue_fails e (suc u) [] ok = refl
rush_loop-dropped queue_fails e (suc u) (sp ∷ wl) ok =
    ap (λ r. r.dropped) (queue_first-queue queue_fails (rush_loop queue_fails e u) sp wl e (ok sp))
    ∙ rush_loop-dropped queue_fails e u wl ok

-- Where no session fails to be queued, one that is left waiting has one queued before it.
pub rush-wakes :
    (queue_fails : ℕ → Bool) (rush_exponent : ℕ) (oh : Objhead)
    → 0 < rush_exponent
    → ((sp : ℕ) → queue_fails sp ≡ false)
    → 0 < length (rush queue_fails rush_exponent oh).0.waiting
    → 0 < length (rush queue_fails rush_exponent oh).0.queued
unfolding rush
rush-wakes queue_fails rush_exponent oh some_rush ok w =
    let r = rush_loop queue_fails rush_exponent rush_exponent oh.waitinglist in
    by_enough r (rush-IsRush queue_fails rush_exponent oh).0.2
      (rush_loop-dropped queue_fails rush_exponent rush_exponent oh.waitinglist ok) w
  where
    by_enough :
        (r : Rushed)
        → Enough queue_fails rush_exponent r
        → r.dropped ≡ []
        → 0 < length r.waiting
        → 0 < length r.queued
    by_enough r (inl n) d w = absurd (omega (arith, ap length n))
    by_enough r (inr (inl q)) d w = omega arith
    by_enough r (inr (inr x)) d w = absurd (omega (arith, ap length d))
