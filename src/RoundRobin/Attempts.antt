-- ===== src/RoundRobin/Attempts.antt =====
-- vdi_round_robin_getfd of bin/varnishd/cache_dir_round_robin.c tries the hosts in order.
use pkg_varnish.Prelude.{
  ℕ, suc, ◌≤◌, ◌≡◌, refl, sym, ap, ◌∙◌, Bool, true, false, Option, none, some, List, [], ◌∷◌, arith,
  length,
}
use pkg_varnish.RoundRobin.{RoundRobin, advance, visit, visit_if, return_or, getfd_loop, getfd}
use pkg_varnish.RoundRobin.Trail.{
  IsValid, order, moved, moved_all, advanced, Trail, mode-Trail, mode-advanced, length-order,
}

module _ {W B C : Type 0} (vdi_healthy : B → W → Bool × W) (vdi_getfd : B → W → Option C × W) where
  attempt_or : (W → Option C × ℕ × W) → Option C × W → Option C × ℕ × W
  attempt_or next (some vbe, w) = (some vbe, 1, w)
  attempt_or next (none, w) = let (c, n, w') = next w in (c, suc n, w')

  -- Try these hosts one after the other until one gives a connection: the connection, the number of
  -- hosts tried, and the state after.
  pub attempt : List B → W → Option C × ℕ × W
  attempt [] w = (none, 0, w)
  attempt (b ∷ bs) w = attempt_or (attempt bs) (visit vdi_healthy vdi_getfd b w)

  attempt_le : (bs : List B) (w : W) → (attempt bs w).1 ≤ length bs
  unfolding attempt attempt_or
  attempt_le [] w = omega arith
  attempt_le (b ∷ bs) w = answered (visit vdi_healthy vdi_getfd b w) (attempt_le bs)
    where
      answered :
          (r : Option C × W)
          → ((w' : W) → (attempt bs w').1 ≤ length bs)
          → (attempt_or (attempt bs) r).1 ≤ suc (length bs)
      answered (some c, w') ih = omega arith
      answered (none, w') ih = omega (arith, ih w')

  loop-attempt :
      (bs : List B) (vs : RoundRobin B) (w : W)
      → Trail vs bs
      → getfd_loop vdi_healthy vdi_getfd (length bs) vs w
        ≡ some ((attempt bs w).0, advanced (attempt bs w).1 vs, (attempt bs w).2)
  unfolding getfd_loop attempt attempt_or return_or Trail advanced
  loop-attempt [] vs w t = refl
  loop-attempt (b ∷ bs) vs w (here, t) =
      rw here (
        answered (visit vdi_healthy vdi_getfd b w)
          (λ w'. loop-attempt bs (advance vs vs.mode) w' t))
    where
      answered :
          (r : Option C × W)
          → ((w' : W)
              → getfd_loop vdi_healthy vdi_getfd (length bs) (advance vs vs.mode) w'
                ≡ some (
                  (attempt bs w').0,
                  advanced (attempt bs w').1 (advance vs vs.mode),
                  (attempt bs w').2,
                ))
          → return_or vdi_healthy vdi_getfd
              (advance vs vs.mode)
              (getfd_loop vdi_healthy vdi_getfd (length bs) (advance vs vs.mode))
              r
            ≡ some (
              (attempt_or (attempt bs) r).0,
              advanced (attempt_or (attempt bs) r).1 vs,
              (attempt_or (attempt bs) r).2,
            )
      answered (some c, w') ih = refl
      answered (none, w') ih = ih w'

  -- On a director with hosts whose next host is one of them, vdi_round_robin_getfd tries each host at
  -- most once, from the next host round the circle, or from the first where it is a fallback, until one
  -- is healthy and gives a connection; the next host is the one after the last that was tried, or the
  -- same where it is a fallback. It reads no host that is not there.
  pub getfd-attempt :
      (vs : RoundRobin B) (w : W)
      → IsValid vs
      → getfd vdi_healthy vdi_getfd vs w
        ≡ some
            ((attempt (order vs) w).0, moved vs (attempt (order vs) w).1, (attempt (order vs) w).2)
  unfolding getfd order moved
  getfd-attempt vs w (n, lt) =
      let len = length-order vs (n, lt) in
      let l = loop-attempt (order vs) vs w (mode-Trail vs.mode vs n lt) in
      let le = attempt_le (order vs) w in
      let m = mode-advanced vs.mode vs (attempt (order vs) w).1 lt (omega arith) in
      ap (λ rounds. getfd_loop vdi_healthy vdi_getfd rounds vs w) (sym len)
      ∙ l
      ∙ ap (λ vs'. some ((attempt (order vs) w).0, vs', (attempt (order vs) w).2)) m

  -- A host that says it is sick, in every state.
  abbrev pub IsSick : B → Type 0
  IsSick b = (w : W) → (vdi_healthy b w).0 ≡ false

  abbrev pub AllSick : List B → Type 0
  AllSick [] = Unit {0}
  AllSick (b ∷ bs) = IsSick b × AllSick bs

  pub attempt-AllSick :
      (bs : List B) (w : W)
      → AllSick bs
      → ((attempt bs w).0 ≡ none) × ((attempt bs w).1 ≡ length bs)
  unfolding attempt visit attempt_or visit_if
  attempt-AllSick [] w s = (refl, refl)
  attempt-AllSick (b ∷ bs) w (here, s) =
      answered (vdi_healthy b w) (here w) (λ w'. attempt-AllSick bs w' s)
    where
      answered :
          (h : Bool × W)
          → h.0 ≡ false
          → ((w' : W) → ((attempt bs w').0 ≡ none) × ((attempt bs w').1 ≡ length bs))
          → ((attempt_or (attempt bs) (visit_if vdi_healthy vdi_getfd b h)).0 ≡ none)
            × ((attempt_or (attempt bs) (visit_if vdi_healthy vdi_getfd b h)).1 ≡ suc (length bs))
      answered (false, w') e ih = let (n, l) = ih w' in (n, ap suc l)
      answered (true, w') e ih = absurd cc

  -- Where every host says that it is sick, vdi_round_robin_getfd gives no connection, and the next
  -- host is the same as before.
  pub getfd-AllSick :
      (vs : RoundRobin B) (w : W)
      → IsValid vs
      → AllSick (order vs)
      → getfd vdi_healthy vdi_getfd vs w ≡ some (none, vs, (attempt (order vs) w).2)
  getfd-AllSick vs w valid sick =
      let (none_found, tries) = attempt-AllSick (order vs) w sick in
      let e : moved vs (attempt (order vs) w).1 ≡ vs =
        rw (tries, length-order vs valid) (moved_all vs valid) in
      getfd-attempt vs w valid
      ∙ ap (λ r. some (r, moved vs (attempt (order vs) w).1, (attempt (order vs) w).2)) none_found
      ∙ ap (λ vs'. some (none, vs', (attempt (order vs) w).2)) e
