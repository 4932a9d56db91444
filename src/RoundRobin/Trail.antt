-- ===== src/RoundRobin/Trail.antt =====
-- The hosts that the loop of vdi_round_robin_getfd in bin/varnishd/cache_dir_round_robin.c looks at.
use pkg_varnish.Prelude.{
  ℕ, zero, suc, ◌+◌, ◌-◌, ◌%◌, ◌≤◌, ◌<◌, ◌≡◌, refl, sym, ap, ◌∙◌, inl, inr, some, List, [], ◌∷◌,
  ◌++◌, arith, ltb, if◌then◌else◌, ltb→lt, Bool-cases, length, get_elem?, take, drop, length-append,
  length-take_le, get_elem?-append_left, get_elem?-append_right, get_elem?-drop, get_elem?-take,
  length-drop_le,
}
use pkg_varnish.RoundRobin.{Mode, round_robin, fallback, RoundRobin, place, advance}
use native.Mathlib.Nat.{mod_self, mod-eq_of_lt}
use mathlib.Core.List.{append_assoc}

-- A place that is less than twice round the circle of `n`.
abbrev pub wrap : ℕ → ℕ → ℕ
wrap n x = if ltb x n then x else (x - n)

next_mod : (n next : ℕ) → next < n → (next + 1) % n ≡ wrap n (next + 1)
next_mod n next h = elim (Bool-cases (ltb (next + 1) n)) [
  | inl lt ↦ rw lt (mod-eq_of_lt (ltb→lt (next + 1) n lt))
  | inr ge ↦
      let e : next + 1 ≡ n = ground arith in
      let z : next + 1 - n ≡ 0 = omega arith in rw (ge, z, e) (mod_self n)
]

module _ {B : Type 0} where
  -- It has hosts, and the next one is one of them.
  abbrev pub IsValid : RoundRobin B → Type 0
  IsValid vs = (vs.nhosts ≡ length vs.hosts) × (vs.next_host < vs.nhosts)

  unfoldable pub order_of : Mode → ℕ → List B → List B
  order_of round_robin next hosts = drop next hosts ++ take next hosts
  order_of fallback next hosts = hosts

  -- The hosts in the order in which they are tried.
  unfoldable pub order : RoundRobin B → List B
  order vs = order_of vs.mode vs.next_host vs.hosts

  unfoldable pub moved_by : Mode → RoundRobin B → ℕ → RoundRobin B
  moved_by round_robin vs tries = record vs { next_host = wrap vs.nhosts (vs.next_host + tries) }
  moved_by fallback vs tries = vs

  -- The director after so many tries.
  unfoldable pub moved : RoundRobin B → ℕ → RoundRobin B
  moved vs tries = moved_by vs.mode vs tries

  At : List B → ℕ → List B → Type 0
  At hosts next bs =
      (j : ℕ) → j < length bs → get_elem? hosts (wrap (length hosts) (next + j)) ≡ get_elem? bs j

  order-At :
      (hosts : List B) (next : ℕ)
      → next ≤ length hosts
      → At hosts next (drop next hosts ++ take next hosts)
  unfolding At
  order-At hosts next h j lt =
      let d = length-drop_le next hosts h in
      let t = length-take_le next hosts h in
      let a = length-append (drop next hosts) (take next hosts) in
      elim (Bool-cases (ltb (next + j) (length hosts))) [
        | inl before ↦
            let b = ltb→lt (next + j) (length hosts) before in
            rw before (
              sym (
                get_elem?-append_left (drop next hosts) (take next hosts) j (omega arith)
                ∙ get_elem?-drop next hosts j))
        | inr after ↦
            let b : length hosts ≤ next + j = ground arith in
            let i = next + j - length hosts in
            let e : j ≡ length (drop next hosts) + i = omega arith in
            rw after (
              sym (
                ap (get_elem? (drop next hosts ++ take next hosts)) e
                ∙ get_elem?-append_right (drop next hosts) (take next hosts) i
                ∙ get_elem?-take next hosts i (omega arith)))
      ]

  unfoldable pub advanced : ℕ → RoundRobin B → RoundRobin B
  advanced zero vs = vs
  advanced (suc n) vs = advanced n (advance vs vs.mode)

  -- The hosts that the loop looks at, one after the other.
  unfoldable pub Trail : RoundRobin B → List B → Type 0
  Trail vs [] = Unit {0}
  Trail vs (b ∷ bs) =
      (get_elem? vs.hosts (place vs vs.mode (vs.nhosts - suc (length bs))) ≡ some b)
      × Trail (advance vs vs.mode) bs

  circle-Trail :
      (bs : List B) (vs : RoundRobin B)
      → vs.nhosts ≡ length vs.hosts
      → vs.next_host < vs.nhosts
      → length bs ≤ vs.nhosts
      → At vs.hosts vs.next_host bs
      → Trail (record vs { mode = round_robin }) bs
  unfolding Trail place advance At
  circle-Trail [] vs n lt le at = tt
  circle-Trail (b ∷ bs) vs n lt le at =
      let e : wrap (length vs.hosts) (vs.next_host + 0) ≡ vs.next_host = ground arith in
      let next = next_mod vs.nhosts vs.next_host lt in
      (
        ap (get_elem? vs.hosts) (sym e) ∙ at 0 (omega arith),
        circle-Trail bs (record vs { next_host = (vs.next_host + 1) % vs.nhosts }) n
            (rw next (ground arith)) (omega arith)
            (λ j h.
              let same : wrap (length vs.hosts) ((vs.next_host + 1) % vs.nhosts + j)
                  ≡ wrap (length vs.hosts) (vs.next_host + suc j) =
                rw next (ground arith) in
              ap (get_elem? vs.hosts) same ∙ at (suc j) (omega arith)),
      )

  line-Trail :
      (vs : RoundRobin B) (tried bs : List B)
      → vs.nhosts ≡ length vs.hosts
      → vs.hosts ≡ tried ++ bs
      → Trail (record vs { mode = fallback }) bs
  unfolding Trail place advance
  line-Trail vs tried [] n e = tt
  line-Trail vs tried (b ∷ bs) n e =
      let a = length-append tried (b ∷ bs) in
      let l : length vs.hosts ≡ length (tried ++ b ∷ bs) = ap length e in
      let k : vs.nhosts - suc (length bs) ≡ length tried + 0 = omega arith in
      (
        ap (get_elem? vs.hosts) k
            ∙ ap (λ hosts. get_elem? hosts (length tried + 0)) e
            ∙ get_elem?-append_right tried (b ∷ bs) 0,
        line-Trail vs (tried ++ b ∷ []) bs n (e ∙ sym (append_assoc tried (b ∷ []) bs)),
      )

  advanced-circle :
      (tries : ℕ) (vs : RoundRobin B)
      → vs.next_host < vs.nhosts
      → tries ≤ vs.nhosts
      → advanced tries (record vs { mode = round_robin })
        ≡ moved_by round_robin (record vs { mode = round_robin }) tries
  unfolding advanced advance moved_by
  advanced-circle zero vs lt le =
      let e : vs.next_host ≡ wrap vs.nhosts (vs.next_host + 0) = ground arith in
      ap (λ next. record vs { mode = round_robin; next_host = next }) e
  advanced-circle (suc tries) vs lt le =
      let next = next_mod vs.nhosts vs.next_host lt in
      let e : wrap vs.nhosts ((vs.next_host + 1) % vs.nhosts + tries)
          ≡ wrap vs.nhosts (vs.next_host + suc tries) =
        rw next (ground arith) in
      advanced-circle tries (record vs { next_host = (vs.next_host + 1) % vs.nhosts })
        (rw next (ground arith)) (omega arith)
      ∙ ap (λ next. record vs { mode = round_robin; next_host = next }) e

  advanced-line :
      (tries : ℕ) (vs : RoundRobin B)
      → advanced tries (record vs { mode = fallback }) ≡ record vs { mode = fallback }
  unfolding advanced advance
  advanced-line zero vs = refl
  advanced-line (suc tries) vs = advanced-line tries vs

  pub mode-Trail :
      (m : Mode) (vs : RoundRobin B)
      → vs.nhosts ≡ length vs.hosts
      → vs.next_host < vs.nhosts
      → Trail (record vs { mode = m }) (order_of m vs.next_host vs.hosts)
  unfolding order_of Trail
  mode-Trail round_robin vs n lt =
      let all = drop vs.next_host vs.hosts ++ take vs.next_host vs.hosts in
      let d = length-drop_le vs.next_host vs.hosts (omega arith) in
      let t = length-take_le vs.next_host vs.hosts (omega arith) in
      let a = length-append (drop vs.next_host vs.hosts) (take vs.next_host vs.hosts) in
      circle-Trail all vs n lt (omega arith) (order-At vs.hosts vs.next_host (omega arith))
  mode-Trail fallback vs n p = line-Trail vs [] vs.hosts n refl

  pub mode-advanced :
      (m : Mode) (vs : RoundRobin B) (tries : ℕ)
      → vs.next_host < vs.nhosts
      → tries ≤ vs.nhosts
      → advanced tries (record vs { mode = m }) ≡ moved_by m (record vs { mode = m }) tries
  unfolding moved_by advanced
  mode-advanced round_robin vs tries lt le = advanced-circle tries vs lt le
  mode-advanced fallback vs tries p le = advanced-line tries vs

  -- The next host is one of the hosts, after any number of tries up to all of them.
  pub moved-IsValid :
      (vs : RoundRobin B) (tries : ℕ) → IsValid vs → tries ≤ vs.nhosts → IsValid (moved vs tries)
  unfolding moved moved_by
  moved-IsValid vs tries valid le = by_mode vs.mode valid le
    where
      by_mode : (m : Mode) → IsValid vs → tries ≤ vs.nhosts → IsValid (moved_by m vs tries)
      by_mode round_robin (n, lt) h = (n, ground arith)
      by_mode fallback v h = v

  -- All the hosts are tried at most once.
  pub length-order : (vs : RoundRobin B) → IsValid vs → length (order vs) ≡ vs.nhosts
  unfolding order order_of
  length-order vs (n, lt) = by_mode vs.mode
    where
      by_mode : (m : Mode) → length (order_of m vs.next_host vs.hosts) ≡ vs.nhosts
      by_mode round_robin =
          let d = length-drop_le vs.next_host vs.hosts (omega arith) in
          let t = length-take_le vs.next_host vs.hosts (omega arith) in
          let a = length-append (drop vs.next_host vs.hosts) (take vs.next_host vs.hosts) in
          omega arith
      by_mode fallback = sym n

  -- Once round the circle is back at the start.
  pub moved_all : (vs : RoundRobin B) → IsValid vs → moved vs vs.nhosts ≡ vs
  unfolding moved moved_by
  moved_all vs (n, lt) = by_mode vs.mode
    where
      by_mode : (m : Mode) → moved_by m (record vs { mode = m }) vs.nhosts ≡ record vs { mode = m }
      by_mode round_robin =
          let e : wrap vs.nhosts (vs.next_host + vs.nhosts) ≡ vs.next_host = ground arith in
          ap (λ next. record vs { mode = round_robin; next_host = next }) e
      by_mode fallback = refl
