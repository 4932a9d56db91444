-- ===== src/Critbit/Slinger.antt =====
-- hcb_lookup and hcb_deref in bin/varnishd/hash_critbit.c, against a count of references per digest.
use pkg_varnish.Prelude.{
  ℕ, suc, ◌+◌, ◌-◌, ◌<◌, ◌≡◌, refl, sym, ◌≢◌, ◌⊎◌, inl, inr, Bool, true, false, Option, some, List,
  [], ◌∷◌, ◌++◌, arith, ltb, ◌==◌, ==_iff, Bool-cases,
}
use mathlib.Core.Path.{subst}
use pkg_varnish.Critbit.{Leaf, Tree, Hcb, set_refcnt, lookup_turn, lookup_loop, lookup, deref}
use pkg_varnish.Critbit.Insertion.{RootHas, IsInserted, insert-IsInserted}
use pkg_varnish.Critbit.Deletion.{delete-IsRemoved}
use pkg_varnish.Critbit.Refcounts.{
  IsValid, IsNew, unlocked, Recounts, counted, counted-IsValid, counted-Recounts, grown-IsValid,
  grown-Recounts, shrunk, shrunk-IsValid, shrunk-Recounts,
}

-- The result of a lookup: an objhead in the tree of the digest asked for, one reference more on that
-- digest, and none more or less on any other.
abbrev pub IsFound : Hcb → Leaf → Leaf × Hcb → Type 0
IsFound hcb noh (oh, hcb') =
    IsValid hcb'
    × RootHas hcb'.root oh
    × (oh.digest ≡ noh.digest)
    × Recounts hcb hcb' noh.digest suc

abbrev Found : Hcb → Leaf → Option (Leaf × Hcb) → Type 0
Found hcb noh result = (r : Leaf × Hcb) × (result ≡ some r) × IsFound hcb noh r

unequal : (a b : ℕ) → a ≢ b → (a == b) ≡ false
unequal a b ne = elim (Bool-cases (a == b)) [ inl e ↦ absurd (ne ((==_iff a b).0 e)) | inr e ↦ e ]

positive : (n : ℕ) → 0 < n → ltb 0 n ≡ true
positive n h = ground arith

present-Found :
    (again : Bool → Hcb → Option (Leaf × Hcb)) (hcb : Hcb) (noh oh : Leaf)
    → IsValid hcb
    → IsNew hcb noh
    → RootHas hcb.root oh
    → oh.digest ≡ noh.digest
    → Found hcb noh (lookup_turn again false hcb noh (some oh))
unfolding lookup_turn counted
present-Found again hcb noh oh valid is_new at same =
    let v = hcb.refcnt oh.addr + 1 in
    let other : (oh.addr == noh.addr) ≡ false = unequal oh.addr noh.addr (is_new.2 oh at) in
    let held : ltb 0 (hcb.refcnt oh.addr) ≡ true = positive (hcb.refcnt oh.addr) (valid.1 oh at) in
    let recounts = counted-Recounts hcb oh v valid at suc (omega arith) in
    rw (other, held)
      (
        (oh, record hcb { refcnt = set_refcnt hcb.refcnt oh.addr v }),
        refl,
        (
          counted-IsValid hcb oh v valid at (omega arith),
          at,
          same,
          subst (λ d. Recounts hcb (record hcb { refcnt = set_refcnt hcb.refcnt oh.addr v }) d suc)
              same recounts,
        ),
      )

added-Found :
    (again : Bool → Hcb → Option (Leaf × Hcb)) (hcb : Hcb) (noh : Leaf) (found : Option Leaf)
    (root' : Option Tree)
    → IsValid hcb
    → IsNew hcb noh
    → ((q : Leaf) → RootHas hcb.root q → q.digest ≢ noh.digest)
    → IsInserted hcb.root noh (found, root')
    → Found hcb noh (lookup_turn again true (record hcb { root = root' }) noh found)
unfolding lookup_turn
added-Found again hcb noh found root' valid is_new absent (inl (oh, f, at, same, kept)) =
    absurd (absent oh at same)
added-Found again hcb noh found root' valid is_new absent (inr (f, none_there, w', has)) =
    let same : (noh.addr == noh.addr) ≡ true = (==_iff noh.addr noh.addr).1 refl in
    let held : ltb 0 (hcb.refcnt noh.addr) ≡ true =
      positive (hcb.refcnt noh.addr) (subst (λ n. 0 < n) (sym is_new.1) (omega arith)) in
    rw (f, same, held)
      (
        (noh, record hcb { root = root' }),
        refl,
        (
          grown-IsValid hcb noh root' valid is_new absent w' has,
          (has noh).1 (inl refl),
          refl,
          grown-Recounts hcb noh root' valid is_new absent w' has,
        ),
      )

locked-Found :
    (fuel : ℕ) (hcb : Hcb) (noh : Leaf)
    → IsValid hcb
    → IsNew hcb noh
    → ((q : Leaf) → RootHas hcb.root q → q.digest ≢ noh.digest)
    → Found hcb noh (lookup_loop (suc fuel) true hcb noh)
unfolding lookup_loop
locked-Found fuel hcb noh valid is_new absent =
    let ((found, root'), made, inserted) = insert-IsInserted hcb.root noh valid.0 is_new.0 in
    let one : (hcb.refcnt noh.addr == 1) ≡ true = (==_iff (hcb.refcnt noh.addr) 1).1 is_new.1 in
    rw (one, made)
      (added-Found (λ w h. lookup_loop fuel w h noh) hcb noh found root' valid is_new absent
        inserted)

-- On a valid tree, and with a new objhead of one reference, hcb_lookup needs two rounds at most. It
-- fails no assertion and returns an objhead of the digest asked for, which is in the tree; that digest
-- has one reference more, and all others as many as before.
pub lookup-IsFound :
    (fuel : ℕ) (hcb : Hcb) (noh : Leaf)
    → IsValid hcb
    → IsNew hcb noh
    → (r : Leaf × Hcb) × (lookup (suc (suc fuel)) hcb noh ≡ some r) × IsFound hcb noh r
unfolding lookup lookup_loop lookup_turn
lookup-IsFound fuel hcb noh valid is_new = elim (unlocked hcb.root noh valid.0) [
  | inl (oh, e, at, same) ↦
      rw e (present-Found (λ w h. lookup_loop (suc fuel) w h noh) hcb noh oh valid is_new at same)
  | inr (e, absent) ↦ rw e (locked-Found fuel hcb noh valid is_new absent)
]

-- hcb_deref of an objhead in a valid tree, which has no objcore and no waiting session where the
-- reference is its last one, fails no assertion. Its digest has one reference less, and all others as
-- many as before; the objhead leaves the tree, and goes to those to be freed, exactly with its last
-- reference.
pub deref-Recounts :
    (objcs waitinglist : ℕ → List ℕ) (hcb : Hcb) (oh : Leaf)
    → (hcb.refcnt oh.addr ≡ 1 → (objcs oh.addr ≡ []) × (waitinglist oh.addr ≡ []))
    → IsValid hcb
    → RootHas hcb.root oh
    → (hcb' : Hcb) × (deref objcs waitinglist hcb oh ≡ some hcb')
      × IsValid hcb'
      × Recounts hcb hcb' oh.digest (λ n. n - 1)
      × (((hcb.refcnt oh.addr ≡ 1)
            × ¬ (RootHas hcb'.root oh)
            × (hcb'.cool_h ≡ hcb.cool_h ++ oh.addr ∷ []))
          ⊎ ((1 < hcb.refcnt oh.addr) × RootHas hcb'.root oh × (hcb'.cool_h ≡ hcb.cool_h)))
unfolding deref counted shrunk
deref-Recounts objcs waitinglist hcb oh empty valid at =
    let held = positive (hcb.refcnt oh.addr) (valid.1 oh at) in
    elim (Bool-cases (hcb.refcnt oh.addr - 1 == 0)) [
      | inl z ↦
          let (root', gone, w', has) = delete-IsRemoved hcb.root oh valid.0 at in
          let last : hcb.refcnt oh.addr ≡ 1 = ground arith in
          let cool = hcb.cool_h ++ oh.addr ∷ [] in
          let (no_objcs, no_waiting) = empty last in
          rw (held, z, gone, no_objcs, no_waiting)
            (
              shrunk hcb oh root' cool valid at w' has,
              refl,
              shrunk-IsValid hcb oh root' cool valid at w' has,
              shrunk-Recounts hcb oh root' cool valid at w' has last,
              inl (last, (λ h. ((has oh).0 h).1 refl), refl),
            )
      | inr z ↦
          let more : 1 < hcb.refcnt oh.addr = ground arith in
          let v = hcb.refcnt oh.addr - 1 in
          rw (held, z)
            (
              counted hcb oh v valid at,
              refl,
              counted-IsValid hcb oh v valid at (omega (arith, more)),
              counted-Recounts hcb oh v valid at (λ n. n - 1) refl,
              inr (more, at, refl),
            )
    ]
