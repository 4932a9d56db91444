-- ===== src/Critbit/Tests.antt =====
-- Runs of bin/varnishd/hash_critbit.c, and its theorems at a tree of two objheads.
use pkg_varnish.Prelude.{
  ℕ, zero, suc, ◌-◌, ◌<◌, ◌≡◌, refl, sym, ap, ◌∙◌, ◌≢◌, ◌↔◌, ◌⊎◌, inl, inr, true, false, Option,
  some, List, [], ◌∷◌, ◌++◌, arith,
}
use mathlib.Core.Path.{subst}
use pkg_varnish.Critbit.{
  Leaf, Node, Tree, leaf, fork, byte_at, xor, hcb_bittbl, hcb_bits, has_bit, first_diff, crit_bit,
  side, fork_at, descend, place, eq_digest, insert_new, insert_found, insert, delete, Hcb, lookup,
  deref,
}
use pkg_varnish.Critbit.Bits.{AllBytes, IsDigest}
use pkg_varnish.Critbit.Trees.{IsTree}
use pkg_varnish.Critbit.Insertion.{RootHas, IsRoot, IsInserted, insert-IsInserted}
use pkg_varnish.Critbit.Deletion.{delete-IsRemoved}
use pkg_varnish.Critbit.Refcounts.{IsValid, IsNew, Recounts}
use pkg_varnish.Critbit.Slinger.{IsFound, lookup-IsFound, deref-Recounts}

abbrev zeros : ℕ → List ℕ
zeros zero = []
zeros (suc n) = 0 ∷ zeros n

all_zeros : (n : ℕ) → AllBytes (zeros n)
all_zeros zero = _
all_zeros (suc n) = (omega arith, all_zeros n)

abbrev first : Leaf
first = record { addr = 1; digest = 0 ∷ zeros 31 }

abbrev second : Leaf
second = record { addr = 2; digest = 5 ∷ zeros 31 }

first-IsDigest : IsDigest first.digest
first-IsDigest = (refl, (omega arith, all_zeros 31))

second-IsDigest : IsDigest second.digest
second-IsDigest = (refl, (omega arith, all_zeros 31))

abbrev between : Node
between = record { critbit = 5; ptr = 0; bitmask = 4 }

-- The fifth bit is the first that differs.
fifth : crit_bit first.digest second.digest ≡ some between
unfolding crit_bit first_diff hcb_bits xor hcb_bittbl byte_at
fifth = refl

unequal_digests : eq_digest second.digest first.digest ≡ false
unfolding eq_digest
unequal_digests = refl

abbrev two : Tree
two = fork between (leaf first) (leaf second)

inserted : insert true (some (leaf first)) second ≡ some (some second, some two)
unfolding insert descend insert_found eq_digest insert_new crit_bit first_diff hcb_bits xor
    hcb_bittbl byte_at side has_bit place fork_at
inserted = refl

insert-IsInserted_example :
    (r : Option Leaf × Option Tree) × (insert true (some (leaf first)) second ≡ some r)
    × IsInserted (some (leaf first)) second r
insert-IsInserted_example =
    insert-IsInserted (some (leaf first)) second first-IsDigest second-IsDigest

some_inj : {A : Type 0} → (a b : A) → some a ≡ some b → a ≡ b
some_inj a b e = cc

two-IsTree : IsTree 0 two
two-IsTree =
    let (r, e, i) = insert-IsInserted (some (leaf first)) second first-IsDigest second-IsDigest in
    let same : r ≡ (some second, some two) =
      some_inj r (some second, some two) (sym e ∙ inserted) in
    elim (subst (IsInserted (some (leaf first)) second) same i) [
      | inl (oh, f, at, d, kept) ↦ absurd (changed kept)
      | inr (f, absent, w, has) ↦ w
    ]
  where
    changed : some two ≡ some (leaf first) → ⊥
    changed e = cc

delete-IsRemoved_example :
    (root' : Option Tree) × (delete (some two) second ≡ some root')
    × IsRoot root'
    × ((q : Leaf) → RootHas root' q ↔ (RootHas (some two) q × (q ≢ second)))
delete-IsRemoved_example = delete-IsRemoved (some two) second two-IsTree (inr refl)

abbrev one_there : Hcb
one_there = record { root = some (leaf first); refcnt = λ a. 1; cool_h = [] }

one_there-IsValid : IsValid one_there
one_there-IsValid = (first-IsDigest, (λ q h. omega arith), λ p q hp hq e. hp ∙ sym hq)

second-IsNew : IsNew one_there second
second-IsNew = (second-IsDigest, refl, λ q h e. absurd (differ (ap (λ p. p.addr) (sym h) ∙ e)))
  where
    differ : first.addr ≡ second.addr → ⊥
    differ e = omega arith

lookup-IsFound_example :
    (r : Leaf × Hcb) × (lookup 2 one_there second ≡ some r) × IsFound one_there second r
lookup-IsFound_example = lookup-IsFound 0 one_there second one_there-IsValid second-IsNew

deref-Recounts_example :
    (hcb' : Hcb) × (deref (λ a. []) (λ a. []) one_there first ≡ some hcb')
    × IsValid hcb'
    × Recounts one_there hcb' first.digest (λ n. n - 1)
    × (((one_there.refcnt first.addr ≡ 1)
          × ¬ (RootHas hcb'.root first)
          × (hcb'.cool_h ≡ [] ++ first.addr ∷ []))
        ⊎ ((1 < 1) × RootHas hcb'.root first × (hcb'.cool_h ≡ [])))
deref-Recounts_example =
    deref-Recounts (λ a. []) (λ a. []) one_there first (λ h. (refl, refl)) one_there-IsValid refl
