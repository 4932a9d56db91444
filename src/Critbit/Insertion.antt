-- ===== src/Critbit/Insertion.antt =====
-- hcb_insert in bin/varnishd/hash_critbit.c: what is in the tree afterwards.
use pkg_varnish.Prelude.{
  ◌≡◌, refl, sym, ap, ◌∙◌, ◌≢◌, ◌↔◌, ◌⊎◌, inl, inr, true, false, Option, none, some, arith,
  Bool-cases,
}
use pkg_varnish.Critbit.{Leaf, Tree, leaf, eq_digest, insert_new, insert_found, insert}
use pkg_varnish.Critbit.Bits.{
  dbit, IsDigest, side-dbit, crit_bit-Separates, eq_digest-≡, eq_digest_refl,
}
use pkg_varnish.Critbit.Trees.{Has, IsTree, Has-IsDigest, land, Has-land, descend-land, land-Has}
use pkg_varnish.Critbit.Placing.{place-IsAdded}

-- A root and what is in it.
abbrev pub RootHas : Option Tree → Leaf → Type 0
RootHas none q = ⊥
RootHas (some t) q = Has t q

abbrev pub IsRoot : Option Tree → Type 0
IsRoot none = Unit {0}
IsRoot (some t) = IsTree 0 t

-- The objhead of the same digest that was there, and the tree as it was; or the new one, and the tree with it.
abbrev pub IsInserted : Option Tree → Leaf → Option Leaf × Option Tree → Type 0
IsInserted root noh (found, root') =
    ((oh : Leaf) × (found ≡ some oh) × RootHas root oh × (oh.digest ≡ noh.digest) × (root' ≡ root))
    ⊎ ((found ≡ some noh)
        × ((q : Leaf) → RootHas root q → q.digest ≢ noh.digest)
        × IsRoot root'
        × ((q : Leaf) → RootHas root' q ↔ ((q ≡ noh) ⊎ RootHas root q)))

insert_new-IsInserted :
    (t : Tree) (noh : Leaf)
    → IsTree 0 t
    → IsDigest noh.digest
    → eq_digest (land t noh.digest).digest noh.digest ≡ false
    → (r : Option Leaf × Option Tree) × (insert_new t noh (land t noh.digest) ≡ some r)
      × IsInserted (some t) noh r
unfolding insert_new
insert_new-IsInserted t noh w d e =
    let z = land t noh.digest in
    let (y2, made, sep) =
      crit_bit-Separates noh.digest z.digest d (Has-IsDigest 0 t z w (Has-land t noh.digest)) e in
    let (t', placed, (w', has)) =
      place-IsAdded 0 y2 (dbit y2.critbit noh.digest) noh t w d (omega arith) refl sep in
    (
      (some noh, some t'),
      rw (made, side-dbit y2 noh.digest sep.0, placed) refl,
      inr (refl, (λ q h s. absent q h s), w', has),
    )
  where
    absent : (q : Leaf) → Has t q → q.digest ≡ noh.digest → ⊥
    absent q h s =
        let same : land t noh.digest ≡ q = ap (land t) (sym s) ∙ land-Has 0 t q w h in
        let digests : (land t noh.digest).digest ≡ noh.digest = ap (λ x. x.digest) same ∙ s in
        let found = ap (λ x. eq_digest x noh.digest) digests ∙ eq_digest_refl noh.digest in cc

-- With the lock hcb_insert fails no assertion on a well-formed tree. Where an objhead of the same
-- digest is in the tree it returns that and leaves the tree; otherwise it returns the new one, which
-- is the only leaf that the tree gains, and the tree is well formed.
pub insert-IsInserted :
    (root : Option Tree) (noh : Leaf)
    → IsRoot root
    → IsDigest noh.digest
    → (r : Option Leaf × Option Tree) × (insert true root noh ≡ some r) × IsInserted root noh r
unfolding insert insert_found
insert-IsInserted none noh w d = (
  (some noh, some (leaf noh)),
  refl,
  inr (
    refl,
    (λ q h. absurd h),
    d,
    λ q. ((λ h. inl h), λ h. elim h [ inl e ↦ e | inr n ↦ absurd n ]),
  ),
)
insert-IsInserted (some t) noh w d =
    let z = land t noh.digest in
    rw (descend-land 0 t noh.digest w) (elim (Bool-cases (eq_digest z.digest noh.digest)) [
      | inl e ↦ rw e (
        (some z, some t),
        refl,
        inl (z, refl, Has-land t noh.digest, eq_digest-≡ z.digest noh.digest e, refl),
      )
      | inr e ↦ rw e (insert_new-IsInserted t noh w d e)
    ])
