-- ===== src/Critbit/Refcounts.antt =====
-- bin/varnishd/hash_critbit.c: the references of the objheads in the tree, counted by digest.
use pkg_varnish.Prelude.{
  ℕ, suc, ◌-◌, ◌<◌, ◌≡◌, refl, sym, ap, ◌∙◌, ◌≢◌, ◌↔◌, ◌⊎◌, inl, inr, false, Option, none, some,
  List, arith, ◌==◌, if◌then◌else◌, ==_iff, Bool-cases,
}
use mathlib.Core.Path.{subst}
use pkg_varnish.Critbit.{Leaf, Tree, eq_digest, insert_found, insert, Hcb, set_refcnt}
use pkg_varnish.Critbit.Bits.{IsDigest, eq_digest-≡, eq_digest_refl}
use pkg_varnish.Critbit.Trees.{Has, land, Has-land, descend-land, land-Has, Has-unique}
use pkg_varnish.Critbit.Insertion.{RootHas, IsRoot}

-- The tree is well formed, each objhead in it is referenced, and no two have the same address.
abbrev pub IsValid : Hcb → Type 0
IsValid hcb =
    IsRoot hcb.root
    × ((q : Leaf) → RootHas hcb.root q → 0 < hcb.refcnt q.addr)
    × ((p q : Leaf) → RootHas hcb.root p → RootHas hcb.root q → p.addr ≡ q.addr → p ≡ q)

-- A new objhead: one reference, and another address than those in the tree.
abbrev pub IsNew : Hcb → Leaf → Type 0
IsNew hcb noh =
    IsDigest noh.digest
    × (hcb.refcnt noh.addr ≡ 1)
    × ((q : Leaf) → RootHas hcb.root q → q.addr ≢ noh.addr)

-- The objhead of this digest has so many references, or there is none and the count is zero.
abbrev pub Refs : Hcb → List ℕ → ℕ → Type 0
Refs hcb d n =
    ((q : Leaf) × RootHas hcb.root q × (q.digest ≡ d) × (hcb.refcnt q.addr ≡ n))
    ⊎ (((q : Leaf) → RootHas hcb.root q → q.digest ≢ d) × (n ≡ 0))

-- Without the lock hcb_insert only looks.
pub unlocked :
    (root : Option Tree) (noh : Leaf)
    → IsRoot root
    → ((oh : Leaf) × (insert false root noh ≡ some (some oh, root))
        × RootHas root oh
        × (oh.digest ≡ noh.digest))
      ⊎ ((insert false root noh ≡ some (none, root))
          × ((q : Leaf) → RootHas root q → q.digest ≢ noh.digest))
unfolding insert insert_found
unlocked none noh w = inr (refl, λ q h. absurd h)
unlocked (some t) noh w = elim (Bool-cases (eq_digest (land t noh.digest).digest noh.digest)) [
  | inl e ↦ inl (
    land t noh.digest,
    rw (descend-land 0 t noh.digest w, e) refl,
    Has-land t noh.digest,
    eq_digest-≡ (land t noh.digest).digest noh.digest e,
  )
  | inr e ↦ inr (rw (descend-land 0 t noh.digest w, e) refl, λ q h s. absent q h s e)
]
  where
    absent :
        (q : Leaf)
        → Has t q
        → q.digest ≡ noh.digest
        → eq_digest (land t noh.digest).digest noh.digest ≡ false
        → ⊥
    absent q h s e =
        let same : land t noh.digest ≡ q = ap (land t) (sym s) ∙ land-Has 0 t q w h in
        let found =
          ap (λ x. eq_digest x noh.digest) (ap (λ x. x.digest) same ∙ s)
          ∙ eq_digest_refl noh.digest in
        cc

root_unique :
    (root : Option Tree) (p q : Leaf)
    → IsRoot root
    → RootHas root p
    → RootHas root q
    → p.digest ≡ q.digest
    → p ≡ q
root_unique none p q w hp hq e = absurd hp
root_unique (some t) p q w hp hq e = Has-unique 0 t p q w hp hq e

set_refcnt-same : (refcnt : ℕ → ℕ) (a v : ℕ) → set_refcnt refcnt a v a ≡ v
unfolding set_refcnt
set_refcnt-same refcnt a v = rw ((==_iff a a).1 refl) refl

set_refcnt-other : (refcnt : ℕ → ℕ) (a v b : ℕ) → b ≢ a → set_refcnt refcnt a v b ≡ refcnt b
unfolding set_refcnt
set_refcnt-other refcnt a v b ne = elim (Bool-cases (b == a)) [
  | inl e ↦ absurd (ne ((==_iff b a).0 e))
  | inr e ↦ rw e refl
]

-- The count of one digest goes from `n` to `m`, and the others stay.
abbrev pub Recounts : Hcb → Hcb → List ℕ → (ℕ → ℕ) → Type 0
Recounts hcb hcb' digest change =
    (d : List ℕ) (n : ℕ) → Refs hcb d n → Refs hcb' d (if eq_digest d digest then change n else n)

-- An objhead that was found, with its references set.
module _ (hcb : Hcb) (oh : Leaf) (v : ℕ) (valid : IsValid hcb) (at : RootHas hcb.root oh) where
  unfoldable pub counted : Hcb
  counted = record hcb { refcnt = set_refcnt hcb.refcnt oh.addr v }

  pub counted-IsValid : 0 < v → IsValid counted
  unfolding counted
  counted-IsValid pos = let (w, held, distinct) = valid in (w, λ q h. by_addr q h, distinct)
    where
      apart : (q : Leaf) → (q.addr == oh.addr) ≡ false → q.addr ≢ oh.addr
      apart q e s = cc ((==_iff q.addr oh.addr).1 s)

      by_addr : (q : Leaf) → RootHas hcb.root q → 0 < set_refcnt hcb.refcnt oh.addr v q.addr
      by_addr q h = elim (Bool-cases (q.addr == oh.addr)) [
        | inl e ↦
            let same =
              ap (set_refcnt hcb.refcnt oh.addr v) ((==_iff q.addr oh.addr).0 e)
              ∙ set_refcnt-same hcb.refcnt oh.addr v in
            subst (λ n. 0 < n) (sym same) pos
        | inr e ↦
            let same = set_refcnt-other hcb.refcnt oh.addr v q.addr (apart q e) in
            subst (λ n. 0 < n) (sym same) (valid.1 q h)
      ]

  pub counted-Recounts :
      (change : ℕ → ℕ) → v ≡ change (hcb.refcnt oh.addr) → Recounts hcb counted oh.digest change
  unfolding counted
  counted-Recounts change e d n r = elim (Bool-cases (eq_digest d oh.digest)) [
    | inl t ↦ rw t (same_digest (eq_digest-≡ d oh.digest t) r)
    | inr f ↦ rw f (other_digest f r)
  ]
    where
      same_digest :
          d ≡ oh.digest
          → Refs hcb d n
          → Refs (record hcb { refcnt = set_refcnt hcb.refcnt oh.addr v }) d (change n)
      same_digest de (inl (q, h, dq, rq)) =
          let same = root_unique hcb.root q oh valid.0 h at (dq ∙ de) in
          let had : hcb.refcnt oh.addr ≡ n = ap (λ p. hcb.refcnt p.addr) (sym same) ∙ rq in
          inl (oh, at, sym de, set_refcnt-same hcb.refcnt oh.addr v ∙ e ∙ ap change had)
      same_digest de (inr (absent, z)) = absurd (absent oh at (sym de))

      apart :
          eq_digest d oh.digest ≡ false
          → (q : Leaf) → RootHas hcb.root q
          → q.digest ≡ d
          → q.addr ≢ oh.addr
      apart f q h dq s =
          let same : q ≡ oh = valid.2 q oh h at s in
          let de : d ≡ oh.digest = sym dq ∙ ap (λ p. p.digest) same in
          let t = ap (eq_digest d) (sym de) ∙ eq_digest_refl d in cc

      other_digest :
          eq_digest d oh.digest ≡ false
          → Refs hcb d n
          → Refs (record hcb { refcnt = set_refcnt hcb.refcnt oh.addr v }) d n
      other_digest f (inl (q, h, dq, rq)) =
          inl (q, h, dq, set_refcnt-other hcb.refcnt oh.addr v q.addr (apart f q h dq) ∙ rq)
      other_digest f (inr absent) = inr absent

-- A new objhead in the tree.
module _ (hcb : Hcb) (noh : Leaf) (root' : Option Tree) (valid : IsValid hcb)
    (is_new : IsNew hcb noh) (absent : (q : Leaf) → RootHas hcb.root q → q.digest ≢ noh.digest)
    (w' : IsRoot root')
    (has : (q : Leaf) → RootHas root' q ↔ ((q ≡ noh) ⊎ RootHas hcb.root q)) where
  pub grown-IsValid : IsValid (record hcb { root = root' })
  grown-IsValid =
      (w', λ q h. held q ((has q).0 h), λ p q hp hq e. distinct p q ((has p).0 hp) ((has q).0 hq) e)
    where
      held : (q : Leaf) → (q ≡ noh) ⊎ RootHas hcb.root q → 0 < hcb.refcnt q.addr
      held q (inl e) =
          subst (λ p. 0 < hcb.refcnt p.addr) (sym e)
            (subst (λ n. 0 < n) (sym is_new.1) (omega arith))
      held q (inr h) = valid.1 q h

      distinct :
          (p q : Leaf)
          → (p ≡ noh) ⊎ RootHas hcb.root p
          → (q ≡ noh) ⊎ RootHas hcb.root q
          → p.addr ≡ q.addr
          → p ≡ q
      distinct p q (inl ep) (inl eq) e = ep ∙ sym eq
      distinct p q (inl ep) (inr h) e = absurd (is_new.2 q h (sym e ∙ ap (λ x. x.addr) ep))
      distinct p q (inr h) (inl eq) e = absurd (is_new.2 p h (e ∙ ap (λ x. x.addr) eq))
      distinct p q (inr hp) (inr hq) e = valid.2 p q hp hq e

  pub grown-Recounts : Recounts hcb (record hcb { root = root' }) noh.digest suc
  grown-Recounts d n r = elim (Bool-cases (eq_digest d noh.digest)) [
    | inl t ↦ rw t (same_digest (eq_digest-≡ d noh.digest t) r)
    | inr f ↦ rw f (other_digest f r)
  ]
    where
      same_digest : d ≡ noh.digest → Refs hcb d n → Refs (record hcb { root = root' }) d (suc n)
      same_digest de (inl (q, h, dq, rq)) = absurd (absent q h (dq ∙ de))
      same_digest de (inr (none_there, z)) =
          inl (noh, (has noh).1 (inl refl), sym de, is_new.1 ∙ ap suc (sym z))

      gone : eq_digest d noh.digest ≡ false → noh.digest ≢ d
      gone f e = let t = ap (eq_digest d) e ∙ eq_digest_refl d in cc

      other_digest :
          eq_digest d noh.digest ≡ false → Refs hcb d n → Refs (record hcb { root = root' }) d n
      other_digest f (inl (q, h, dq, rq)) = inl (q, (has q).1 (inr h), dq, rq)
      other_digest f (inr (none_there, z)) = inr (
        (λ q h. elim ((has q).0 h) [
          | inl e ↦ λ dq. gone f (ap (λ x. x.digest) (sym e) ∙ dq)
          | inr old ↦ none_there q old
        ]),
        z,
      )

-- An objhead taken from the tree.
module _ (hcb : Hcb) (oh : Leaf) (root' : Option Tree) (cool_h : List ℕ) (valid : IsValid hcb)
    (at : RootHas hcb.root oh) (w' : IsRoot root')
    (has : (q : Leaf) → RootHas root' q ↔ (RootHas hcb.root q × (q ≢ oh))) where
  unfoldable pub shrunk : Hcb
  shrunk = record {
    root = root';
    refcnt = set_refcnt hcb.refcnt oh.addr (hcb.refcnt oh.addr - 1);
    cool_h = cool_h;
  }

  kept :
      (q : Leaf)
      → RootHas root' q
      → set_refcnt hcb.refcnt oh.addr (hcb.refcnt oh.addr - 1) q.addr ≡ hcb.refcnt q.addr
  kept q h =
      let (old, ne) = (has q).0 h in
      set_refcnt-other hcb.refcnt oh.addr (hcb.refcnt oh.addr - 1) q.addr
        (λ s. ne (valid.2 q oh old at s))

  pub shrunk-IsValid : IsValid shrunk
  unfolding shrunk
  shrunk-IsValid = (
    w',
    λ q h. subst (λ n. 0 < n) (sym (kept q h)) (valid.1 q ((has q).0 h).0),
    λ p q hp hq e. valid.2 p q ((has p).0 hp).0 ((has q).0 hq).0 e,
  )

  pub shrunk-Recounts : hcb.refcnt oh.addr ≡ 1 → Recounts hcb shrunk oh.digest (λ n. n - 1)
  unfolding shrunk
  shrunk-Recounts last d n r = elim (Bool-cases (eq_digest d oh.digest)) [
    | inl t ↦ rw t (same_digest (eq_digest-≡ d oh.digest t) r)
    | inr f ↦ rw f (other_digest f r)
  ]
    where
      none_left : d ≡ oh.digest → (q : Leaf) → RootHas root' q → q.digest ≢ d
      none_left de q h dq =
          let (old, ne) = (has q).0 h in ne (root_unique hcb.root q oh valid.0 old at (dq ∙ de))

      same_digest : d ≡ oh.digest → Refs hcb d n → Refs shrunk d (n - 1)
      same_digest de (inl (q, h, dq, rq)) =
          let same = root_unique hcb.root q oh valid.0 h at (dq ∙ de) in
          let one : n ≡ 1 = sym rq ∙ ap (λ p. hcb.refcnt p.addr) same ∙ last in
          inr (none_left de, omega arith)
      same_digest de (inr (absent, z)) = absurd (absent oh at (sym de))

      differs : eq_digest d oh.digest ≡ false → d ≢ oh.digest
      differs f e = let t = ap (eq_digest d) (sym e) ∙ eq_digest_refl d in cc

      other_digest : eq_digest d oh.digest ≡ false → Refs hcb d n → Refs shrunk d n
      other_digest f (inl (q, h, dq, rq)) =
          let there = (has q).1 (h, λ e. differs f (sym dq ∙ ap (λ p. p.digest) e)) in
          inl (q, there, dq, kept q there ∙ rq)
      other_digest f (inr (absent, z)) = inr ((λ q h. absent q ((has q).0 h).0), z)
