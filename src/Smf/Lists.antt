-- ===== src/Smf/Lists.antt =====
-- The lists of bin/varnishd/storage_file.c: which ranges are on which, and insfree and remfree.
use pkg_varnish.Prelude.{
  ℕ, ◌+◌, ◌*◌, ◌%◌, ◌≤◌, ◌<◌, ◌≡◌, refl, sym, ap, ◌∙◌, ◌≢◌, inl, inr, true, false, not, ◌&&◌,
  Option, none, some, List, [], ◌∷◌, arith, ltb, leb, ◌==◌, if◌then◌else◌, ==_iff, Bool-cases,
}
use pkg_varnish.Prelude.Cells.{write}
use pkg_varnish.Prelude.Tailq.{count}
use pkg_varnish.Prelude.Adjacent.{On, IsOnce}
use pkg_varnish.Smf.{Smf, SmfSc, bucket, is_at, is_none, count_in, place, insfree}

-- The free list that a range belongs on.
unfoldable pub home : ℕ → Smf → Option ℕ
home page s = if s.alloc then none else some (bucket page s.size)

-- Each range is a number of pages and stands in the order once; those in use are on the list of used
-- ranges, and each other but the one named is on the free list of its size.
pub record IsListed (but : Option ℕ) (sc : SmfSc) : Type 0 where
  pub page : 0 < sc.pagesize
  pub once : IsOnce sc.order
  pub sized : (q : ℕ) → On sc.order q → (0 < (sc.smf q).size) × ((sc.smf q).size % sc.pagesize ≡ 0)
  pub in_use :
      (q : ℕ) → count q sc.used ≡ (if count q sc.order == 1 && (sc.smf q).alloc then 1 else 0)
  pub on_free :
      (q b : ℕ)
      → count q (sc.free b) ≡ (if count q sc.order == 1 && is_at (sc.smf q).flist b then 1 else 0)
  pub homed :
      (q : ℕ) → On sc.order q → but ≢ some q → (sc.smf q).flist ≡ home sc.pagesize (sc.smf q)

-- A free range that is in the order and on no free list.
abbrev pub IsLoose : SmfSc → ℕ → Type 0
IsLoose sc sp =
    IsListed (some sp) sc
    × On sc.order sp
    × ((sc.smf sp).alloc ≡ false)
    × ((sc.smf sp).flist ≡ none)

abbrev pub placed : SmfSc → ℕ → List ℕ → SmfSc
placed sc sp l =
    let b = bucket sc.pagesize (sc.smf sp).size in
    record sc {
      smf = write sc.smf sp record (sc.smf sp) { flist = some b };
      free = write sc.free b l;
      stats = count_in sc (sc.smf sp).size;
    }

place_lem :
    (smf : ℕ → Smf) (ns b sp : ℕ) (l : List ℕ)
    → ((q : ℕ)
        → 1 ≤ count q l
        → (leb ns (smf q).size && not (smf q).alloc && is_at (smf q).flist b) ≡ true)
    → (l' : List ℕ) × (place smf ns b sp l ≡ some l')
      × ((q : ℕ) → count q l' ≡ count q l + (if q == sp then 1 else 0))
unfolding place count
place_lem smf ns b sp [] ok = (sp ∷ [], refl, λ q. ground arith)
place_lem smf ns b sp (x ∷ xs) ok =
    let e = ok x (ground arith) in
    let (l', f, c) = place_lem smf ns b sp xs (λ q h. ok q (ground arith)) in
    elim (Bool-cases (ltb (smf sp).offset (smf x).offset)) [
      | inl here ↦ (sp ∷ x ∷ xs, rw (e, here) refl, λ q. ground arith)
      | inr further ↦ (x ∷ l', rw (e, further, f) refl, λ q. let d = c q in ground arith)
    ]

bucket-le : (page size : ℕ) → 0 < page → bucket page size * page ≤ size
unfolding bucket
bucket-le page size h = grind arith

is_at_eq : (o : Option ℕ) (b : ℕ) → is_at o b ≡ true → o ≡ some b
unfolding is_at
is_at_eq none b h = cc
is_at_eq (some c) b h = ground arith

none-ne-some : {b : ℕ} → ◌≡◌ {A = Option ℕ} none (some b) → ⊥
none-ne-some h = cc

some-inj : {a b : ℕ} → ◌≡◌ {A = Option ℕ} (some a) (some b) → b ≡ a
some-inj h = cc

-- What is on a free list is free and of the size of the list.
on_free_lem :
    {but : Option ℕ} {sc : SmfSc}
    → IsListed but sc
    → (q b : ℕ) → 1 ≤ count q (sc.free b)
    → (On sc.order q) × ((sc.smf q).flist ≡ some b)
on_free_lem {sc} v q b h =
    let f = v.on_free q b in
    let at : is_at (sc.smf q).flist b ≡ true = ground arith in
    (ground arith, is_at_eq (sc.smf q).flist b at)

home_lem :
    (page : ℕ) (s : Smf) (b : ℕ)
    → home page s ≡ some b
    → (s.alloc ≡ false) × (bucket page s.size ≡ b)
unfolding home
home_lem page s b h = ground arith

pub IsFree-lem :
    {but : Option ℕ} {sc : SmfSc}
    → IsListed but sc
    → (q b : ℕ) → but ≢ some q
    → 1 ≤ count q (sc.free b)
    → (On sc.order q) × ((sc.smf q).alloc ≡ false) × (bucket sc.pagesize (sc.smf q).size ≡ b)
IsFree-lem {sc} v q b n h =
    let (on, at) = on_free_lem v q b h in
    let (fr, size) = home_lem sc.pagesize (sc.smf q) b (sym (v.homed q on n) ∙ at) in (on, fr, size)

insfree_eq :
    (sc : SmfSc) (sp : ℕ) (l : List ℕ)
    → (sc.smf sp).alloc ≡ false
    → (sc.smf sp).flist ≡ none
    → place
        (placed sc sp l).smf
        (bucket sc.pagesize (sc.smf sp).size * sc.pagesize)
        (bucket sc.pagesize (sc.smf sp).size)
        sp
        (sc.free (bucket sc.pagesize (sc.smf sp).size))
      ≡ some l
    → insfree sc sp ≡ some (placed sc sp l)
unfolding insfree is_none
insfree_eq sc sp l a n e =
    let t : (not (sc.smf sp).alloc && is_none (sc.smf sp).flist) ≡ true = rw (a, n) refl in
    rw t (rw e refl)

pub insfree-IsListed :
    (sc : SmfSc) (sp : ℕ)
    → IsLoose sc sp
    → (l : List ℕ) × (insfree sc sp ≡ some (placed sc sp l)) × IsListed none (placed sc sp l)
unfolding insfree write is_none is_at home
insfree-IsListed sc sp (v, on, free, loose) =
    let b = bucket sc.pagesize (sc.smf sp).size in
    let smf = write sc.smf sp record (sc.smf sp) { flist = some b } in
    let (l, e, c) = place_lem smf (b * sc.pagesize) b sp (sc.free b) (λ q h.
      let (on', at) = on_free_lem v q b h in
      let ne : q ≢ sp = (λ t. none-ne-some (sym loose ∙ ap (λ k. (sc.smf k).flist) (sym t) ∙ at)) in
      let apart : (q == sp) ≡ false = ground arith in
      let (_, fr, size) = IsFree-lem v q b (λ t. ne (some-inj t)) h in
      let le = bucket-le sc.pagesize (sc.smf q).size v.page in
      rw apart (rw (fr, at) (ground arith))) in
    (
      l,
      insfree_eq sc sp l free loose e,
      record {
        page = v.page;
        once = v.once;
        sized = λ q h. let s = v.sized q h in ground arith;
        in_use = λ q. let u = v.in_use q in ground arith;
        on_free = λ q d. let f = v.on_free q d in let f' = c q in ground arith;
        homed = λ q h n. let f = v.homed q h in ground (arith, ==_iff q sp);
      },
    )
