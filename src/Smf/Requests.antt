-- ===== src/Smf/Requests.antt =====
-- smf_alloc, smf_trim and smf_free of bin/varnishd/storage_file.c.
use pkg_varnish.Prelude.{
  ◌⊎◌, ◌↔◌, ℕ, ◌+◌, ◌-◌, ◌%◌, ◌^◌, ◌≤◌, ◌<◌, ◌≡◌, refl, sym, ap, ◌∙◌, ◌≢◌, inl, inr, true, false,
  Option, none, some, arith, ltb, ◌==◌, Option-cases,
}
use pkg_varnish.Prelude.Tailq.{count}
use pkg_varnish.Prelude.Adjacent.{On}
use native.Mathlib.Nat.{one-le-pow}
use pkg_varnish.Smf.{Stats, SmfSc, sub, alloc_smf}
use pkg_varnish.Smf.Storage.{
  Storage, request, round_up, given_back, refused, accounted, handed_out, smf_alloc, smf_trim,
  smf_free,
}
use pkg_varnish.Smf.Lists.{IsListed}
use pkg_varnish.Smf.Ranges.{restated, IsFree}
use pkg_varnish.Smf.Freeing.{IsSmfSc, free_smf-IsSmfSc}
use pkg_varnish.Smf.Allocating.{IsFront, alloc_smf-Allocates}
use pkg_varnish.Smf.Rounding.{round_up_bounds, round_up_least}

-- The storage is that of a range in use.
abbrev pub Holds : SmfSc → Storage → Type 0
Holds sc s =
    On sc.order s.priv
    × ((sc.smf s.priv).alloc ≡ true)
    × (s.space ≡ (sc.smf s.priv).size)
    × (s.ptr ≡ (sc.smf s.priv).ptr)

-- All other storage is still there.
abbrev pub KeepsOthers : SmfSc → SmfSc → ℕ → Type 0
KeepsOthers sc sc' sp = (t : Storage) → Holds sc t → t.priv ≢ sp → Holds sc' t

-- Pages of a power of two of bytes.
abbrev pub HasPages : SmfSc → ℕ → Type 0
HasPages sc k = (sc.pagesize ≡ 2 ^ k) × (k ≤ 32)

pub counted : (sc : SmfSc) (stats : Stats) → IsSmfSc sc → IsSmfSc record sc { stats = stats }
counted sc stats (v, m) = (restated none sc stats v, m)

-- What smf_alloc returns.
abbrev pub Gives : SmfSc → ℕ → Option Storage → SmfSc → Type 0
Gives sc size none sc' =
    (sc' ≡ record sc { stats = sc'.stats })
    × ((q : ℕ)
        → On sc.order q
        → (sc.smf q).alloc ≡ false
        → (sc.smf q).size < round_up sc.pagesize size)
Gives sc size (some s) sc' =
    Holds sc' s
    × (size ≤ s.space)
    × (s.space < size + sc.pagesize)
    × (s.len ≡ 0)
    × ((t : Storage) → Holds sc t → Holds sc' t × (t.priv ≢ s.priv))

-- No assertion fails, and the ranges and lists are as before.
abbrev pub Answers : SmfSc → ℕ → ℕ → Type 0
Answers sc size new =
    (answer : Option Storage) × (sc' : SmfSc) × (smf_alloc sc size new ≡ some (answer, sc'))
    × IsSmfSc sc'
    × Gives sc size answer sc'
    × (sc'.pagesize ≡ sc.pagesize)

abbrev pub Frees : SmfSc → Storage → Type 0
Frees sc s =
    (sc' : SmfSc) × (smf_free sc s ≡ some sc')
    × IsSmfSc sc'
    × (count s.priv sc'.used ≡ 0)
    × KeepsOthers sc sc' s.priv
    × (sc'.pagesize ≡ sc.pagesize)
    × ((p : ℕ) → IsFree sc' p ↔ (IsFree sc p ⊎ ((s.ptr ≤ p) × (p < s.ptr + s.space))))

-- The storage that is left has the start of the old. No assertion fails, and the ranges and lists
-- are as before.
abbrev pub Cuts : SmfSc → Storage → ℕ → ℕ → Type 0
Cuts sc s size new =
    (s' : Storage) × (sc' : SmfSc) × (smf_trim sc s size new ≡ some (s', sc'))
    × IsSmfSc sc'
    × Holds sc' s'
    × (s'.priv ≡ s.priv)
    × (s'.ptr ≡ s.ptr)
    × (s'.len ≡ s.len)
    × (size ≤ s'.space)
    × (s'.space < size + sc.pagesize)
    × KeepsOthers sc sc' s.priv
    × (sc'.pagesize ≡ sc.pagesize)

-- A range that stays in use and unchanged is still held.
pub held_on :
    (sc sc' : SmfSc) (t : Storage)
    → IsListed none sc
    → IsListed none sc'
    → count t.priv sc.used ≤ count t.priv sc'.used
    → sc'.smf t.priv ≡ sc.smf t.priv
    → Holds sc t
    → Holds sc' t
held_on sc sc' t v v' c e (on, a, size, ptr) =
    let u = v.in_use t.priv in
    let u' = v'.in_use t.priv in
    (
      ground arith,
      ap (λ s. s.alloc) e ∙ a,
      size ∙ ap (λ s. s.size) (sym e),
      ptr ∙ ap (λ s. s.ptr) (sym e),
    )

given :
    (sc sc' : SmfSc) (size f sp : ℕ)
    → IsSmfSc sc
    → IsSmfSc sc'
    → IsFront sc sc' (round_up sc.pagesize size) f sp
    → (stats : Stats) → size ≤ round_up sc.pagesize size
    → round_up sc.pagesize size < size + sc.pagesize
    → Gives sc size
        (some
          record { space = round_up sc.pagesize size; len = 0; ptr = (sc'.smf sp).ptr; priv = sp })
        record sc' { stats = stats }
given sc sc' size f sp (v, m) (v', m') (found, (on, e), used, same, page) stats le lt = (
  (on, ap (λ s. s.alloc) e, sym (ap (λ s. s.size) e), refl),
  le,
  lt,
  refl,
  λ t h. (
    held_on sc record sc' { stats = stats } t v (restated none sc' stats v')
        (omega (arith, used t.priv)) (same t.priv h.0 h.1) h,
    λ d.
        let u = v.in_use t.priv in
        let u' = v'.in_use t.priv in
        let c = used t.priv in
        let one : count t.priv sc.used ≡ 1 = let a = h.1 in let o = h.0 in ground arith in
        let two : count t.priv sc'.used ≡ 2 = ground arith in absurd (ground arith),
  ),
)

module _ (sc : SmfSc) (k : ℕ) (is : IsSmfSc sc) (has : HasPages sc k) (size new : ℕ)
    (some_bytes : 0 < size) (fits : size + sc.pagesize ≤ 2 ^ 32)
    (fresh : count new sc.order ≡ 0) where
  -- smf_alloc of storage_file.c: where the ranges lie one behind the other, merged where they can be,
  -- and are on the lists that they belong on, with pages of a power of two of bytes, a request of at
  -- least one byte and a size that leaves room for a page below 2^32 bytes, with a new address, fails
  -- no assertion, and the ranges and lists are as before. Either no free range is as large as the
  -- size rounded up, and only the counters change; or the storage is that of a range in use which no
  -- other storage held is of, its space is at least the size and less than a page more, and all other
  -- storage is held as before.
  pub smf_alloc-Gives : Answers sc size new
  unfolding smf_alloc request handed_out refused accounted
  smf_alloc-Gives =
      let w = 32 - k in
      let r = round_up sc.pagesize size in
      let bounds : (r % sc.pagesize ≡ 0) = rw has.0 (round_up_bounds w k (omega arith) size).0 in
      let least : (size ≤ r) × (r < size + sc.pagesize) =
        let fits' : size + 2 ^ k ≤ 2 ^ 32 = omega (arith, has.0) in
        rw has.0 (round_up_least w k (omega arith) size fits') in
      let t : ltb 0 size ≡ true = ground arith in
      let sc1 = request sc in
      elim (alloc_smf-Allocates sc1 r new (counted sc sc1.stats is) (omega arith) bounds fresh) [
        | inl (e, none_free) ↦
            (none, refused sc1, rw t (rw e refl), counted sc _ is, (refl, none_free), refl)
        | inr (sp, f, sc', e, is', front) ↦
            let s : ((sc'.smf sp).size == r) ≡ true =
              let z = ap (λ x. x.size) (front.1.1) in ground arith in
            (
              some record { space = r; len = 0; ptr = (sc'.smf sp).ptr; priv = sp },
              accounted sc' (sc'.smf sp).size,
              rw t (rw e (rw s refl)),
              counted sc' _ is',
              given sc1 sc' size f sp (counted sc sc1.stats is) is' front
                  (accounted sc' (sc'.smf sp).size).stats least.0 least.1,
              front.4,
            )
      ]

-- smf_free of storage_file.c: where the ranges lie one behind the other, merged where they can be, and
-- are on the lists that they belong on, storage that is held is given back without a failed
-- assertion. The ranges and lists are as before, and so with the neighbours merged, its range is not
-- on the used list any more, the storage of other ranges is held as before, and the bytes that are
-- free are those that were and those of the storage.
pub smf_free-Frees : (sc : SmfSc) (s : Storage) → IsSmfSc sc → Holds sc s → Frees sc s
unfolding smf_free given_back
smf_free-Frees sc s is (on, a, space, ptr) =
    let st = given_back sc.stats (sc.smf s.priv).size in
    let sc1 : SmfSc = record sc { stats = record st { g_alloc = sub st.g_alloc 1 } } in
    let (sc', e, is', used, same, page, free) =
      free_smf-IsSmfSc sc1 s.priv (counted sc sc1.stats is) on a in
    (
      sc',
      e,
      is',
      let u = used s.priv in ground arith,
      λ t h d.
          held_on sc sc' t is.0 is'.0 (let u = used t.priv in ground arith) (same t.priv d h.1) h,
      page,
      λ p. let (l, r) = free p in (λ h. rw (ptr, space) (l h), λ h. r (rw (ptr, space) at h)),
    )

short :
    (o : Option ℕ) (sc : SmfSc) (r : ℕ) {s : Storage} {sc' : SmfSc}
    → handed_out (o, sc) r ≡ some (some s, sc')
    → s.space ≡ r
unfolding handed_out
short none sc r e = cc
short (some sp) sc r e = ground arith

-- smf_alloc of storage_file.c: with pages of a power of two, at most 2^32, of bytes, the storage
-- that a request of 4 GB or more gets is smaller than the request: the mask that rounds the size to
-- pages is an unsigned and clears the bits from 32 on.
pub smf_alloc-short :
    (sc sc' : SmfSc) (k size new : ℕ) (s : Storage)
    → HasPages sc k
    → 2 ^ 32 ≤ size
    → smf_alloc sc size new ≡ some (some s, sc')
    → s.space < size
unfolding smf_alloc
smf_alloc-short sc sc' k size new s has big e =
    let r = round_up sc.pagesize size in
    let pos = one-le-pow k 2 (omega arith) in
    let below : r + sc.pagesize ≤ 2 ^ 32 =
      rw has.0 (round_up_bounds (32 - k) k (omega (arith, has.1)) size).1 in
    let t : ltb 0 size ≡ true = ground arith in
    elim (Option-cases (alloc_smf (request sc) r new)) [
      | inl out ↦ absurd (let f = rw (t, out) at e in cc)
      | inr ((o, sc1), found) ↦
          let f : handed_out (o, sc1) r ≡ some (some s, sc') = rw (t, found) at e in
          omega (arith, short o sc1 r f, has.0)
    ]
