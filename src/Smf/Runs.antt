-- ===== src/Smf/Runs.antt =====
-- What the clients of bin/varnishd/storage_file.c do, one request after the other.
use pkg_varnish.Prelude.{
  ℕ, ◌+◌, ◌^◌, ◌≤◌, ◌<◌, ◌≡◌, sym, ◌∙◌, ◌≢◌, ◌⊎◌, inl, inr, Option, some, List, [], ◌∷◌, arith,
  ◌==◌, Bool-cases,
}
use pkg_varnish.Smf.Cutting.{smf_trim-Cuts}
use mathlib.Core.Path.{subst}
use pkg_varnish.Prelude.Tailq.{count}
use pkg_varnish.Prelude.Adjacent.{Adjacent}
use pkg_varnish.Smf.{SmfSc}
use pkg_varnish.Smf.Storage.{Storage, smf_alloc, smf_trim, smf_free}
use pkg_varnish.Smf.Ranges.{IsBefore, AreMerged}
use pkg_varnish.Smf.Freeing.{IsSmfSc}
use pkg_varnish.Smf.Requests.{Holds, HasPages, smf_alloc-Gives, smf_free-Frees}

-- A request that a client may make: of less than 4 GB, and for storage that it holds.
pub data Step (sc : SmfSc) : SmfSc → Type 0 where
  allocs :
      (size new : ℕ) {answer : Option Storage} {sc' : SmfSc}
      → 0 < size
      → size + sc.pagesize ≤ 2 ^ 32
      → count new sc.order ≡ 0
      → smf_alloc sc size new ≡ some (answer, sc')
      → Step sc sc'
  trims :
      (s : Storage) (size new : ℕ) {s' : Storage} {sc' : SmfSc}
      → Holds sc s
      → 0 < size
      → size ≤ s.space
      → size + sc.pagesize ≤ 2 ^ 32
      → count new sc.order ≡ 0
      → smf_trim sc s size new ≡ some (s', sc')
      → Step sc sc'
  frees : (s : Storage) {sc' : SmfSc} → Holds sc s → smf_free sc s ≡ some sc' → Step sc sc'

pub data Reach (sc : SmfSc) : SmfSc → Type 0 where
  here : Reach sc sc
  after : {sc' sc'' : SmfSc} → Reach sc sc' → Step sc' sc'' → Reach sc sc''

-- No two share a byte.
abbrev pub AreDisjoint : Storage → Storage → Type 0
AreDisjoint s t = (s.ptr + s.space ≤ t.ptr) ⊎ (t.ptr + t.space ≤ s.ptr)

module _ (sc : SmfSc) where
  first-IsBefore :
      (x y : ℕ) (l : List ℕ) → Adjacent (AreMerged sc) (x ∷ l) → 1 ≤ count y l → IsBefore sc x y
  unfolding count
  first-IsBefore x y [] a c = absurd (omega arith)
  first-IsBefore x y (z ∷ zs) (r, a) c = elim (Bool-cases (z == y)) [
    | inl at_y ↦ let e : z ≡ y = ground arith in subst (IsBefore sc x) e r.0
    | inr further ↦ omega (arith, first-IsBefore z y zs a (ground arith))
  ]

  one-IsBefore :
      (x y : ℕ) (l : List ℕ)
      → Adjacent (AreMerged sc) l
      → 1 ≤ count x l
      → 1 ≤ count y l
      → x ≢ y
      → IsBefore sc x y ⊎ IsBefore sc y x
  unfolding count
  one-IsBefore x y [] a c d ne = absurd (omega arith)
  one-IsBefore x y (z ∷ zs) a c d ne = elim (Bool-cases (z == x)) [
    | inl at_x ↦
        let e : z ≡ x = ground arith in
        inl (subst (λ t. IsBefore sc t y) e (first-IsBefore z y zs a (ground arith)))
    | inr other ↦ elim (Bool-cases (z == y)) [
      | inl at_y ↦
          let e : z ≡ y = ground arith in
          inr (subst (λ t. IsBefore sc t x) e (first-IsBefore z x zs a (ground arith)))
      | inr further ↦ one-IsBefore x y zs a.1 (ground arith) (ground arith) ne
    ]
  ]

  Holds-AreDisjoint :
      (s t : Storage) → IsSmfSc sc → Holds sc s → Holds sc t → s.priv ≢ t.priv → AreDisjoint s t
  Holds-AreDisjoint s t (v, m) (on, a, size, ptr) (on', a', size', ptr') ne =
      let b = one-IsBefore s.priv t.priv sc.order m (omega (arith, on)) (omega (arith, on')) ne in
      ground arith

same_state :
    {A : Type 0} {a b : A} {sc sc' : SmfSc} {r : Option (A × SmfSc)}
    → r ≡ some (a, sc)
    → r ≡ some (b, sc')
    → sc ≡ sc'
same_state e f = cc

some-inj : {a b : SmfSc} → ◌≡◌ {A = Option SmfSc} (some a) (some b) → a ≡ b
some-inj h = cc

Step-IsSmfSc :
    (k : ℕ) {sc sc' : SmfSc}
    → IsSmfSc sc
    → HasPages sc k
    → Step sc sc'
    → IsSmfSc sc' × HasPages sc' k
Step-IsSmfSc k {sc} is has (allocs size new pos fits fresh e) =
    let (answer, sc1, e1, is1, gives, page) = smf_alloc-Gives sc k is has size new pos fits fresh in
    subst (λ z. IsSmfSc z × HasPages z k) (same_state e1 e) (is1, (page ∙ has.0, has.1))
Step-IsSmfSc k {sc} is has (trims s size new holds pos le fits fresh e) =
    let cuts = smf_trim-Cuts sc k s is has holds size new pos le fits fresh in
    subst (λ z. IsSmfSc z × HasPages z k) (same_state cuts.2 e) (cuts.3, (cuts.11 ∙ has.0, has.1))
Step-IsSmfSc k {sc} is has (frees s holds e) =
    let (sc1, e1, is1, gone, keeps, page, _) = smf_free-Frees sc s is holds in
    subst (λ z. IsSmfSc z × HasPages z k) (some-inj (sym e1 ∙ e)) (is1, (page ∙ has.0, has.1))

Reach-IsSmfSc :
    (k : ℕ) {sc sc' : SmfSc}
    → IsSmfSc sc
    → HasPages sc k
    → Reach sc sc'
    → IsSmfSc sc' × HasPages sc' k
Reach-IsSmfSc k is has here = (is, has)
Reach-IsSmfSc k is has (after r st) =
    let (is', has') = Reach-IsSmfSc k is has r in Step-IsSmfSc k is' has' st

-- storage_file.c: from ranges that lie one behind the other, merged where they can be and on the
-- lists that they belong on, of pages of a power of two, at most 2^32, of bytes, whatever storage
-- clients allocate, trim and free, each request of a size that leaves room for a page below 2^32
-- bytes, with new addresses and for storage that is held, storage of different ranges in use never
-- shares a byte.
pub Reach-AreDisjoint :
    (k : ℕ) (sc sc' : SmfSc) (s t : Storage)
    → IsSmfSc sc
    → HasPages sc k
    → Reach sc sc'
    → Holds sc' s
    → Holds sc' t
    → s.priv ≢ t.priv
    → AreDisjoint s t
Reach-AreDisjoint k sc sc' s t is has r = Holds-AreDisjoint sc' s t (Reach-IsSmfSc k is has r).0
