-- ===== src/Smf/Choosing.antt =====
-- The search of alloc_smf of bin/varnishd/storage_file.c for a free range.
use pkg_varnish.Prelude.{
  ℕ, zero, suc, ◌+◌, ◌-◌, ◌/◌, ◌%◌, ◌≤◌, ◌<◌, ◌≡◌, refl, sym, ◌∙◌, inl, inr, true, false, Option,
  none, some, List, [], ◌∷◌, arith, ltb, leb, ◌==◌, ltb→lt, Bool-cases, Option-cases,
}
use native.Mathlib.Nat.{mul-le-mul_right, div-add-mod'}
use mathlib.Core.Path.{subst}
use pkg_varnish.Prelude.Tailq.{count, first}
use pkg_varnish.Prelude.Adjacent.{On}
use pkg_varnish.Smf.{nbucket, Smf, SmfSc, bucket, first_free, large_enough, choose, is_at, or_else}
use pkg_varnish.Smf.Lists.{home, IsListed, IsFree-lem}

-- What the search of the buckets from `b` on finds.
abbrev Found : (ℕ → List ℕ) → ℕ → ℕ → Option ℕ → Type 0
Found free n b none = (q k : ℕ) → b ≤ k → k < b + n → count q (free k) ≡ 0
Found free n b (some sp) = (k : ℕ) × (b ≤ k) × (k < b + n) × (1 ≤ count sp (free k))

first_free-none :
    (free : ℕ → List ℕ) (n b : ℕ)
    → first (free b) ≡ none
    → first_free free (suc n) b ≡ first_free free n (b + 1)
unfolding first_free or_else
first_free-none free n b e = ground arith

first_free-some :
    (free : ℕ → List ℕ) (n b sp : ℕ)
    → first (free b) ≡ some sp
    → first_free free (suc n) b ≡ some sp
unfolding first_free or_else
first_free-some free n b sp e = ground arith

first_free-Found : (free : ℕ → List ℕ) (n b : ℕ) → Found free n b (first_free free n b)
unfolding first_free
first_free-Found free zero b = λ q k h l. absurd (omega arith)
first_free-Found free (suc n) b = elim (Option-cases (first (free b))) [
  | inl e ↦
      subst (Found free (suc n) b) (sym (first_free-none free n b e))
        (further (first_free free n (b + 1)) (first_free-Found free n (b + 1)) e)
  | inr (sp, e) ↦
      subst (Found free (suc n) b) (sym (first_free-some free n b sp e))
        (b, omega arith, omega arith, has_first sp (free b) e)
]
  where
    has_first : (sp : ℕ) (l : List ℕ) → first l ≡ some sp → 1 ≤ count sp l
    has_first sp [] e = unfold first in cc
    has_first sp (x ∷ xs) e = unfold first count in ground arith

    is_empty : (q : ℕ) (l : List ℕ) → first l ≡ none → count q l ≡ 0
    is_empty q [] e = unfold count in refl
    is_empty q (x ∷ xs) e = unfold first in cc

    further :
        (o : Option ℕ) → Found free n (b + 1) o → first (free b) ≡ none → Found free (suc n) b o
    further none f e = λ q k h l. elim (Bool-cases (k == b)) [
      | inl here ↦ let kb : b ≡ k = ground arith in rw (← kb) (is_empty q (free b) e)
      | inr other ↦ f q k (ground arith) (ground arith)
    ]
    further (some sp) (k, h, l, c) e = (k, omega arith, omega arith, c)

abbrev IsLargeEnough : (ℕ → Smf) → ℕ → List ℕ → Option ℕ → Type 0
IsLargeEnough smf bytes l none = (q : ℕ) → 1 ≤ count q l → (smf q).size < bytes
IsLargeEnough smf bytes l (some sp) = (1 ≤ count sp l) × (bytes ≤ (smf sp).size)

large_enough_lem :
    (smf : ℕ → Smf) (bytes : ℕ) (l : List ℕ) → IsLargeEnough smf bytes l (large_enough smf bytes l)
unfolding large_enough count
large_enough_lem smf bytes [] = λ q h. absurd (omega arith)
large_enough_lem smf bytes (x ∷ xs) = elim (Bool-cases (leb bytes (smf x).size)) [
  | inl here ↦ rw here (ground arith, ground arith)
  | inr small ↦ rw small (further (large_enough smf bytes xs) (large_enough_lem smf bytes xs) small)
]
  where
    further :
        (o : Option ℕ)
        → IsLargeEnough smf bytes xs o
        → leb bytes (smf x).size ≡ false
        → IsLargeEnough smf bytes (x ∷ xs) o
    further none f e = λ q h. elim (Bool-cases (x == q)) [
      | inl here ↦ let xq : x ≡ q = ground arith in rw (← xq) (ground arith)
      | inr other ↦ f q (ground arith)
    ]
    further (some sp) (c, le) e = (omega arith, le)

-- A number of pages and its bucket.
bucket_lem :
    (page size : ℕ)
    → (bucket page size < nbucket)
      × (bucket page size ≤ size / page)
      × (bucket page size < nbucket - 1 → bucket page size ≡ size / page)
unfolding bucket
bucket_lem page size = ground arith

le_of_pages : (page a b : ℕ) → 0 < page → a % page ≡ 0 → a / page ≤ b / page → a ≤ b
le_of_pages page a b h m le =
    omega (arith, div-add-mod' a page, div-add-mod' b page, mul-le-mul_right page le)

-- What alloc_smf finds on the free lists.
abbrev pub IsChosen : SmfSc → ℕ → Option ℕ → Type 0
IsChosen sc bytes none =
    (q : ℕ) → On sc.order q → (sc.smf q).alloc ≡ false → (sc.smf q).size < bytes
IsChosen sc bytes (some sp) =
    On sc.order sp × ((sc.smf sp).alloc ≡ false) × (bytes ≤ (sc.smf sp).size)

at_itself : (b : ℕ) → is_at (some b) b ≡ true
unfolding is_at
at_itself b = ground arith

lt_of_pages : (page a b : ℕ) → 0 < page → a % page ≡ 0 → a / page < b / page → a < b
lt_of_pages page a b h m lt =
    omega (arith, div-add-mod' a page, div-add-mod' b page, mul-le-mul_right page lt)

choose-none :
    (sc : SmfSc) (bytes : ℕ)
    → IsListed none sc
    → Found sc.free (nbucket - 1 - bucket sc.pagesize bytes) (bucket sc.pagesize bytes) none
    → ((q : ℕ) → 1 ≤ count q (sc.free (nbucket - 1)) → (sc.smf q).size < bytes)
    → IsChosen sc bytes none
unfolding home
choose-none sc bytes v small large q on a =
    let b = bucket sc.pagesize (sc.smf q).size in
    let h : (sc.smf q).flist ≡ some b = v.homed q on (λ t. cc) ∙ rw a refl in
    let f = v.on_free q b in
    let t : is_at (sc.smf q).flist b ≡ true = rw h (at_itself b) in
    let c : 1 ≤ count q (sc.free b) = ground arith in
    let (lt, _, eq) = bucket_lem sc.pagesize (sc.smf q).size in
    let (_, le, _) = bucket_lem sc.pagesize bytes in
    let none_here = small q b in
    elim (Bool-cases (b == nbucket - 1)) [
      | inl big ↦
          let e : b ≡ nbucket - 1 = ground arith in
          large q (subst (λ k. 1 ≤ count q (sc.free k)) e c)
      | inr other ↦
          let n : b < nbucket - 1 = ground arith in
          let below : b < bucket sc.pagesize bytes =
            elim (Bool-cases (ltb b (bucket sc.pagesize bytes))) [
              | inl yes' ↦ ltb→lt b _ yes'
              | inr no' ↦
                  let ge : bucket sc.pagesize bytes ≤ b = ground arith in
                  absurd (omega (arith, none_here ge (omega arith)))
            ] in
          lt_of_pages sc.pagesize (sc.smf q).size bytes v.page (v.sized q on).1
            (omega (arith, eq n))
    ]

pub choose-IsChosen :
    (sc : SmfSc) (bytes : ℕ)
    → IsListed none sc
    → bytes % sc.pagesize ≡ 0
    → IsChosen sc bytes (choose sc bytes)
unfolding choose or_else
choose-IsChosen sc bytes v m =
    let b = bucket sc.pagesize bytes in
    found (first_free sc.free (nbucket - 1 - b) b) (first_free-Found sc.free (nbucket - 1 - b) b)
      (large_enough sc.smf bytes (sc.free (nbucket - 1)))
      (large_enough_lem sc.smf bytes (sc.free (nbucket - 1)))
  where
    found :
        (o : Option ℕ)
        → Found sc.free (nbucket - 1 - bucket sc.pagesize bytes) (bucket sc.pagesize bytes) o
        → (p : Option ℕ) → IsLargeEnough sc.smf bytes (sc.free (nbucket - 1)) p
        → IsChosen sc bytes (or_else o p)
    found none small none large = choose-none sc bytes v small large
    found none small (some sp) (c, le) =
        let (on, a, _) = IsFree-lem v sp (nbucket - 1) (λ t. cc) c in (on, a, le)
    found (some sp) (k, low, high, c) p large =
        let (on, a, e) = IsFree-lem v sp k (λ t. cc) c in
        let (_, _, eb) = bucket_lem sc.pagesize bytes in
        let (_, _, es) = bucket_lem sc.pagesize (sc.smf sp).size in
        (
          on,
          a,
          le_of_pages sc.pagesize bytes (sc.smf sp).size v.page m
              (omega (arith, eb (omega arith), es (omega arith))),
        )
