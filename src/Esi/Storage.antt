-- ===== src/Esi/Storage.antt =====
-- The stored object of ESI_Deliver in bin/varnishd/cache_esi_deliver.c: segments, read as one text.
use pkg_varnish.Prelude.{
  ℕ, zero, suc, ◌+◌, ◌-◌, ◌≤◌, ◌<◌, ◌≡◌, refl, sym, ap, ◌∙◌, inl, inr, true, false, some, List, [],
  ◌∷◌, ◌++◌, arith, ltb, leb, ◌==◌, if◌then◌else◌, leb→le, Bool-cases, length, take, drop,
  length-append, take_all, length-drop_le, drop-append_left, take-append_left, take-append_right,
  drop-append_right, drop-drop, drop-nil,
}
use pkg_varnish.Esi.{walk}

unfoldable pub flat : List (List ℕ) → List ℕ
flat [] = []
flat (seg ∷ st) = seg ++ flat st

-- What lies ahead.
unfoldable pub stream : List (List ℕ) → ℕ → List ℕ
stream st off = drop off (flat st)

-- The offset is within the first segment, if there is one.
abbrev pub IsWithin : List (List ℕ) → ℕ → Type 0
IsWithin [] off = off ≡ 0
IsWithin (seg ∷ st) off = off ≤ length seg

pub start-IsWithin : (st : List (List ℕ)) → IsWithin st 0
start-IsWithin [] = refl
start-IsWithin (seg ∷ st) = omega arith

-- `l` bytes further on, with the bytes passed.
abbrev pub Walked : List (List ℕ) → ℕ → ℕ → Type 0
Walked st off l =
    (st' : List (List ℕ)) × (off' : ℕ) × (walk st off l ≡ some (take l (stream st off), st', off'))
    × IsWithin st' off'
    × (stream st' off' ≡ drop l (stream st off))

module _ (seg : List ℕ) (st : List (List ℕ)) (off l : ℕ) (within : off ≤ length seg) where
  -- The bytes of the first segment that lie ahead.
  ahead : ℕ
  ahead = length seg - off

  length-ahead : length (drop off seg) ≡ ahead
  unfolding ahead
  length-ahead = omega (arith, length-drop_le off seg within)

  apart : stream (seg ∷ st) off ≡ drop off seg ++ flat st
  unfolding stream flat
  apart = drop-append_left off seg (flat st) within

  length-stream : length (stream (seg ∷ st) off) ≡ ahead + length (flat st)
  length-stream =
      ap length apart
      ∙ length-append (drop off seg) (flat st)
      ∙ ap (λ n. n + length (flat st)) length-ahead

  walk-past :
      (more : List ℕ) (st' : List (List ℕ)) (off' : ℕ)
      → ahead ≤ suc l
      → walk st 0 (suc l - ahead) ≡ some (more, st', off')
      → walk (seg ∷ st) off (suc l) ≡ some (drop off seg ++ more, st', off')
  unfolding walk ahead
  walk-past more st' off' le e =
      let l2 : (if ltb (length seg - off) (suc l) then length seg - off else suc l)
          ≡ length seg - off =
        ground arith in
      let at_end : (off + (length seg - off) == length seg) ≡ true = ground arith in
      let all : take (length seg - off) (drop off seg) ≡ drop off seg =
        take_all (length seg - off) (drop off seg) (omega (arith, length-ahead)) in
      rw (l2, at_end, e, all) refl

  walk-inside :
      suc l < ahead
      → walk (seg ∷ st) off (suc l) ≡ some (take (suc l) (drop off seg), seg ∷ st, off + suc l)
  unfolding walk ahead
  walk-inside lt =
      let l2 : (if ltb (length seg - off) (suc l) then length seg - off else suc l) ≡ suc l =
        ground arith in
      let inside : (off + suc l == length seg) ≡ false = ground arith in
      let done : (suc l == suc l) ≡ true = ground arith in rw (l2, inside, done) refl

  past-Walked : ahead ≤ suc l → Walked st 0 (suc l - ahead) → Walked (seg ∷ st) off (suc l)
  unfolding stream flat ahead
  past-Walked le (st', off', e, w, s) =
      let same : suc l - length (drop off seg) ≡ suc l - ahead = ap (λ n. suc l - n) length-ahead in
      let h : length (drop off seg) ≤ suc l = omega (arith, length-ahead) in
      (
        st',
        off',
        walk-past (take (suc l - ahead) (stream st 0)) st' off' le e
            ∙ ap (λ t. some (t, st', off'))
                (sym (
                  ap (take (suc l)) apart
                  ∙ take-append_right (suc l) (drop off seg) (flat st) h
                  ∙ ap (λ k. drop off seg ++ take k (flat st)) same)),
        w,
        s
            ∙ sym (
                ap (drop (suc l)) apart
                ∙ drop-append_right (suc l) (drop off seg) (flat st) h
                ∙ ap (λ k. drop k (flat st)) same),
      )

  inside-Walked : suc l < ahead → Walked (seg ∷ st) off (suc l)
  unfolding stream flat ahead
  inside-Walked lt = (
    seg ∷ st,
    off + suc l,
    walk-inside lt
        ∙ ap (λ t. some (t, seg ∷ st, off + suc l))
            (sym (
              ap (take (suc l)) apart
              ∙ take-append_left (suc l) (drop off seg) (flat st) (omega (arith, length-ahead)))),
    omega arith,
    sym (drop-drop off (suc l) (flat (seg ∷ st))),
  )

-- From an offset within the first segment, with at least that many bytes ahead, the loop over the
-- stored object passes exactly the next bytes of its text and stops within a segment, or at the end,
-- with the rest of the text ahead.
pub walk-Walked :
    (st : List (List ℕ)) (off l : ℕ)
    → IsWithin st off
    → l ≤ length (stream st off)
    → Walked st off l
unfolding walk stream flat
walk-Walked [] off zero w h = ([], off, refl, w, refl)
walk-Walked [] off (suc l) w h = absurd (none_left (ap length (drop-nil off)))
  where
    none_left : length (stream [] off) ≡ 0 → ⊥
    none_left e = omega arith
walk-Walked (seg ∷ st) off zero w h = (seg ∷ st, off, refl, w, refl)
walk-Walked (seg ∷ st) off (suc l) w h =
    let long = length-stream seg st off l w in
    elim (Bool-cases (leb (ahead seg st off l w) (suc l))) [
      | inl le ↦
          past-Walked seg st off l w (leb→le (ahead seg st off l w) (suc l) le)
            (walk-Walked st 0 (suc l - ahead seg st off l w) (start-IsWithin st) (omega arith))
      | inr gt ↦ inside-Walked seg st off l w (ground arith)
    ]
