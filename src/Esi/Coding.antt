-- ===== src/Esi/Coding.antt =====
-- The coded lengths of bin/varnishd/cache_esi_parse.c, read back by cache_esi_deliver.c.
use pkg_varnish.Prelude.{
  ℕ, ◌+◌, ◌*◌, ◌/◌, ◌%◌, ◌^◌, ◌<◌, ◌≡◌, refl, sym, ap, ◌∙◌, inl, inr, true, some, List, [], ◌∷◌,
  ◌++◌, arith, ltb, ◌==◌, if◌then◌else◌, ltb→lt, Bool-cases,
}
use mathlib.Core.List.{append_assoc, append-nil}
use pkg_varnish.Esi.{
  enc16, enc32, enc64, dec16, dec32, dec64, reads_back, emit_len, positive, decode_len,
}

-- What vep_emit_len appends.
unfoldable pub len_bytes : ℕ → ℕ → ℕ → ℕ → List ℕ
len_bytes l m8 m16 m64 =
    if ltb l 256
    then (m8 ∷ l % 2 ^ 8 ∷ [])
    else if ltb l 65536
    then (m16 ∷ enc16 l)
    else (m64 ∷ enc64 l)

dec16-enc16 : (l : ℕ) (rest : List ℕ) → l < 65536 → dec16 (enc16 l ++ rest) ≡ some (l, rest)
unfolding dec16 enc16
dec16-enc16 l rest h =
    let e : l / 2 ^ 8 % 2 ^ 8 * 2 ^ 8 + l % 2 ^ 8 ≡ l = omega arith in ap (λ n. some (n, rest)) e

pub dec32-enc32 : (l : ℕ) (rest : List ℕ) → l < 2 ^ 32 → dec32 (enc32 l ++ rest) ≡ some (l, rest)
unfolding dec32 enc32
dec32-enc32 l rest h =
    let e : l / 2 ^ 24 % 2 ^ 8 * 2 ^ 24
          + l / 2 ^ 16 % 2 ^ 8 * 2 ^ 16
          + l / 2 ^ 8 % 2 ^ 8 * 2 ^ 8
          + l % 2 ^ 8
        ≡ l =
      omega arith in
    ap (λ n. some (n, rest)) e

pub dec64-enc64 : (l : ℕ) (rest : List ℕ) → l < 2 ^ 64 → dec64 (enc64 l ++ rest) ≡ some (l, rest)
unfolding dec64 enc64
dec64-enc64 l rest h =
    let high = l / 2 ^ 32 % 2 ^ 32 in
    let low = l % 2 ^ 32 in
    let e : high * 2 ^ 32 + low ≡ l = omega arith in
    rw
      (
        append_assoc (enc32 high) (enc32 low) rest,
        dec32-enc32 high (enc32 low ++ rest) (omega arith),
        dec32-enc32 low rest (omega arith),
      )
      (ap (λ n. some (n, rest)) e)

-- vep_emit_len fails no assertion on a length that an ssize_t holds.
pub emit_len-len_bytes :
    (vsb : List ℕ) (l m8 m16 m64 : ℕ)
    → 0 < l
    → l < 2 ^ 63
    → emit_len vsb l m8 m16 m64 ≡ some (vsb ++ len_bytes l m8 m16 m64)
unfolding emit_len len_bytes reads_back
emit_len-len_bytes vsb l m8 m16 m64 pos h =
    let p : ltb 0 l ≡ true = ground arith in
    elim (Bool-cases (ltb l 256)) [
      | inl lt ↦ let m : (l % 2 ^ 8 == l) ≡ true = ground arith in rw (p, lt, m) refl
      | inr ge ↦ elim (Bool-cases (ltb l 65536)) [
        | inl lt ↦
            let b : dec16 (enc16 l) ≡ some (l, []) =
              ap dec16 (sym (append-nil (enc16 l))) ∙ dec16-enc16 l [] (ltb→lt l 65536 lt) in
            let same : (l == l) ≡ true = ground arith in rw (p, ge, lt, b, same) refl
        | inr ge' ↦
            let b : dec64 (enc64 l) ≡ some (l, []) =
              ap dec64 (sym (append-nil (enc64 l))) ∙ dec64-enc64 l [] (omega arith) in
            let same : (l == l) ≡ true = ground arith in rw (p, ge, ge', b, same) refl
      ]
    ]

positive_lem : (l : ℕ) (rest : List ℕ) → 0 < l → l < 2 ^ 63 → positive (l, rest) ≡ some (l, rest)
unfolding positive
positive_lem l rest pos h =
    let p : ltb 0 l ≡ true = ground arith in
    let q : ltb l (2 ^ 63) ≡ true = ground arith in rw (p, q) refl

pub decode_len-len_bytes :
    (l m8 m16 m64 : ℕ) (rest : List ℕ)
    → 0 < l
    → l < 2 ^ 63
    → m8 % 16 ≡ 1
    → m16 % 16 ≡ 2
    → m64 % 16 ≡ 8
    → decode_len (len_bytes l m8 m16 m64 ++ rest) ≡ some (l, rest)
unfolding len_bytes decode_len
decode_len-len_bytes l m8 m16 m64 rest pos h e8 e16 e64 = elim (Bool-cases (ltb l 256)) [
  | inl lt ↦ let m : l % 2 ^ 8 ≡ l = ground arith in rw (lt, e8, m) (positive_lem l rest pos h)
  | inr ge ↦ elim (Bool-cases (ltb l 65536)) [
    | inl lt' ↦
        rw (ge, lt', e16, dec16-enc16 l rest (ltb→lt l 65536 lt')) (positive_lem l rest pos h)
    | inr ge' ↦ rw (ge, ge', e64, dec64-enc64 l rest (omega arith)) (positive_lem l rest pos h)
  ]
]

-- vep_emit_len fails no assertion on a length of at least one that an ssize_t holds; ved_decode_len
-- reads that length from the bytes appended, and no byte after them, for marks that end in 1, 2, 8.
pub decode_len-emit_len :
    (vsb : List ℕ) (l m8 m16 m64 : ℕ) (rest : List ℕ)
    → 0 < l
    → l < 2 ^ 63
    → m8 % 16 ≡ 1
    → m16 % 16 ≡ 2
    → m64 % 16 ≡ 8
    → (bs : List ℕ) × (emit_len vsb l m8 m16 m64 ≡ some (vsb ++ bs))
      × (decode_len (bs ++ rest) ≡ some (l, rest))
decode_len-emit_len vsb l m8 m16 m64 rest pos h e8 e16 e64 = (
  len_bytes l m8 m16 m64,
  emit_len-len_bytes vsb l m8 m16 m64 pos h,
  decode_len-len_bytes l m8 m16 m64 rest pos h e8 e16 e64,
)
