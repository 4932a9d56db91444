-- ===== src/Esi/Delivery.antt =====
-- What bin/varnishd/cache_esi_parse.c marks is what cache_esi_deliver.c sends.
use pkg_varnish.Prelude.{
  ℕ, zero, suc, ◌+◌, ◌^◌, ◌≤◌, ◌<◌, ◌≡◌, refl, sym, ap, ◌∙◌, ◌⊎◌, inl, inr, Bool, true, false, ◌||◌,
  Option, some, List, [], ◌∷◌, ◌++◌, arith, ltb, ◌==◌, Bool-cases, length, take, drop,
  length-append, length-drop_le, ◌>>=◌,
}
use pkg_varnish.Esi.{
  Mark, skip, verbatim, Vep, Piece, bytes, emit_skip, emit_verbatim, emit_mark, emit_common,
  decode_len, walk, deliver_loop, deliver,
}
use pkg_varnish.Esi.Coding.{len_bytes, emit_len-len_bytes, decode_len-len_bytes}
use pkg_varnish.Esi.Storage.{flat, stream, IsWithin, start-IsWithin, Walked, walk-Walked}
use mathlib.Core.List.{append_assoc, append-nil}

-- One call of vep_emit_common after the other.
pub emit_all : ℕ → Vep → List (ℕ × Mark) → Option Vep
emit_all crc_start vep [] = some vep
emit_all crc_start vep ((l, mark) ∷ ms) = do
  vep' ← emit_common crc_start vep l mark
  emit_all crc_start vep' ms

abbrev pub AllSized : List (ℕ × Mark) → Type 0
AllSized [] = Unit {0}
AllSized ((l, mark) ∷ ms) = (0 < l) × (l < 2 ^ 63) × AllSized ms

abbrev pub total : List (ℕ × Mark) → ℕ
total [] = 0
total ((l, mark) ∷ ms) = l + total ms

-- The marked parts of a text.
pub kept : List (ℕ × Mark) → List ℕ → List Piece
kept [] text = []
kept ((l, verbatim) ∷ ms) text = bytes (take l text) ∷ kept ms (drop l text)
kept ((l, skip) ∷ ms) text = kept ms (drop l text)

mark_bytes : ℕ → Mark → List ℕ
mark_bytes l skip = len_bytes l 0x61 0x62 0x68
mark_bytes l verbatim = len_bytes l 0x41 0x42 0x48

coded : List (ℕ × Mark) → List ℕ
coded [] = []
coded ((l, mark) ∷ ms) = mark_bytes l mark ++ coded ms

emit_mark_lem :
    (vep : Vep) (l : ℕ) (mark : Mark)
    → vep.dogzip ≡ false
    → 0 < l
    → l < 2 ^ 63
    → emit_mark vep l mark ≡ some (vep.vsb ++ mark_bytes l mark)
unfolding emit_mark emit_skip emit_verbatim mark_bytes
emit_mark_lem vep l skip plain pos h = emit_len-len_bytes vep.vsb l 0x61 0x62 0x68 pos h
emit_mark_lem vep l verbatim plain pos h =
    let e = emit_len-len_bytes vep.vsb l 0x41 0x42 0x48 pos h in rw (e, plain) refl

emit_all-coded :
    (ms : List (ℕ × Mark)) (crc_start : ℕ) (vep : Vep)
    → vep.dogzip ≡ false
    → AllSized ms
    → (vep' : Vep) × (emit_all crc_start vep ms ≡ some vep')
      × (vep'.vsb ≡ vep.vsb ++ coded ms)
      × (vep'.o_total ≡ vep.o_total + total ms)
unfolding emit_all emit_common coded
emit_all-coded [] crc_start vep plain sized = (vep, refl, sym (append-nil vep.vsb), omega arith)
emit_all-coded ((l, mark) ∷ ms) crc_start vep plain (pos, h, sized) =
    let next : Vep = record {
      vsb = vep.vsb ++ mark_bytes l mark;
      dogzip = vep.dogzip;
      crc = crc_start;
      o_crc = 0;
      o_total = vep.o_total + l;
    } in
    let p : ltb 0 l ≡ true = ground arith in
    let (vep', e, v, t) = emit_all-coded ms crc_start next plain sized in
    (
      vep',
      rw (p, emit_mark_lem vep l mark plain pos h) e,
      v ∙ append_assoc vep.vsb (mark_bytes l mark) (coded ms),
      omega (arith, t),
    )

len_bytes_le : (l m8 m16 m64 : ℕ) → 1 ≤ length (len_bytes l m8 m16 m64)
unfolding len_bytes
len_bytes_le l m8 m16 m64 = ground arith

mark_bytes_le : (l : ℕ) (mark : Mark) → 1 ≤ length (mark_bytes l mark)
unfolding mark_bytes
mark_bytes_le l skip = len_bytes_le l 0x61 0x62 0x68
mark_bytes_le l verbatim = len_bytes_le l 0x41 0x42 0x48

length-coded : (ms : List (ℕ × Mark)) → length ms ≤ length (coded ms)
unfolding coded
length-coded [] = omega arith
length-coded ((l, mark) ∷ ms) =
    let a = length-append (mark_bytes l mark) (coded ms) in
    omega (arith, length-coded ms, mark_bytes_le l mark)

-- The coding of a mark starts with one of its three bytes.
Headed : ℕ → ℕ → ℕ → List ℕ → Type 0
Headed m8 m16 m64 p = (c : ℕ) × (q : List ℕ) × (p ≡ c ∷ q) × ((c ≡ m8) ⊎ ((c ≡ m16) ⊎ (c ≡ m64)))

len_bytes-Headed :
    (l m8 m16 m64 : ℕ) (rest : List ℕ) → Headed m8 m16 m64 (len_bytes l m8 m16 m64 ++ rest)
unfolding len_bytes Headed
len_bytes-Headed l m8 m16 m64 rest = elim (Bool-cases (ltb l 256)) [
  | inl lt ↦ rw lt (_, _, refl, inl refl)
  | inr ge ↦ elim (Bool-cases (ltb l 65536)) [
    | inl lt ↦ rw (ge, lt) (_, _, refl, inr (inl refl))
    | inr ge' ↦ rw (ge, ge') (_, _, refl, inr (inr refl))
  ]
]

module _ (n : ℕ) (dead : Bool) (c : ℕ) (p q : List ℕ) (l off off' : ℕ) (st st' : List (List ℕ))
    (out : List ℕ) (rest : List Piece) (decoded : decode_len (c ∷ p) ≡ some (l, q))
    (walked : walk st off l ≡ some (out, st', off'))
    (sent : deliver_loop n dead q st' off' ≡ some rest) where
  verbatim-step :
      (c ≡ 0x41) ⊎ ((c ≡ 0x42) ⊎ (c ≡ 0x48))
      → deliver_loop (suc n) dead (c ∷ p) st off ≡ some (bytes out ∷ rest)
  unfolding deliver_loop
  verbatim-step h =
      let test : (c == 0x41 || c == 0x42 || c == 0x48) ≡ true = ground arith in
      rw (test, decoded, walked, sent) refl

  skip-step :
      (c ≡ 0x61) ⊎ ((c ≡ 0x62) ⊎ (c ≡ 0x68)) → deliver_loop (suc n) dead (c ∷ p) st off ≡ some rest
  unfolding deliver_loop
  skip-step h =
      let not_verbatim : (c == 0x41 || c == 0x42 || c == 0x48) ≡ false = ground arith in
      let test : (c == 0x61 || c == 0x62 || c == 0x68) ≡ true = ground arith in
      rw (not_verbatim, test, decoded, walked) sent

loop-kept :
    (ms : List (ℕ × Mark)) (n : ℕ) (dead : Bool) (st : List (List ℕ)) (off : ℕ)
    → AllSized ms
    → length ms < n
    → IsWithin st off
    → total ms ≤ length (stream st off)
    → deliver_loop n dead (coded ms) st off ≡ some (kept ms (stream st off))
unfolding coded kept mark_bytes Headed
loop-kept ms zero dead st off sized lt w h = absurd (omega arith)
loop-kept [] (suc n) dead st off sized lt w h = unfold deliver_loop in refl
loop-kept ((l, mark) ∷ ms) (suc n) dead st off (pos, small, sized) lt w h =
    sent mark (walk-Walked st off l w (omega arith))
      (λ st' off' w' fits. loop-kept ms n dead st' off' sized (omega arith) w' fits)
  where
    Sent : Type 0
    Sent =
        (st' : List (List ℕ)) (off' : ℕ)
        → IsWithin st' off'
        → total ms ≤ length (stream st' off')
        → deliver_loop n dead (coded ms) st' off' ≡ some (kept ms (stream st' off'))

    sent :
        (m : Mark)
        → Walked st off l
        → Sent
        → deliver_loop (suc n) dead (mark_bytes l m ++ coded ms) st off
          ≡ some (kept ((l, m) ∷ ms) (stream st off))
    sent skip (st', off', e, w', s) go =
        let (c, q, headed, byte_of) = len_bytes-Headed l 0x61 0x62 0x68 (coded ms) in
        let decoded : decode_len (c ∷ q) ≡ some (l, coded ms) =
          ap decode_len (sym headed)
          ∙ decode_len-len_bytes l 0x61 0x62 0x68 (coded ms) pos small refl refl refl in
        let d = length-drop_le l (stream st off) (omega arith) in
        let same : length (stream st' off') ≡ length (drop l (stream st off)) = ap length s in
        let fits : total ms ≤ length (stream st' off') = omega arith in
        ap (λ p. deliver_loop (suc n) dead p st off) headed
        ∙ skip-step n dead c q (coded ms) l off off' st st' (take l (stream st off))
            (kept ms (stream st' off')) decoded e (go st' off' w' fits) byte_of
        ∙ ap (λ t. some (kept ms t)) s
    sent verbatim (st', off', e, w', s) go =
        let (c, q, headed, byte_of) = len_bytes-Headed l 0x41 0x42 0x48 (coded ms) in
        let decoded : decode_len (c ∷ q) ≡ some (l, coded ms) =
          ap decode_len (sym headed)
          ∙ decode_len-len_bytes l 0x41 0x42 0x48 (coded ms) pos small refl refl refl in
        let d = length-drop_le l (stream st off) (omega arith) in
        let same : length (stream st' off') ≡ length (drop l (stream st off)) = ap length s in
        let fits : total ms ≤ length (stream st' off') = omega arith in
        ap (λ p. deliver_loop (suc n) dead p st off) headed
        ∙ verbatim-step n dead c q (coded ms) l off off' st st' (take l (stream st off))
            (kept ms (stream st' off')) decoded e (go st' off' w' fits) byte_of
        ∙ ap (λ t. some (bytes (take l (stream st off)) ∷ kept ms t)) s

-- Whatever the parser marks of a document that is not compressed, piece by piece and each of at least
-- one byte, ESI_Deliver sends the verbatim pieces and no others, in order, wherever the stored
-- object, which holds at least the marked bytes, is cut into segments; no assertion fails.
pub deliver-emit_all :
    (ms : List (ℕ × Mark)) (crc_start : ℕ) (vep : Vep) (dead : Bool) (st : List (List ℕ))
    → vep.dogzip ≡ false
    → vep.vsb ≡ []
    → AllSized ms
    → total ms ≤ length (flat st)
    → (vep' : Vep) × (emit_all crc_start vep ms ≡ some vep')
      × (deliver dead vep'.vsb st ≡ some (kept ms (flat st)))
unfolding deliver stream
deliver-emit_all ms crc_start vep dead st plain empty sized fits =
    let (vep', e, v, t) = emit_all-coded ms crc_start vep plain sized in
    let same : vep'.vsb ≡ coded ms = v ∙ ap (λ bs. bs ++ coded ms) empty in
    (
      vep',
      e,
      ap (λ p. deliver dead p st) same
          ∙ loop-kept ms (length (coded ms) + 1) dead st 0 sized (omega (arith, length-coded ms))
              (start-IsWithin st) fits,
    )
