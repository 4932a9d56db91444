-- ===== src/Esi.antt =====
-- The coding of a document with edge side includes, between bin/varnishd/cache_esi_parse.c, which
-- writes it, and bin/varnishd/cache_esi_deliver.c, which reads it beside the stored object.
-- Documents that are not compressed; VSB_bcat appends. `none` is an assertion that fails, INCOMPL, a
-- read past the coding or past the stored object.
pub mod Coding
pub mod Storage
pub mod Delivery
pub mod Tests
use pkg_varnish.Prelude.{
  ℕ, zero, suc, ◌+◌, ◌-◌, ◌*◌, ◌/◌, ◌%◌, ◌^◌, ◌≤◌, ◌<◌, ◌≡◌, refl, sym, ap, ◌∙◌, ◌≢◌, ◌↔◌, ◌⊎◌, inl,
  inr, Bool, true, false, not, ◌&&◌, ◌||◌, Option, none, some, List, [], ◌∷◌, ◌++◌, arith, ltb, leb,
  ◌==◌, if◌then◌else◌, ltb→lt, leb→le, ==_iff, Bool-cases, Option-cases, length, get_elem?, set,
  take, drop, length-append, take-nil, take_all, length-take_le, get_elem?-append_left,
  get_elem?-append_right, get_elem?-drop, get_elem?-take, length-drop_le, ◌>>=◌, ◌>>◌, assert,
}

-- include/vend.h: vbe16enc, vbe32enc, vbe64enc and their decoders.
pub enc16 : ℕ → List ℕ
enc16 u = u / 2 ^ 8 % 2 ^ 8 ∷ u % 2 ^ 8 ∷ []

pub enc32 : ℕ → List ℕ
enc32 u = u / 2 ^ 24 % 2 ^ 8 ∷ u / 2 ^ 16 % 2 ^ 8 ∷ u / 2 ^ 8 % 2 ^ 8 ∷ u % 2 ^ 8 ∷ []

pub enc64 : ℕ → List ℕ
enc64 u = enc32 (u / 2 ^ 32 % 2 ^ 32) ++ enc32 (u % 2 ^ 32)

abbrev pub byte : List ℕ → Option (ℕ × List ℕ)
byte [] = none
byte (c ∷ p) = some (c, p)

pub dec16 : List ℕ → Option (ℕ × List ℕ)
dec16 p = do (a, q) ← byte p; (b, r) ← byte q; some (a * 2 ^ 8 + b, r)

pub dec32 : List ℕ → Option (ℕ × List ℕ)
dec32 p = do
  (a, q) ← byte p
  (b, r) ← byte q
  (c, s) ← byte r
  (d, t) ← byte s
  some (a * 2 ^ 24 + b * 2 ^ 16 + c * 2 ^ 8 + d, t)

pub dec64 : List ℕ → Option (ℕ × List ℕ)
dec64 p = do (a, q) ← dec32 p; (b, r) ← dec32 q; some (a * 2 ^ 32 + b, r)

-- The assertion that what was written reads back.
reads_back : Option (ℕ × List ℕ) → ℕ → Bool
reads_back none l = false
reads_back (some (n, p)) l = n == l

pub emit_len : List ℕ → ℕ → ℕ → ℕ → ℕ → Option (List ℕ)
unfolding reads_back
emit_len vsb l m8 m16 m64 = do
  assert (ltb 0 l)
  if ltb l 256
      then (assert (l % 2 ^ 8 == l) >> some (vsb ++ m8 ∷ l % 2 ^ 8 ∷ []))
      else if ltb l 65536
      then (assert (reads_back (dec16 (enc16 l)) l) >> some (vsb ++ m16 ∷ enc16 l))
      else (assert (reads_back (dec64 (enc64 l)) l) >> some (vsb ++ m64 ∷ enc64 l))

pub data Mark : Type 0 where
  skip verbatim : Mark

pub record Vep : Type 0 where
  pub vsb : List ℕ
  pub dogzip : Bool
  pub crc : ℕ
  pub o_crc : ℕ
  pub o_total : ℕ

emit_skip : Vep → ℕ → Option (List ℕ)
emit_skip vep l = emit_len vep.vsb l 0x61 0x62 0x68

emit_crc : Vep → ℕ → List ℕ → Option (List ℕ)
emit_crc vep l_crc vsb = do vsb' ← emit_len vsb l_crc 0x51 0x52 0x58; some (vsb' ++ enc32 vep.crc)

emit_verbatim : Vep → ℕ → ℕ → Option (List ℕ)
emit_verbatim vep l l_crc = do
  vsb ← emit_len vep.vsb l 0x41 0x42 0x48
  if vep.dogzip then emit_crc vep l_crc vsb else some vsb

emit_mark : Vep → ℕ → Mark → Option (List ℕ)
emit_mark vep l skip = emit_skip vep l
emit_mark vep l verbatim = emit_verbatim vep l vep.o_crc

-- `crc_start` is `crc32(0L, Z_NULL, 0)`.
pub emit_common : ℕ → Vep → ℕ → Mark → Option Vep
emit_common crc_start vep l mark = do
  assert (ltb 0 l)
  vsb ← emit_mark vep l mark
  some record vep { vsb = vsb; crc = crc_start; o_crc = 0; o_total = vep.o_total + l }

-- An ssize_t that is not positive fails the assertion.
positive : ℕ × List ℕ → Option (ℕ × List ℕ)
positive (l, p) = do assert (ltb 0 l); assert (ltb l (2 ^ 63)); some (l, p)

pub decode_len : List ℕ → Option (ℕ × List ℕ)
unfolding positive
decode_len [] = none
decode_len (c ∷ p) =
    if c % 16 == 1
    then (byte p >>= positive)
    else if c % 16 == 2
    then (dec16 p >>= positive)
    else if c % 16 == 8
    then (dec64 p >>= positive)
    else none

-- The inner loops of ESI_Deliver: `l` bytes from the offset `off` of the first of the segments, and
-- where that leads. A round that does not reach the end of a segment is the last.
pub walk : List (List ℕ) → ℕ → ℕ → Option (List ℕ × List (List ℕ) × ℕ)
walk st off zero = some ([], st, off)
walk [] off (suc l) = none
walk (seg ∷ st) off (suc l) =
    let l2 = if ltb (length seg - off) (suc l) then length seg - off else suc l in
    let rest = walk st 0 (suc l - l2) in
    let bytes = take l2 (drop off seg) in
    if off + l2 == length seg
    then (rest >>= λ (more, st', off'). some (bytes ++ more, st', off'))
    else if suc l == l2
    then some (bytes, seg ∷ st, off + l2)
    else none

-- A C string, and what follows its nul.
c_string : List ℕ → Option (List ℕ × List ℕ)
c_string [] = none
c_string (zero ∷ p) = some ([], p)
c_string (suc c ∷ p) = do (s, q) ← c_string p; some (suc c ∷ s, q)

-- What goes out: bytes of the object, or an include with its URL and its host.
pub data Piece : Type 0 where
  bytes : List ℕ → Piece
  included : List ℕ → List ℕ → Piece

-- The loop over the coding, on fuel; `dead` says that the client hangs up at an include.
pub deliver_loop : ℕ → Bool → List ℕ → List (List ℕ) → ℕ → Option (List Piece)
deliver_loop zero dead p st off = none
deliver_loop (suc n) dead [] st off = some []
deliver_loop (suc n) dead (c ∷ p) st off =
    let next = deliver_loop n dead in
    if c == 0x41 || c == 0x42 || c == 0x48
    then (do
      (l, q) ← decode_len (c ∷ p)
      (out, st', off') ← walk st off l
      rest ← next q st' off'
      some (bytes out ∷ rest))
    else if c == 0x61 || c == 0x62 || c == 0x68
    then (do (l, q) ← decode_len (c ∷ p); (out, st', off') ← walk st off l; next q st' off')
    else if c == b'I'
    then (do
      (host, q) ← c_string p
      (url, r) ← c_string q
      let rest = next r st off
      if dead then some [] else (rest >>= λ pieces. some (included url host ∷ pieces)))
    else none

-- Each round reads a byte of the coding at least.
pub deliver : Bool → List ℕ → List (List ℕ) → Option (List Piece)
deliver dead p st = deliver_loop (length p + 1) dead p st 0
