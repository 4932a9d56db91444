-- ===== src/Vsb.antt =====
-- lib/libvarnish/vsb.c: string buffers, of a fixed size or extended as they fill.
-- A function returns its result beside the new buffer, and `none` where an assertion fails.
-- Sizes stay below the range of `int`. The buffer's memory is a function of the index; what malloc
-- gives for a size, if anything, is a parameter.
pub mod Extend
pub mod Append
pub mod Print
pub mod Tests
use pkg_varnish.Prelude.{
  ℕ, zero, suc, ◌+◌, ◌-◌, ◌*◌, ◌/◌, ◌%◌, ◌^◌, ◌≤◌, ◌<◌, ◌≡◌, refl, sym, ap, ◌∙◌, ◌≢◌, ◌↔◌, ◌⊎◌, inl,
  inr, Bool, true, false, not, ◌&&◌, ◌||◌, Option, none, some, List, [], ◌∷◌, ◌++◌, arith, ltb, leb,
  ◌==◌, if◌then◌else◌, ltb→lt, leb→le, ==_iff, Bool-cases, Option-cases, length, get_elem?, set,
  take, drop, length-append, take-nil, take_all, length-take_le, ◌>>=◌, ◌>>◌, assert,
}
use pkg_varnish.Prelude.Memory.{Memory, memcpy, read}
use pkg_varnish.Prelude.Ctype.{is_space}

abbrev pub min_extend_size : ℕ
min_extend_size = 16

abbrev pub max_extend_size : ℕ
max_extend_size = 4096

abbrev pub max_extend_incr : ℕ
max_extend_incr = 4096

abbrev pub enomem : ℕ
enomem = 12

-- The flags of `s_flags` are a field each.
pub record Vsb : Type 0 where
  pub buf : Memory
  pub error : ℕ
  pub size : ℕ
  pub len : ℕ
  pub autoextend : Bool
  pub dynamic : Bool
  pub finished : Bool
  pub dynstruct : Bool

-- The results 0 and -1.
pub data Status : Type 0 where
  success failure : Status

abbrev pub has_room : Vsb → Bool
has_room s = ltb s.len (s.size - 1)

abbrev pub freespace : Vsb → ℕ
freespace s = s.size - (s.len + 1)

abbrev pub assert_integrity : Vsb → Option (Unit {0})
assert_integrity s = assert (ltb s.len s.size)

abbrev pub assert_unfinished : Vsb → Option (Unit {0})
assert_unfinished s = assert (not s.finished)

-- `while (newsize < size) newsize *= 2`.
pub extend_loop : ℕ → ℕ → ℕ → ℕ
extend_loop zero newsize size = newsize
extend_loop (suc fuel) newsize size =
    let rest = extend_loop fuel (newsize * 2) size in if ltb newsize size then rest else newsize

-- From 16 to 4096 are eight doublings.
pub extendsize : ℕ → ℕ
extendsize size =
    if ltb size max_extend_size
    then extend_loop 9 min_extend_size size
    else ((size + (max_extend_incr - 1)) / max_extend_incr * max_extend_incr)

pub status : Vsb → Status
status s = if s.error == 0 then success else failure

module _ (malloc : ℕ → Option Memory) where
  extend_into : Vsb → ℕ → Option Memory → Vsb × Status
  extend_into s newsize none = (s, failure)
  extend_into s newsize (some fresh) = (
    record s {
      buf = λ i. if ltb i s.size then s.buf i else fresh i;
      size = newsize;
      dynamic = true;
    },
    success,
  )

  pub extend : Vsb → ℕ → Vsb × Status
  unfolding extend_into
  extend s addlen =
      let newsize = extendsize (s.size + addlen) in
      let grown = extend_into s newsize (malloc newsize) in
      if s.autoextend then grown else (s, failure)

  newbuf_alloc : Vsb → Option Memory → Option Vsb
  newbuf_alloc s none = none
  newbuf_alloc s (some fresh) = some (record s { buf = fresh; dynamic = true })

  newbuf_own : Vsb → Option Memory → Option Vsb
  unfolding newbuf_alloc
  newbuf_own s (some buf) = some (record s { buf = buf })
  newbuf_own s none =
      let sized = record s { size = if s.autoextend then extendsize s.size else s.size } in
      newbuf_alloc sized (malloc sized.size)

  -- `none` outside is a failed assertion, `some none` the null pointer.
  pub newbuf : Option Memory → ℕ → Bool → Option (Option Vsb)
  unfolding newbuf_own
  newbuf buf length autoextend = do
    let s : Vsb = record {
      buf = λ i. 0;
      error = 0;
      size = length;
      len = 0;
      autoextend = autoextend;
      dynamic = false;
      finished = false;
      dynstruct = false;
    }
    assert (autoextend || ltb 1 length)
    some (newbuf_own s buf)

  fail_or_keep : Vsb × Status → Vsb
  fail_or_keep (s, success) = s
  fail_or_keep (s, failure) = record s { error = enomem }

  make_room : Vsb → Vsb
  unfolding fail_or_keep
  make_room s = let grown = fail_or_keep (extend s 1) in if freespace s == 0 then grown else s

  store : Vsb → ℕ → Vsb
  unfolding memcpy
  store s c =
      if s.error == 0 then record s { buf = memcpy s.buf s.len (c ∷ []); len = s.len + 1 } else s

  pub put_byte : Vsb → ℕ → Option Vsb
  put_byte s c = do
    assert_integrity s
    assert_unfinished s
    some (if s.error == 0 then store (make_room s) c else s)

  -- The loops of VSB_bcat and VSB_cat over the bytes.
  pub put_all : Vsb → List ℕ → Option (Vsb × Status)
  put_all s [] = some (s, success)
  put_all s (c ∷ cs) = do
    s' ← put_byte s c
    let rest = put_all s' cs
    if s'.error == 0 then rest else some (s', failure)

  pub bcat : Vsb → List ℕ → Option (Vsb × Status)
  bcat s bytes = do
    assert_integrity s
    assert_unfinished s
    if s.error == 0 then put_all s bytes else some (s, failure)

  -- A C string is its bytes before the nul.
  pub cat : Vsb → List ℕ → Option (Vsb × Status)
  cat s str = do
    assert_integrity s
    assert_unfinished s
    if s.error == 0 then put_all s str else some (s, failure)

  pub putc : Vsb → ℕ → Option (Vsb × Status)
  putc s c = do s' ← put_byte s c; some (s', status s')

  -- One call of vsnprintf, which formats `out`, writes what fits and a nul, and returns its length.
  print_at : Vsb → List ℕ → Vsb
  print_at s out = record s { buf = memcpy s.buf s.len (take (freespace s) out ++ 0 ∷ []) }

  print_again : Vsb × Status → (Vsb → Vsb) → Vsb
  print_again (s, success) loop = loop s
  print_again (s, failure) loop = s

  pub print_loop : ℕ → Vsb → List ℕ → Vsb
  unfolding print_at print_again
  print_loop zero s out = s
  print_loop (suc fuel) s out =
      let printed = print_at s out in
      let again =
        print_again (extend printed (length out - freespace s)) (λ t. print_loop fuel t out) in
      if ltb (freespace s) (length out) then again else printed

  -- `s_len` after the loop, and ENOMEM where a buffer that cannot be extended has no room left.
  print_count : Vsb → List ℕ → Vsb
  print_count s out =
      let len = s.len + (if ltb (freespace s) (length out) then freespace s else length out) in
      let full = not (ltb len (s.size - 1)) && not s.autoextend in
      record s { len = len; error = if full then enomem else s.error }

  -- `out` is what the format and its arguments print. One extension makes room, so that the loop
  -- takes two rounds at most.
  pub vprintf : Vsb → List ℕ → Option (Vsb × Status)
  vprintf s out = do
    assert_integrity s
    assert_unfinished s
    let s' = print_count (print_loop 2 s out) out
    let checked = assert (ltb s'.len s'.size) >> some (s', status s')
    if s.error == 0 then checked else some (s, failure)

pub clear : Vsb → Option Vsb
clear s = do assert_integrity s; some (record s { finished = false; error = 0; len = 0 })

pub setpos : Vsb → ℕ → Option (Vsb × Status)
setpos s pos = do
  assert_integrity s
  assert_unfinished s
  assert (ltb pos s.size)
  some (if ltb s.len pos then (s, failure) else (record s { len = pos }, success))

module _ (malloc : ℕ → Option Memory) where
  pub bcpy : Vsb → List ℕ → Option (Vsb × Status)
  bcpy s bytes = do assert_integrity s; assert_unfinished s; s' ← clear s; bcat malloc s' bytes

  pub cpy : Vsb → List ℕ → Option (Vsb × Status)
  cpy s str = do assert_integrity s; assert_unfinished s; s' ← clear s; cat malloc s' str

trim_loop : Memory → ℕ → ℕ
trim_loop buf zero = zero
trim_loop buf (suc len) = if is_space (buf len) then trim_loop buf len else suc len

pub trim : Vsb → Option (Vsb × Status)
trim s = do
  assert_integrity s
  assert_unfinished s
  let trimmed : Vsb = record s { len = trim_loop s.buf s.len }
  some (if s.error == 0 then (trimmed, success) else (s, failure))

pub finish : Vsb → Option (Vsb × Status)
finish s = do
  assert_integrity s
  assert_unfinished s
  let s' : Vsb = record s { buf = memcpy s.buf s.len (0 ∷ []); finished = true }
  some (s', status s')

pub data_of : Vsb → Option Memory
data_of s = do assert_integrity s; assert s.finished; some s.buf

-- The length, or `none` for -1, if no assertion fails.
pub len_of : Vsb → Option (Option ℕ)
len_of s = do assert_integrity s; some (if s.error == 0 then some s.len else none)

-- The string built so far.
pub contents : Vsb → List ℕ
contents s = read s.buf 0 s.len
