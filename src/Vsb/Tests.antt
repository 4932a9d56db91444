-- ===== src/Vsb/Tests.antt =====
-- Runs of lib/libvarnish/vsb.c, and its theorems at small buffers.
use pkg_varnish.Prelude.{ℕ, ◌≡◌, refl, true, false, Option, none, some, List, [], ◌∷◌, arith}
use pkg_varnish.Prelude.Memory.{Memory, memcpy, read}
use pkg_varnish.Vsb.{
  Vsb, Status, success, failure, contents, cat, vprintf, newbuf, extendsize, extend_loop, put_all,
  put_byte, store, make_room, extend, status, print_loop, print_count, enomem,
}
use pkg_varnish.Vsb.Extend.{IsValid}
use pkg_varnish.Vsb.Append.{Filled, cat-Filled}

abbrev blank : Memory
blank = λ i. 0

abbrev generous : ℕ → Option Memory
generous n = some blank

abbrev mean : ℕ → Option Memory
mean n = none

-- Room for three bytes and the nul.
abbrev fixed : Vsb
fixed = record {
  buf = blank;
  error = 0;
  size = 4;
  len = 0;
  autoextend = false;
  dynamic = false;
  finished = false;
  dynstruct = false;
}

abbrev growing : Vsb
growing = record fixed { autoextend = true }

abbrev word : List ℕ
word = b'w' ∷ b'o' ∷ b'r' ∷ b'd' ∷ []

fixed-IsValid : IsValid fixed
fixed-IsValid = record { within = omega arith; open_ended = refl }

growing-IsValid : IsValid growing
growing-IsValid = record { within = omega arith; open_ended = refl }

newbuf_runs : newbuf mean (some blank) 4 false ≡ some (some fixed)
unfolding newbuf
newbuf_runs = refl

extendsize_runs : (extendsize 0 ≡ 16) × (extendsize 33 ≡ 64) × (extendsize 5000 ≡ 8192)
unfolding extendsize extend_loop
extendsize_runs = (refl, refl, refl)

-- The string, the result, the error and the size.
abbrev shown : Option (Vsb × Status) → Option (List ℕ × Status × ℕ × ℕ)
shown none = none
shown (some (s, rc)) = some (contents s, rc, s.error, s.size)

cat_cuts : shown (cat generous fixed word) ≡ some (b'w' ∷ b'o' ∷ b'r' ∷ [], failure, enomem, 4)
unfolding cat put_all put_byte store make_room extend contents memcpy read
cat_cuts = refl

cat_grows : shown (cat generous growing word) ≡ some (word, success, 0, 16)
unfolding cat put_all put_byte store make_room extend contents memcpy read extendsize extend_loop
    status
cat_grows = refl

vprintf_grows : shown (vprintf generous growing word) ≡ some (word, success, 0, 16)
unfolding vprintf print_loop print_count extend contents memcpy read extendsize extend_loop status
vprintf_grows = refl

cat-Filled_example : Filled fixed word (cat generous fixed word)
cat-Filled_example = cat-Filled generous fixed word fixed-IsValid refl refl
