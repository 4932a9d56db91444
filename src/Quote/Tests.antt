-- ===== src/Quote/Tests.antt =====
-- Runs of VSB_quote and VAV_Parse, and their theorems at a command line of two arguments.
use pkg_varnish.Prelude.{ℕ, ◌≡◌, refl, Option, none, some, List, [], ◌∷◌, arith}
use pkg_varnish.Quote.{
  is_octal, any_quoted, quote_byte, quote_bytes, quote, forward, args, prepend, escape, decode,
  scan, add_arg, parse_found, parse,
}
use pkg_varnish.Quote.Escapes.{digit_next, is_short}
use pkg_varnish.Quote.Lines.{no_flags}
use pkg_varnish.Quote.Forward.{AllSafe, parse-forward}

abbrev no_hex : List ℕ → Option ℕ
no_hex s = none

-- `ab`, and a blank, a newline and a quotation mark.
abbrev command : List (List ℕ)
command = (97 ∷ 98 ∷ []) ∷ (32 ∷ 10 ∷ 34 ∷ []) ∷ []

forwarded : forward command ≡ 97 ∷ 98 ∷ 32 ∷ 34 ∷ 32 ∷ 92 ∷ 110 ∷ 92 ∷ 34 ∷ 34 ∷ 32 ∷ []
unfolding forward quote any_quoted quote_bytes quote_byte
forwarded = refl

-- An argument of no bytes is lost.
lost : parse no_hex 9 no_flags (forward ([] ∷ (97 ∷ []) ∷ [])) ≡ some (args ((97 ∷ []) ∷ []))
unfolding parse forward quote any_quoted scan prepend parse_found decode add_arg escape
lost = refl

command-AllSafe : AllSafe command
unfolding is_short digit_next is_octal
command-AllSafe = (
  omega arith,
  (omega arith, refl, (omega arith, refl, _)),
  (omega arith, (omega arith, refl, (omega arith, refl, (omega arith, refl, _))), _),
)

parse-forward_example : parse no_hex 11 no_flags (forward command) ≡ some (args command)
unfolding forward quote any_quoted quote_bytes quote_byte
parse-forward_example = parse-forward no_hex 11 command command-AllSafe (omega arith)
