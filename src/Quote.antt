-- ===== src/Quote.antt =====
-- VSB_quote in lib/libvarnish/vsb.c, and the splitting of a line into arguments in
-- lib/libvarnish/argv.c, which reads what it writes. A string is the list of its bytes before the nul.
-- How sscanf reads "x%02x" is an argument.
pub mod Escapes
pub mod Lines
pub mod Forward
pub mod Tests
use pkg_varnish.Prelude.Ctype.{is_graph, is_space}
use pkg_varnish.Prelude.{
  ℕ, zero, suc, ◌+◌, ◌-◌, ◌*◌, ◌/◌, ◌%◌, ◌^◌, ◌≤◌, ◌<◌, ◌≡◌, refl, sym, ap, ◌∙◌, ◌≢◌, ◌↔◌, ◌⊎◌, inl,
  inr, Bool, true, false, not, ◌&&◌, ◌||◌, Option, none, some, List, [], ◌∷◌, ◌++◌, arith, ltb, leb,
  ◌==◌, if◌then◌else◌, ltb→lt, leb→le, ==_iff, Bool-cases, Option-cases, length, take, drop, ◌>>=◌,
  ◌>>◌, assert,
}

-- isdigit, and not above 7.
pub is_octal : ℕ → Bool
is_octal b = leb 48 b && leb b 55

-- The first loop of VSB_quote.
pub any_quoted : List ℕ → Bool
any_quoted [] = false
any_quoted (b ∷ s) = if not (is_graph b) || (b == 34) || (b == 92) then true else any_quoted s

-- %o, of a byte.
pub octal : ℕ → List ℕ
octal b =
    if ltb b 8
    then (48 + b) ∷ []
    else if ltb b 64
    then (48 + b / 8) ∷ (48 + b % 8) ∷ []
    else (48 + b / 64) ∷ (48 + b / 8 % 8) ∷ (48 + b % 8) ∷ []

pub quote_byte : ℕ → List ℕ
unfolding octal
quote_byte b =
    if b == 32
    then b ∷ []
    else if (b == 92) || (b == 34)
    then 92 ∷ b ∷ []
    else if b == 10
    then 92 ∷ 110 ∷ []
    else if b == 13
    then 92 ∷ 114 ∷ []
    else if b == 9
    then 92 ∷ 116 ∷ []
    else if is_graph b
    then b ∷ []
    else 92 ∷ octal b

pub quote_bytes : List ℕ → List ℕ
unfolding quote_byte
quote_bytes [] = []
quote_bytes (b ∷ s) = quote_byte b ++ quote_bytes s

-- What VSB_quote appends.
pub quote : List ℕ → List ℕ
unfolding any_quoted quote_bytes
quote s = if any_quoted s then 34 ∷ quote_bytes s ++ 34 ∷ [] else s

-- The loop of mcf_askchild in bin/varnishd/mgt_cli.c, which forwards a command line.
pub forward : List (List ℕ) → List ℕ
unfolding quote
forward [] = []
forward (a ∷ av) = quote a ++ 32 ∷ forward av

-- The loop over octal digits, with this many rounds left. `c` is a char.
pub octal_loop : ℕ → ℕ → ℕ → List ℕ → ℕ × ℕ
unfolding is_octal
octal_loop zero r c s = (r, c)
octal_loop (suc rounds) r c [] = (r, c)
octal_loop (suc rounds) r c (d ∷ s) =
    if is_octal d then octal_loop rounds (r + 1) ((c * 8 + (d - 48)) % 256) s else (r, c)

pub data Parsed : Type 0 where
  args : List (List ℕ) → Parsed
  invalid_backslash missing_quote : Parsed

pub record Flags : Type 0 where
  pub comment : Bool
  pub comma : Bool
  pub noesc : Bool

-- What the inner loop of VAV_Parse comes to: the argument and the rest of the line.
pub data Scan : Type 0 where
  found : List ℕ → List ℕ → Scan
  scan_error : Parsed → Scan

pub prepend : List ℕ → Scan → Scan
prepend w (found word rest) = found (w ++ word) rest
prepend w (scan_error e) = scan_error e

module _ (sscanf_x : List ℕ → Option ℕ) where
  hex : Option ℕ → ℕ × ℕ
  hex none = (0, 0)
  hex (some u) = (4, u)

  -- VAV_BackSlash on what follows the backslash: the length and the byte.
  pub escape : List ℕ → ℕ × ℕ
  unfolding is_octal octal_loop hex
  escape [] = (0, 0)
  escape (b ∷ s) =
      if b == 110
      then (2, 10)
      else if b == 114
      then (2, 13)
      else if b == 116
      then (2, 9)
      else if b == 34
      then (2, 34)
      else if b == 92
      then (2, 92)
      else if is_octal b
      then octal_loop 3 1 0 (b ∷ s)
      else if b == 120
      then hex (sscanf_x (b ∷ s))
      else (0, 0)

  -- VAV_BackSlashDecode, of the bytes up to `e`. A length of 0 would never end, and one past the end
  -- is out of range: both are `none`.
  pub decode : ℕ → List ℕ → Option (List ℕ)
  unfolding escape
  decode fuel [] = some []
  decode zero (b ∷ s) = none
  decode (suc fuel) (b ∷ s) =
      let (i, c) = escape s in
      let rest = decode fuel (drop i (b ∷ s)) in
      let plain = decode fuel s in
      if b == 92
      then (assert (ltb 0 i && leb i (length (b ∷ s))) >> rest >>= λ t. some (c ∷ t))
      else (plain >>= λ t. some (b ∷ t))

  scan_end : Bool → Scan
  scan_end true = scan_error missing_quote
  scan_end false = found [] []

  -- The inner loop of VAV_Parse.
  pub scan : ℕ → Flags → Bool → List ℕ → Option Scan
  unfolding escape scan_end prepend
  scan fuel flags quoted [] = some (scan_end quoted)
  scan zero flags quoted (b ∷ s) = none
  scan (suc fuel) flags quoted (b ∷ s) =
      let i = (escape s).0 in
      let after = scan fuel flags quoted (drop i (b ∷ s)) in
      let next = scan fuel flags quoted s in
      if (b == 92) && not flags.noesc
      then if i == 0
        then some (scan_error invalid_backslash)
        else (assert (leb i (length (b ∷ s))) >> after >>= λ r. some (prepend (take i (b ∷ s)) r))
      else if not quoted && (is_space b || (flags.comma && (b == 44)))
      then some (found [] (b ∷ s))
      else if quoted && (b == 34) && not flags.noesc
      then some (found [] (b ∷ s))
      else (next >>= λ r. some (prepend (b ∷ []) r))

  unfoldable pub add_arg : List ℕ → Parsed → Parsed
  add_arg a (args as') = args (a ∷ as')
  add_arg a invalid_backslash = invalid_backslash
  add_arg a missing_quote = missing_quote

  unfoldable pub parse_found : (List ℕ → Option Parsed) → ℕ → Flags → Scan → Option Parsed
  unfolding decode add_arg
  parse_found next fuel flags (scan_error e) = some e
  parse_found next fuel flags (found word rest) =
      let decoded = decode fuel word in
      let others = next (drop 1 rest) in
      (if flags.noesc then some word else decoded) >>= λ a. others >>= λ p. some (add_arg a p)

  -- VAV_Parse. An error comes in place of the arguments.
  pub parse : ℕ → Flags → List ℕ → Option Parsed
  unfolding scan parse_found
  parse fuel flags [] = some (args [])
  parse zero flags (b ∷ s) = none
  parse (suc fuel) flags (b ∷ s) =
      let next = parse fuel flags s in
      let quoted = scan fuel flags true s >>= parse_found (parse fuel flags) fuel flags in
      let bare =
        scan (suc fuel) flags false (b ∷ s) >>= parse_found (parse fuel flags) fuel flags in
      if is_space b
      then next
      else if flags.comment && (b == 35)
      then some (args [])
      else if (b == 34) && not flags.noesc
      then quoted
      else bare
