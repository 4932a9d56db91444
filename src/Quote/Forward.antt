-- ===== src/Quote/Forward.antt =====
-- A command line that bin/varnishd/mgt_cli.c forwards, as VAV_Parse in lib/libvarnish/argv.c reads it.
use pkg_varnish.Prelude.{
  ℕ, zero, suc, ◌+◌, ◌≤◌, ◌<◌, ◌≡◌, refl, ap, ◌∙◌, inl, inr, Bool, true, false, not, ◌&&◌, ◌||◌,
  Option, some, List, [], ◌∷◌, ◌++◌, arith, leb, ◌==◌, if◌then◌else◌, Bool-cases, length,
  length-append,
}
use pkg_varnish.Prelude.Ctype.{is_space}
use pkg_varnish.Quote.{
  any_quoted, quote_bytes, quote, forward, args, found, prepend, decode, scan, add_arg, parse_found,
  parse,
}
use pkg_varnish.Quote.Lines.{IsSafe, no_flags, append_assoc, decode-quote_bytes, scan-quote_bytes}

-- Each argument has a byte, and may be quoted.
abbrev pub AllSafe : List (List ℕ) → Type 0
AllSafe [] = Unit {0}
AllSafe (a ∷ av) = (0 < length a) × IsSafe a × AllSafe av

-- A byte that asks for no quotes.
abbrev IsBare : ℕ → Type 0
IsBare b = (is_space b ≡ false) × ((b == 34) ≡ false) × ((b == 92) ≡ false)

head-IsBare : (b : ℕ) (t : List ℕ) → any_quoted (b ∷ t) ≡ false → IsBare b × (any_quoted t ≡ false)
unfolding any_quoted
head-IsBare b t e = by_tests b (any_quoted t) e
  where
    by_tests :
        (b : ℕ) (rest : Bool)
        → (if not (leb 33 b && leb b 126) || (b == 34) || (b == 92) then true else rest) ≡ false
        → ((((b == 32) || (leb 9 b && leb b 13)) ≡ false)
            × ((b == 34) ≡ false)
            × ((b == 92) ≡ false))
          × (rest ≡ false)
    by_tests b rest e = ground arith

module _ (sscanf_x : List ℕ → Option ℕ) where
  scan-bare :
      (fuel : ℕ) (t rest : List ℕ)
      → any_quoted t ≡ false
      → length t < fuel
      → scan sscanf_x fuel no_flags false (t ++ 32 ∷ rest) ≡ some (found t (32 ∷ rest))
  unfolding scan prepend
  scan-bare zero t rest e enough = absurd (omega arith)
  scan-bare (suc f) [] rest e enough = refl
  scan-bare (suc f) (b ∷ t) rest e enough =
      let ((space, q, s), more) = head-IsBare b t e in
      rw (s, space, scan-bare f t rest more (omega arith)) refl

  decode-bare :
      (fuel : ℕ) (t : List ℕ)
      → any_quoted t ≡ false
      → length t ≤ fuel
      → decode sscanf_x fuel t ≡ some t
  unfolding decode
  decode-bare fuel [] e enough = refl
  decode-bare zero (b ∷ t) e enough = absurd (omega arith)
  decode-bare (suc f) (b ∷ t) e enough =
      let ((space, q, s), more) = head-IsBare b t e in
      rw (s, decode-bare f t more (omega arith)) refl

  -- An argument and the blank after it, before the rest of the line.
  parse-quoted :
      (fuel : ℕ) (a l : List ℕ) (av : List (List ℕ))
      → IsSafe a
      → length (quote_bytes a) < fuel
      → parse sscanf_x fuel no_flags (32 ∷ l) ≡ some (args av)
      → parse sscanf_x (suc fuel) no_flags (34 ∷ (quote_bytes a ++ 34 ∷ 32 ∷ l))
        ≡ some (args (a ∷ av))
  unfolding parse parse_found add_arg
  parse-quoted fuel a l av safe enough rest =
      rw
        (
          scan-quote_bytes sscanf_x fuel a (32 ∷ l) safe enough,
          decode-quote_bytes sscanf_x fuel a safe (omega arith),
          rest,
        )
        refl

  parse-bare :
      (fuel b : ℕ) (t l : List ℕ) (av : List (List ℕ))
      → any_quoted (b ∷ t) ≡ false
      → length (b ∷ t) ≤ fuel
      → parse sscanf_x fuel no_flags l ≡ some (args av)
      → parse sscanf_x (suc fuel) no_flags (b ∷ t ++ 32 ∷ l) ≡ some (args ((b ∷ t) ∷ av))
  unfolding parse parse_found add_arg scan prepend
  parse-bare fuel b t l av e enough rest =
      let ((space, q, s), more) = head-IsBare b t e in
      rw
        (
          space,
          q,
          s,
          scan-bare fuel t l more (omega arith),
          decode-bare fuel (b ∷ t) e enough,
          rest,
        )
        refl

  parse-blank :
      (fuel : ℕ) (l : List ℕ)
      → parse sscanf_x (suc fuel) no_flags (32 ∷ l) ≡ parse sscanf_x fuel no_flags l
  unfolding parse
  parse-blank fuel l = refl

  from_quoted :
      (fuel : ℕ) (a l : List ℕ) (av : List (List ℕ))
      → IsSafe a
      → length (quote_bytes a) + length l + 3 ≤ fuel
      → ((f : ℕ) → length l ≤ f → parse sscanf_x f no_flags l ≡ some (args av))
      → parse sscanf_x fuel no_flags (34 ∷ (quote_bytes a ++ 34 ∷ 32 ∷ l)) ≡ some (args (a ∷ av))
  from_quoted zero a l av safe enough rest = absurd (omega arith)
  from_quoted (suc zero) a l av safe enough rest = absurd (omega arith)
  from_quoted (suc (suc f)) a l av safe enough rest =
      parse-quoted (suc f) a l av safe (omega arith) (parse-blank f l ∙ rest f (omega arith))

  from_bare :
      (fuel b : ℕ) (t l : List ℕ) (av : List (List ℕ))
      → any_quoted (b ∷ t) ≡ false
      → length (b ∷ t) + length l + 1 ≤ fuel
      → ((f : ℕ) → length l ≤ f → parse sscanf_x f no_flags l ≡ some (args av))
      → parse sscanf_x fuel no_flags (b ∷ t ++ 32 ∷ l) ≡ some (args ((b ∷ t) ∷ av))
  from_bare zero b t l av e enough rest = absurd (omega arith)
  from_bare (suc f) b t l av e enough rest =
      parse-bare f b t l av e (omega arith) (rest f (omega arith))

quote-quoted :
    (a l : List ℕ) → any_quoted a ≡ true → quote a ++ 32 ∷ l ≡ 34 ∷ (quote_bytes a ++ 34 ∷ 32 ∷ l)
unfolding quote
quote-quoted a l e = rw e (ap (λ t. 34 ∷ t) (append_assoc (quote_bytes a) (34 ∷ []) (32 ∷ l)))

quote-bare : (a : List ℕ) → any_quoted a ≡ false → quote a ≡ a
unfolding quote
quote-bare a e = rw e refl

-- VAV_Parse reads a forwarded command line back as the arguments that it was made of, with one round
-- of fuel for each byte, where every argument has a byte, and none has a byte that is written in one
-- or two octal digits before an octal digit.
pub parse-forward :
    (sscanf_x : List ℕ → Option ℕ) (fuel : ℕ) (av : List (List ℕ))
    → AllSafe av
    → length (forward av) ≤ fuel
    → parse sscanf_x fuel no_flags (forward av) ≡ some (args av)
unfolding forward parse
parse-forward sscanf_x fuel [] safe enough = refl
parse-forward sscanf_x fuel ([] ∷ av) (some_byte, safe, others) enough = absurd (omega arith)
parse-forward sscanf_x fuel ((b ∷ t) ∷ av) (some_byte, safe, others) enough =
    elim (Bool-cases (any_quoted (b ∷ t))) [
      | inl e ↦
          let same = quote-quoted (b ∷ t) (forward av) e in
          let n = ap length same in
          let m = length-append (quote_bytes (b ∷ t)) (34 ∷ 32 ∷ forward av) in
          rw same (
            from_quoted sscanf_x fuel (b ∷ t) (forward av) av safe (omega (arith, n, m, enough))
              (λ f h. parse-forward sscanf_x f av others h))
      | inr e ↦
          let same = ap (λ w. w ++ 32 ∷ forward av) (quote-bare (b ∷ t) e) in
          let n = ap length same in
          let m = length-append (b ∷ t) (32 ∷ forward av) in
          rw same (
            from_bare sscanf_x fuel b t (forward av) av e (omega (arith, n, m, enough))
              (λ f h. parse-forward sscanf_x f av others h))
    ]
