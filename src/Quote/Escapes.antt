-- ===== src/Quote/Escapes.antt =====
-- VSB_quote in lib/libvarnish/vsb.c against VAV_BackSlash in argv.c, byte by byte.
use pkg_varnish.Prelude.{
  ℕ, zero, suc, ◌+◌, ◌-◌, ◌*◌, ◌/◌, ◌%◌, ◌≤◌, ◌<◌, ◌≡◌, refl, sym, ap, ◌∙◌, ◌≢◌, ◌⊎◌, inl, inr,
  Bool, true, false, not, ◌&&◌, ◌||◌, Option, some, List, [], ◌∷◌, ◌++◌, arith, ltb, ◌==◌, ==_iff,
  Bool-cases, length,
}
use mathlib.Core.Path.{subst}
use pkg_varnish.Prelude.Ctype.{is_graph}
use pkg_varnish.Quote.{is_octal, octal, quote_byte, quote_bytes, octal_loop, escape, decode}

-- Whether an octal digit comes next.
unfoldable pub digit_next : List ℕ → Bool
unfolding is_octal
digit_next [] = false
digit_next (b ∷ s) = is_octal b

-- Whether VSB_quote writes the byte as one or two octal digits.
unfoldable pub is_short : ℕ → Bool
is_short b = ltb b 64 && (not (is_graph b) && not ((b == 32) || (b == 10) || (b == 13) || (b == 9)))

octal_loop-digit :
    (rounds r c k : ℕ) (u : List ℕ) (c' : ℕ)
    → k < 8
    → (c * 8 + k) % 256 ≡ c'
    → octal_loop (suc rounds) r c ((48 + k) ∷ u) ≡ octal_loop rounds (r + 1) c' u
unfolding octal_loop
octal_loop-digit rounds r c k u c' h e =
    let value : (c * 8 + (48 + k - 48)) % 256 ≡ c' =
      ap (λ v. (c * 8 + v) % 256) (omega arith) ∙ e in
    rw (is_digit k h, value) refl
  where
    is_digit : (k : ℕ) → k < 8 → is_octal (48 + k) ≡ true
    is_digit k h = ground arith

octal_loop-end :
    (rounds r c : ℕ) (u : List ℕ) → digit_next u ≡ false → octal_loop rounds r c u ≡ (r, c)
unfolding octal_loop digit_next
octal_loop-end zero r c u h = refl
octal_loop-end (suc rounds) r c [] h = refl
octal_loop-end (suc rounds) r c (d ∷ u) h = rw h refl

octal_loop-octal :
    (b : ℕ) (u : List ℕ)
    → b < 256
    → (ltb b 64 ≡ true → digit_next u ≡ false)
    → octal_loop 3 1 0 (octal b ++ u) ≡ (suc (length (octal b)), b)
unfolding octal octal_loop
octal_loop-octal b u lt h = elim (Bool-cases (ltb b 8)) [
  | inl one ↦ rw one (
      octal_loop-digit 2 1 0 b u b (ground arith) (ground arith)
      ∙ octal_loop-end 2 2 b u (h (ground arith)))
  | inr more ↦ elim (Bool-cases (ltb b 64)) [
    | inl two ↦
        rw (more, two)
          (octal_loop-digit 2 1 0 (b / 8) ((48 + b % 8) ∷ u) (b / 8) (ground arith) (ground arith)
            ∙ octal_loop-digit 1 2 (b / 8) (b % 8) u b (omega arith) (omega arith)
            ∙ octal_loop-end 1 3 b u (h two))
    | inr three ↦
        rw (more, three)
          (octal_loop-digit 2 1 0 (b / 64) ((48 + b / 8 % 8) ∷ (48 + b % 8) ∷ u) (b / 64)
              (omega arith) (omega arith)
            ∙ octal_loop-digit 1 2 (b / 64) (b / 8 % 8) ((48 + b % 8) ∷ u) (b / 8) (omega arith)
                (omega arith)
            ∙ octal_loop-digit 0 3 (b / 8) (b % 8) u b (omega arith) (omega arith))
  ]
]

-- VAV_BackSlash reads back what VSB_quote writes for one byte, and no byte more, unless it was written
-- in one or two octal digits and another follows.
abbrev pub ReadsBack : (List ℕ → Option ℕ) → ℕ → List ℕ → Type 0
ReadsBack sscanf_x b u =
    ((quote_byte b ≡ b ∷ []) × (b ≢ 92) × (b ≢ 34))
    ⊎ ((e : List ℕ) × (quote_byte b ≡ 92 ∷ e)
        × (escape sscanf_x (e ++ u) ≡ (suc (length e), b))
        × (0 < length e))

escape-digit :
    (sscanf_x : List ℕ → Option ℕ) (k : ℕ) (v : List ℕ)
    → k < 8
    → escape sscanf_x ((48 + k) ∷ v) ≡ octal_loop 3 1 0 ((48 + k) ∷ v)
unfolding escape is_octal
escape-digit sscanf_x k v h = by_byte (48 + k) (omega arith) (omega arith)
  where
    digit : (d : ℕ) → 48 ≤ d → d < 56 → is_octal d ≡ true
    digit d lo hi = ground arith

    by_byte : (d : ℕ) → 48 ≤ d → d < 56 → escape sscanf_x (d ∷ v) ≡ octal_loop 3 1 0 (d ∷ v)
    by_byte d lo hi =
        let n : (d == 110) ≡ false = ground arith in
        let r : (d == 114) ≡ false = ground arith in
        let t : (d == 116) ≡ false = ground arith in
        let q : (d == 34) ≡ false = ground arith in
        let s : (d == 92) ≡ false = ground arith in
        let o : is_octal d ≡ true = digit d lo hi in rw (n, r, t, q, s, o) refl

escape-octal :
    (sscanf_x : List ℕ → Option ℕ) (b : ℕ) (u : List ℕ)
    → b < 256
    → escape sscanf_x (octal b ++ u) ≡ octal_loop 3 1 0 (octal b ++ u)
unfolding escape octal
escape-octal sscanf_x b u lt = elim (Bool-cases (ltb b 8)) [
  | inl one ↦ rw one (escape-digit sscanf_x b u (ground arith))
  | inr more ↦ elim (Bool-cases (ltb b 64)) [
    | inl two ↦ rw (more, two) (escape-digit sscanf_x (b / 8) ((48 + b % 8) ∷ u) (ground arith))
    | inr three ↦
        rw (more, three)
          (escape-digit sscanf_x (b / 64) ((48 + b / 8 % 8) ∷ (48 + b % 8) ∷ u) (omega arith))
  ]
]

escape_self :
    (sscanf_x : List ℕ → Option ℕ) (b : ℕ) (u : List ℕ)
    → ((b == 92) || (b == 34)) ≡ true
    → escape sscanf_x (b ∷ u) ≡ (2, b)
unfolding escape
escape_self sscanf_x b u e = elim (one_of e) [
  | inl s ↦ subst (λ c. escape sscanf_x (c ∷ u) ≡ (2, c)) (sym s) refl
  | inr s ↦ subst (λ c. escape sscanf_x (c ∷ u) ≡ (2, c)) (sym s) refl
]
  where
    one_of : ((b == 92) || (b == 34)) ≡ true → (b ≡ 92) ⊎ (b ≡ 34)
    one_of e = ground arith

neither : (b : ℕ) → ((b == 92) || (b == 34)) ≡ false → (b ≢ 92) × (b ≢ 34)
neither b n = ground arith

short :
    (b : ℕ)
    → ltb b 64 ≡ true
    → is_graph b ≡ false
    → (b == 32) ≡ false
    → (b == 10) ≡ false
    → (b == 13) ≡ false
    → (b == 9) ≡ false
    → is_short b ≡ true
unfolding is_short
short b l g n32 n10 n13 n9 = rw (l, g, n32, n10, n13, n9) refl

some_octal : (b : ℕ) → 0 < length (octal b)
unfolding octal
some_octal b = ground arith

unlike : (b m n : ℕ) → (b == m) ≡ true → b ≡ n → (n == m) ≡ false → ⊥
unlike b m n e f d = ground arith

pub quote_byte-ReadsBack :
    (sscanf_x : List ℕ → Option ℕ) (b : ℕ) (u : List ℕ)
    → b < 256
    → (is_short b ≡ true → digit_next u ≡ false)
    → ReadsBack sscanf_x b u
unfolding quote_byte escape
quote_byte-ReadsBack sscanf_x b u lt h = elim (Bool-cases (b == 32)) [
  | inl e ↦
      rw e
        (inl (refl, (λ f. absurd (unlike b 32 92 e f refl)), λ f. absurd (unlike b 32 34 e f refl)))
  | inr n32 ↦ elim (Bool-cases ((b == 92) || (b == 34))) [
    | inl e ↦ rw (n32, e) (inr (b ∷ [], refl, escape_self sscanf_x b u e, omega arith))
    | inr n92 ↦ elim (Bool-cases (b == 10)) [
      | inl e ↦
          rw (n32, n92, e)
            (inr (110 ∷ [], refl, ap (λ v. (2, v)) (sym ((==_iff b 10).0 e)), omega arith))
      | inr n10 ↦ elim (Bool-cases (b == 13)) [
        | inl e ↦
            rw (n32, n92, n10, e)
              (inr (114 ∷ [], refl, ap (λ v. (2, v)) (sym ((==_iff b 13).0 e)), omega arith))
        | inr n13 ↦ elim (Bool-cases (b == 9)) [
          | inl e ↦
              rw (n32, n92, n10, n13, e)
                (inr (116 ∷ [], refl, ap (λ v. (2, v)) (sym ((==_iff b 9).0 e)), omega arith))
          | inr n9 ↦ elim (Bool-cases (is_graph b)) [
            | inl g ↦
                rw (n32, n92, n10, n13, n9, g) (inl (refl, (neither b n92).0, (neither b n92).1))
            | inr g ↦
                rw (n32, n92, n10, n13, n9, g)
                  (inr (
                    octal b,
                    refl,
                    escape-octal sscanf_x b u lt
                        ∙ octal_loop-octal b u lt (λ l. h (short b l g n32 n10 n13 n9)),
                    some_octal b,
                  ))
          ]
        ]
      ]
    ]
  ]
]

escape-merged :
    (sscanf_x : List ℕ → Option ℕ) (b k : ℕ)
    → b < 8
    → k < 8
    → escape sscanf_x ((48 + b) ∷ (48 + k) ∷ []) ≡ (3, b * 8 + k)
unfolding digit_next
escape-merged sscanf_x b k hb hk =
    escape-digit sscanf_x b ((48 + k) ∷ []) hb
    ∙ octal_loop-digit 2 1 0 b ((48 + k) ∷ []) b hb (omega arith)
    ∙ octal_loop-digit 1 2 b k [] (b * 8 + k) hk (omega arith)
    ∙ octal_loop-end 1 3 (b * 8 + k) [] refl

quote_low : (b : ℕ) → b < 8 → quote_byte b ≡ 92 ∷ (48 + b) ∷ []
unfolding quote_byte octal
quote_low b h = ground arith

quote_digit : (d : ℕ) → 48 ≤ d → d < 56 → quote_byte d ≡ d ∷ []
unfolding quote_byte
quote_digit d lo hi = ground arith

-- Two bytes, of which the first is below 8 and the second an octal digit, come back from VSB_quote and
-- VAV_BackSlashDecode as one byte.
pub decode-merged :
    (sscanf_x : List ℕ → Option ℕ) (fuel b k : ℕ)
    → b < 8
    → k < 8
    → decode sscanf_x (suc fuel) (quote_bytes (b ∷ (48 + k) ∷ [])) ≡ some ((b * 8 + k) ∷ [])
unfolding decode quote_bytes
decode-merged sscanf_x fuel b k hb hk =
    rw (quote-merged b k hb hk, escape-merged sscanf_x b k hb hk) refl
  where
    quote-merged :
        (b k : ℕ) → b < 8 → k < 8 → quote_bytes (b ∷ (48 + k) ∷ []) ≡ 92 ∷ (48 + b) ∷ (48 + k) ∷ []
    quote-merged b k hb hk =
        rw (quote_low b hb, quote_digit (48 + k) (omega arith) (omega arith)) refl
