-- ===== src/Quote/Lines.antt =====
-- VSB_quote in lib/libvarnish/vsb.c against VAV_Parse in argv.c.
use pkg_varnish.Prelude.{
  ℕ, zero, suc, ◌≤◌, ◌<◌, ◌≡◌, refl, sym, ap, ◌∙◌, ◌≢◌, inl, inr, true, false, ◌&&◌, Option, none,
  some, List, [], ◌∷◌, ◌++◌, arith, ltb, leb, ◌==◌, ==_iff, Bool-cases, length, length-append, take,
  drop,
}
use pkg_varnish.Quote.{
  is_octal, quote_byte, quote_bytes, Flags, found, prepend, escape, decode, scan,
}
use pkg_varnish.Quote.Escapes.{digit_next, is_short, quote_byte-ReadsBack}

-- Bytes of a C string, none of which is written in one or two octal digits before an octal digit.
abbrev pub IsSafe : List ℕ → Type 0
IsSafe [] = Unit {0}
IsSafe (b ∷ s) = (b < 256) × ((is_short b && digit_next s) ≡ false) × IsSafe s

abbrev pub no_flags : Flags
no_flags = record { comment = false; comma = false; noesc = false }

take-length : (e u : List ℕ) → take (length e) (e ++ u) ≡ e
take-length [] u = refl
take-length (b ∷ e) u = ap (λ t. b ∷ t) (take-length e u)

drop-length : (e u : List ℕ) → drop (length e) (e ++ u) ≡ u
drop-length [] u = refl
drop-length (b ∷ e) u = drop-length e u

pub append_assoc : (xs ys zs : List ℕ) → (xs ++ ys) ++ zs ≡ xs ++ (ys ++ zs)
append_assoc [] ys zs = refl
append_assoc (x ∷ xs) ys zs = ap (λ t. x ∷ t) (append_assoc xs ys zs)

append_nil : (xs : List ℕ) → xs ++ [] ≡ xs
append_nil [] = refl
append_nil (x ∷ xs) = ap (λ t. x ∷ t) (append_nil xs)

no_digit :
    (b : ℕ) (t : List ℕ)
    → (is_short b && digit_next t) ≡ false
    → is_short b ≡ true
    → digit_next t ≡ false
no_digit b t e s = ground arith

unequal : (a b : ℕ) → a ≢ b → (a == b) ≡ false
unequal a b ne = elim (Bool-cases (a == b)) [ inl e ↦ absurd (ne ((==_iff a b).0 e)) | inr e ↦ e ]

leb-true : (a b : ℕ) → a ≤ b → leb a b ≡ true
leb-true a b h = ground arith

ltb-suc : (n : ℕ) → ltb 0 (suc n) ≡ true
ltb-suc n = ground arith

suc_nonzero : (n : ℕ) → (suc n == 0) ≡ false
suc_nonzero n = ground arith

digit_next-quote_byte :
    (b : ℕ) (w : List ℕ) → b < 256 → is_octal b ≡ false → digit_next (quote_byte b ++ w) ≡ false
unfolding digit_next
digit_next-quote_byte b w lt o = elim (quote_byte-ReadsBack (λ x. none) b [] lt (λ e. refl)) [
  | inl (e, n92, n34) ↦ rw e o
  | inr (e, q, esc, len) ↦ rw q refl
]

digit_next-quote_bytes :
    (t v : List ℕ)
    → IsSafe t
    → digit_next v ≡ false
    → digit_next t ≡ false
    → digit_next (quote_bytes t ++ v) ≡ false
unfolding digit_next quote_bytes
digit_next-quote_bytes [] v safe hv ht = hv
digit_next-quote_bytes (b ∷ t) v (lt, s, safe) hv ht =
    ap digit_next (append_assoc (quote_byte b) (quote_bytes t) v)
    ∙ digit_next-quote_byte b (quote_bytes t ++ v) lt ht

module _ (sscanf_x : List ℕ → Option ℕ) where
  pub decode-plain :
      (f b : ℕ) (s t : List ℕ)
      → b ≢ 92
      → decode sscanf_x f s ≡ some t
      → decode sscanf_x (suc f) (b ∷ s) ≡ some (b ∷ t)
  unfolding decode
  decode-plain f b s t n e = elim (Bool-cases (b == 92)) [
    | inl y ↦ absurd (n ((==_iff b 92).0 y))
    | inr y ↦ rw (y, e) refl
  ]

  decode-escape :
      (f c : ℕ) (e u t : List ℕ)
      → escape sscanf_x (e ++ u) ≡ (suc (length e), c)
      → decode sscanf_x f u ≡ some t
      → decode sscanf_x (suc f) (92 ∷ (e ++ u)) ≡ some (c ∷ t)
  unfolding decode
  decode-escape f c e u t esc d =
      let n = length-append e u in
      let fits = leb-true (suc (length e)) (suc (length (e ++ u))) (omega (arith, n)) in
      rw (esc, ltb-suc (length e), fits, drop-length e u, d) refl

  pub decode-quote_bytes :
      (fuel : ℕ) (t : List ℕ)
      → IsSafe t
      → length (quote_bytes t) ≤ fuel
      → decode sscanf_x fuel (quote_bytes t) ≡ some t
  unfolding quote_bytes decode digit_next
  decode-quote_bytes fuel [] safe enough = refl
  decode-quote_bytes fuel (b ∷ t) (lt, s, safe) enough =
      let next : is_short b ≡ true → digit_next (quote_bytes t) ≡ false = λ y.
        ap digit_next (sym (append_nil (quote_bytes t)))
        ∙ digit_next-quote_bytes t [] safe nil_next (no_digit b t s y) in
      elim (quote_byte-ReadsBack sscanf_x b (quote_bytes t) lt next) [
        | inl (e, n92, n34) ↦ rw e (
            plain fuel n92 (ap (λ w. length (w ++ quote_bytes t)) e) enough
              (λ f h. decode-quote_bytes f t safe h))
        | inr (e, q, esc, len) ↦ rw q (
            escaped fuel e esc (ap (λ w. length (w ++ quote_bytes t)) q) enough
              (λ f h. decode-quote_bytes f t safe h))
      ]
    where
      nil_next : digit_next [] ≡ false
      nil_next = refl

      plain :
          (fuel : ℕ)
          → b ≢ 92
          → length (quote_byte b ++ quote_bytes t) ≡ suc (length (quote_bytes t))
          → length (quote_byte b ++ quote_bytes t) ≤ fuel
          → ((f : ℕ) → length (quote_bytes t) ≤ f → decode sscanf_x f (quote_bytes t) ≡ some t)
          → decode sscanf_x fuel (b ∷ quote_bytes t) ≡ some (b ∷ t)
      plain zero n e h ih = absurd (omega arith)
      plain (suc f) n e h ih = decode-plain f b (quote_bytes t) t n (ih f (omega arith))

      escaped :
          (fuel : ℕ) (e : List ℕ)
          → escape sscanf_x (e ++ quote_bytes t) ≡ (suc (length e), b)
          → length (quote_byte b ++ quote_bytes t) ≡ suc (length (e ++ quote_bytes t))
          → length (quote_byte b ++ quote_bytes t) ≤ fuel
          → ((f : ℕ) → length (quote_bytes t) ≤ f → decode sscanf_x f (quote_bytes t) ≡ some t)
          → decode sscanf_x fuel (92 ∷ (e ++ quote_bytes t)) ≡ some (b ∷ t)
      escaped zero e esc n h ih = absurd (omega arith)
      escaped (suc f) e esc n h ih =
          decode-escape f b e (quote_bytes t) t esc
            (ih f (omega (arith, length-append e (quote_bytes t))))

  scan-plain :
      (f b : ℕ) (s w r : List ℕ)
      → b ≢ 92
      → b ≢ 34
      → scan sscanf_x f no_flags true s ≡ some (found w r)
      → scan sscanf_x (suc f) no_flags true (b ∷ s) ≡ some (found (b ∷ w) r)
  unfolding scan prepend
  scan-plain f b s w r n92 n34 e =
      let x : (b == 92) ≡ false = unequal b 92 n92 in
      let y : (b == 34) ≡ false = unequal b 34 n34 in rw (x, y, e) refl

  scan-escape :
      (f c : ℕ) (e u w r : List ℕ)
      → escape sscanf_x (e ++ u) ≡ (suc (length e), c)
      → scan sscanf_x f no_flags true u ≡ some (found w r)
      → scan sscanf_x (suc f) no_flags true (92 ∷ (e ++ u)) ≡ some (found (92 ∷ (e ++ w)) r)
  unfolding scan prepend
  scan-escape f c e u w r esc h =
      let n = length-append e u in
      let fits = leb-true (suc (length e)) (suc (length (e ++ u))) (omega (arith, n)) in
      rw (esc, suc_nonzero (length e), fits, drop-length e u, take-length e u, h) refl

  pub scan-quote_bytes :
      (fuel : ℕ) (t rest : List ℕ)
      → IsSafe t
      → length (quote_bytes t) < fuel
      → scan sscanf_x fuel no_flags true (quote_bytes t ++ 34 ∷ rest)
        ≡ some (found (quote_bytes t) (34 ∷ rest))
  unfolding quote_bytes scan digit_next
  scan-quote_bytes zero t rest safe enough = absurd (omega arith)
  scan-quote_bytes (suc f) [] rest safe enough = refl
  scan-quote_bytes (suc f) (b ∷ t) rest (lt, s, safe) enough =
      let u = quote_bytes t ++ 34 ∷ rest in
      let next : is_short b ≡ true → digit_next u ≡ false =
        λ y. digit_next-quote_bytes t (34 ∷ rest) safe refl (no_digit b t s y) in
      elim (quote_byte-ReadsBack sscanf_x b u lt next) [
        | inl (e, n92, n34) ↦
            let n = ap (λ w. length (w ++ quote_bytes t)) e in
            rw e (
              scan-plain f b u (quote_bytes t) (34 ∷ rest) n92 n34
                (scan-quote_bytes f t rest safe (omega (arith, n, enough))))
        | inr (e, q, esc, len) ↦
            let n = ap (λ w. length (w ++ quote_bytes t)) q in
            let m = length-append e (quote_bytes t) in
            rw (q, append_assoc e (quote_bytes t) (34 ∷ rest))
              (scan-escape f b e u (quote_bytes t) (34 ∷ rest) esc
                (scan-quote_bytes f t rest safe (omega (arith, n, m, enough))))
      ]
