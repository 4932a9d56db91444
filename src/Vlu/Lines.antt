-- ===== src/Vlu/Lines.antt =====
-- The lines that lib/libvarnish/vlu.c passes on, byte by byte.
use pkg_varnish.Prelude.{
  ℕ, zero, suc, ◌+◌, ◌-◌, ◌≤◌, ◌<◌, ◌≡◌, refl, sym, ap, ◌∙◌, ◌≢◌, inl, inr, true, false, none, some,
  List, [], ◌∷◌, ◌++◌, arith, ltb, ◌==◌, if◌then◌else◌, Bool-cases, length, take, drop,
  length-drop_le,
}
use mathlib.Core.List.{append_assoc, append-nil}
use pkg_varnish.Vlu.{Vlu, is_newline, process, line_up_process, data_loop, vlu_data}

-- No byte ends a line or the text.
abbrev pub IsLine : List ℕ → Type 0
IsLine [] = Unit
IsLine (c ∷ cs) = (is_newline c ≡ false) × (c ≢ 0) × IsLine cs

module _ {P : Type 0} (func : P → List ℕ → ℕ × P) where
  process_line :
      (l : Vlu P) (behind line cs rest : List ℕ)
      → IsLine cs
      → process func l behind line (cs ++ rest) ≡ process func l behind (line ++ cs) rest
  unfolding process
  process_line l behind line [] rest h = rw (append-nil line) refl
  process_line l behind line (c ∷ cs) rest (n, z, h) =
      let z' : (c == 0) ≡ false = ground arith in
      rw (z', n)
        (process_line l behind (line ++ c ∷ []) cs rest h
          ∙ ap (λ t. process func l behind t rest) (append_assoc line (c ∷ []) cs))

module _ {P : Type 0} (func : P → List ℕ → ℕ × P)
    (accepts : (x : P) (line : List ℕ) → (func x line).0 ≡ 0) where
  -- The line that is not ended yet, and the callback's data, after one more byte.
  unfoldable pub feed : List ℕ → P → ℕ → List ℕ × P
  feed line x c = if is_newline c then ([], (func x line).1) else (line ++ c ∷ [], x)

  unfoldable pub feed_all : List ℕ → P → List ℕ → List ℕ × P
  feed_all line x [] = (line, x)
  feed_all line x (c ∷ cs) = feed_all (feed line x c).0 (feed line x c).1 cs

  -- Every byte finds space in the buffer, and none is a nul.
  abbrev pub Fits : ℕ → List ℕ → P → List ℕ → Type 0
  Fits bufl line x [] = length line < bufl
  Fits bufl line x (c ∷ cs) =
      (length line < bufl) × (c ≢ 0) × Fits bufl (feed line x c).0 (feed line x c).1 cs

  abbrev pub has : Vlu P → List ℕ × P → Vlu P
  has l s = record l { buf = s.0; priv = s.1 }

  feed_newline :
      (line : List ℕ) (x : P) (c : ℕ) → is_newline c ≡ true → feed line x c ≡ ([], (func x line).1)
  unfolding feed
  feed_newline line x c n = rw n refl

  feed_else :
      (line : List ℕ) (x : P) (c : ℕ) → is_newline c ≡ false → feed line x c ≡ (line ++ c ∷ [], x)
  unfolding feed
  feed_else line x c n = rw n refl

  process_newline :
      (l : Vlu P) (behind line cs : List ℕ) (c : ℕ)
      → c ≢ 0
      → is_newline c ≡ true
      → process func l behind line (c ∷ cs)
        ≡ process func record l { priv = (func l.priv line).1 } (behind ++ (line ++ 0 ∷ [])) [] cs
  unfolding process
  process_newline l behind line cs c z n =
      let z' : (c == 0) ≡ false = ground arith in
      let ok : ((func l.priv line).0 == 0) ≡ true = let a = accepts l.priv line in ground arith in
      rw (z', n, ok) refl

  process_else :
      (l : Vlu P) (behind line cs : List ℕ) (c : ℕ)
      → c ≢ 0
      → is_newline c ≡ false
      → process func l behind line (c ∷ cs) ≡ process func l behind (line ++ c ∷ []) cs
  unfolding process
  process_else l behind line cs c z n = let z' : (c == 0) ≡ false = ground arith in rw (z', n) refl

  -- What the loops do is what the bytes do one by one.
  process-feed_all :
      (l : Vlu P) (behind line cs : List ℕ) (bufl : ℕ)
      → Fits bufl line l.priv cs
      → process func l behind line cs ≡ (0, has l (feed_all line l.priv cs))
  unfolding feed_all
  process-feed_all l behind line [] bufl h = unfold process in refl
  process-feed_all l behind line (c ∷ cs) bufl (lt, z, h) = elim (Bool-cases (is_newline c)) [
    | inl n ↦
        let l' : Vlu P = record l { priv = (func l.priv line).1 } in
        let fe = feed_newline line l.priv c n in
        process_newline l behind line cs c z n
        ∙ process-feed_all l' (behind ++ (line ++ 0 ∷ [])) [] cs bufl (rw fe at h)
        ∙ ap {A = List ℕ × P} (λ t. (0, has l (feed_all t.0 t.1 cs))) (sym fe)
    | inr n ↦
        let fe = feed_else line l.priv c n in
        process_else l behind line cs c z n
        ∙ process-feed_all l behind (line ++ c ∷ []) cs bufl (rw fe at h)
        ∙ ap {A = List ℕ × P} (λ t. (0, has l (feed_all t.0 t.1 cs))) (sym fe)
  ]

  IsLine-append :
      (line : List ℕ) (c : ℕ) → IsLine line → is_newline c ≡ false → c ≢ 0 → IsLine (line ++ c ∷ [])
  IsLine-append [] c h n z = (n, z, tt)
  IsLine-append (d ∷ line) c (n', z', h) n z = (n', z', IsLine-append line c h n z)

  feed-IsLine : (line : List ℕ) (x : P) (c : ℕ) → IsLine line → c ≢ 0 → IsLine (feed line x c).0
  unfolding feed
  feed-IsLine line x c h z = elim (Bool-cases (is_newline c)) [
    | inl n ↦ rw n tt
    | inr n ↦ rw n (IsLine-append line c h n z)
  ]

  line_up_process_lem :
      (l : Vlu P) (line cs : List ℕ)
      → IsLine line
      → Fits l.bufl line l.priv cs
      → line_up_process func record l { buf = line ++ cs } ≡ (0, has l (feed_all line l.priv cs))
  unfolding line_up_process
  line_up_process_lem l line cs h fits =
      process_line func record l { buf = line ++ cs } [] [] line cs h
      ∙ process-feed_all record l { buf = line ++ cs } [] line cs l.bufl fits

  -- The bytes that a turn takes, and those that are left.
  Fits-take :
      (bufl n : ℕ) (line : List ℕ) (x : P) (cs : List ℕ)
      → Fits bufl line x cs
      → Fits bufl line x (take n cs)
  Fits-take bufl zero line x [] h = h
  Fits-take bufl zero line x (c ∷ cs) (lt, z, h) = lt
  Fits-take bufl (suc n) line x [] h = h
  Fits-take bufl (suc n) line x (c ∷ cs) (lt, z, h) =
      (lt, z, Fits-take bufl n (feed line x c).0 (feed line x c).1 cs h)

  -- After some bytes of a line: the line goes on, and the others fit.
  after_take :
      (bufl n : ℕ) (line : List ℕ) (x : P) (cs : List ℕ)
      → IsLine line
      → Fits bufl line x cs
      → IsLine (feed_all line x (take n cs)).0
        × Fits bufl (feed_all line x (take n cs)).0 (feed_all line x (take n cs)).1 (drop n cs)
        × (feed_all line x cs
            ≡ feed_all (feed_all line x (take n cs)).0 (feed_all line x (take n cs)).1 (drop n cs))
  unfolding feed_all
  after_take bufl zero line x cs i h = (i, h, refl)
  after_take bufl (suc n) line x [] i h = (i, h, refl)
  after_take bufl (suc n) line x (c ∷ cs) i (lt, z, h) =
      after_take bufl n (feed line x c).0 (feed line x c).1 cs (feed-IsLine line x c i z) h

  Fits-start :
      (bufl : ℕ) (line : List ℕ) (x : P) (cs : List ℕ) → Fits bufl line x cs → length line < bufl
  Fits-start bufl line x [] h = h
  Fits-start bufl line x (c ∷ cs) (lt, z, h) = lt

  data_loop_lem :
      (fuel : ℕ) (cs : List ℕ) (l : Vlu P)
      → IsLine l.buf
      → Fits l.bufl l.buf l.priv cs
      → length cs < fuel
      → data_loop func fuel 0 cs l ≡ some (0, has l (feed_all l.buf l.priv cs))
  unfolding data_loop feed_all
  data_loop_lem zero cs l i h lt = let absurd : ⊥ = omega arith in elim absurd [ ]
  data_loop_lem (suc fuel) [] l i h lt = refl
  data_loop_lem (suc fuel) (c ∷ cs) l i h lt =
      let space = l.bufl - length l.buf in
      let n = if ltb space (length (c ∷ cs)) then space else length (c ∷ cs) in
      let s = Fits-start l.bufl l.buf l.priv (c ∷ cs) h in
      let hn : (1 ≤ n) × (n ≤ length (c ∷ cs)) = ground arith in
      let d = length-drop_le n (c ∷ cs) hn.1 in
      let z : (length (c ∷ cs) == 0) ≡ false = ground arith in
      let done =
        line_up_process_lem l l.buf (take n (c ∷ cs)) i
          (Fits-take l.bufl n l.buf l.priv (c ∷ cs) h) in
      let (i', h', e) = after_take l.bufl n l.buf l.priv (c ∷ cs) i h in
      let ih =
        data_loop_lem fuel (drop n (c ∷ cs)) (has l (feed_all l.buf l.priv (take n (c ∷ cs)))) i' h'
          (omega arith) in
      rw (z, done) (ih ∙ ap some (ap {A = List ℕ × P} (λ t. (0, has l t)) (sym e)))

  -- VLU_Data of vlu.c, without telnet: where the callback accepts every line, the buffer holds a line
  -- that is not ended, no byte is a nul, and every byte finds space behind the line that it belongs to,
  -- the loops end, and give 0, the callback has had the lines one by one, and the line that is not ended
  -- is in the buffer: however the input is cut, the result is that of its bytes one after the other.
  pub vlu_data-feed_all :
      (cs : List ℕ) (l : Vlu P)
      → IsLine l.buf
      → Fits l.bufl l.buf l.priv cs
      → vlu_data func cs l ≡ some (0, has l (feed_all l.buf l.priv cs))
  unfolding vlu_data
  vlu_data-feed_all cs l i h = data_loop_lem (length cs + 1) cs l i h (omega arith)

  feed_all-append :
      (line : List ℕ) (x : P) (a b : List ℕ)
      → feed_all line x (a ++ b) ≡ feed_all (feed_all line x a).0 (feed_all line x a).1 b
  unfolding feed_all
  feed_all-append line x [] b = refl
  feed_all-append line x (c ∷ a) b = feed_all-append (feed line x c).0 (feed line x c).1 a b

module _ {P : Type 0} (func : P → List ℕ → ℕ × P) where
  -- VLU_Data of vlu.c: with a full buffer that holds no line end and no nul, whatever the callback does,
  -- the loop takes no byte: it goes round for ever, without reading the input.
  pub data_loop-full :
      (fuel i c : ℕ) (cs : List ℕ) (l : Vlu P)
      → IsLine l.buf
      → length l.buf ≡ l.bufl
      → data_loop func fuel i (c ∷ cs) l ≡ none
  unfolding data_loop
  data_loop-full zero i c cs l h full = refl
  data_loop-full (suc fuel) i c cs l h full =
      let n : (if ltb (l.bufl - length l.buf) (length (c ∷ cs))
            then l.bufl - length l.buf
            else length (c ∷ cs))
          ≡ 0 =
        ground arith in
      let z : (length (c ∷ cs) == 0) ≡ false = ground arith in
      let same : line_up_process func record l { buf = l.buf ++ [] } ≡ (0, l) =
        unfold line_up_process process in
        process_line func record l { buf = l.buf ++ [] } [] [] l.buf [] h in
      rw (n, same, z) (data_loop-full fuel 0 c cs l h full)
