-- ===== src/Vlu.antt =====
-- lib/libvarnish/vlu.c: input that comes in pieces is cut into lines for a callback.
-- `buf` is the bytes of the buffer up to bufp, and its nul is where they end. The callback takes its
-- private data and a line, and gives its result and the data. Telnet is off.
pub mod Lines
pub mod Tests
use pkg_varnish.Prelude.{
  ℕ, zero, suc, ◌+◌, ◌-◌, ◌*◌, ◌/◌, ◌%◌, ◌^◌, ◌≤◌, ◌<◌, ◌≡◌, refl, sym, ap, ◌∙◌, ◌≢◌, ◌↔◌, ◌⊎◌, inl,
  inr, Bool, true, false, not, ◌&&◌, ◌||◌, Option, none, some, List, [], ◌∷◌, ◌++◌, arith, ltb, leb,
  ◌==◌, if◌then◌else◌, ltb→lt, leb→le, ==_iff, Bool-cases, Option-cases, length, length-append,
  take, drop, set, length-drop_le, ◌>>=◌, ◌>>◌, assert,
}

pub record Vlu (P : Type 0) : Type 0 where
  pub buf : List ℕ
  pub bufl : ℕ
  pub priv : P

unfoldable pub is_newline : ℕ → Bool
is_newline c = c == 10 || c == 13

module _ {P : Type 0} (func : P → List ℕ → ℕ × P) where
  -- The loops of LineUpProcess: `behind` are the lines that were taken, each with a nul in the place of
  -- its end, `line` is from p to q, and then what is from q on.
  unfoldable pub process : Vlu P → List ℕ → List ℕ → List ℕ → ℕ × Vlu P
  process l behind line [] = (0, record l { buf = line })
  process l behind line (c ∷ cs) =
      let taken = func l.priv line in
      let l' : Vlu P = record l { priv = taken.1 } in
      let rest = process l' (behind ++ (line ++ 0 ∷ [])) [] cs in
      let longer = process l behind (line ++ c ∷ []) cs in
      if c == 0
      then (0, record l { buf = line })
      else (if not (is_newline c)
          then longer
          else (if taken.0 == 0
              then rest
              else (taken.0, record l' { buf = behind ++ (line ++ 0 ∷ cs) })))

  unfoldable pub line_up_process : Vlu P → ℕ × Vlu P
  line_up_process l = process l [] [] l.buf

  unfoldable pub data_loop : ℕ → ℕ → List ℕ → Vlu P → Option (ℕ × Vlu P)
  data_loop zero i p l = none
  data_loop (suc fuel) i p l =
      let space = l.bufl - length l.buf in
      let n = if ltb space (length p) then space else length p in
      let done = line_up_process record l { buf = l.buf ++ take n p } in
      let rest = data_loop fuel done.0 (drop n p) done.1 in
      if length p == 0 then some (i, l) else (if done.0 == 0 then rest else some done)

  -- VLU_Data, with a turn of fuel for each byte and one more.
  unfoldable pub vlu_data : List ℕ → Vlu P → Option (ℕ × Vlu P)
  vlu_data p l = data_loop (length p + 1) 0 p l

  -- VLU_Fd, where read gives these bytes, which fit; `none` is the return of -1.
  unfoldable pub vlu_fd : List ℕ → Vlu P → Option (ℕ × Vlu P)
  vlu_fd [] l = none
  vlu_fd (b ∷ bs) l = some (line_up_process record l { buf = l.buf ++ b ∷ bs })
