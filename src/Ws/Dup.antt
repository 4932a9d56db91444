-- ===== src/Ws/Dup.antt =====
-- WS_Dup of bin/varnishd/cache_ws.c.
use pkg_varnish.Prelude.{
  ℕ, ◌+◌, ◌%◌, ◌^◌, ◌≤◌, ◌<◌, ◌≡◌, refl, ◌⊎◌, inl, inr, Option, none, some, List, [], ◌∷◌, ◌++◌,
  arith, length, length-append, ◌>>=◌, ◌>>◌,
}
use pkg_varnish.Prelude.Memory.{Memory, read, read-memcpy, memcpy_elsewhere}
use pkg_varnish.Ws.{Ws, ws_assert, alloc, dup, copy_if}
use pkg_varnish.Ws.Valid.{IsValid, ws_assert-IsValid}
use pkg_varnish.Ws.Alloc.{Allocated, alloc-Allocated, max_request}

-- What WS_Dup may come back with.
abbrev pub Copied : Memory → Ws → List ℕ → Option (Option ℕ × Ws × Memory) → Type 0
Copied m ws str none = ⊥
Copied m ws str (some (none, ws', m')) = Allocated ws (length str + 1) (some (none, ws')) × (m' ≡ m)
Copied m ws str (some (some p, ws', m')) =
    Allocated ws (length str + 1) (some (some p, ws'))
    × (read m' p (length str + 1) ≡ str ++ 0 ∷ [])
    × ((a : ℕ) → (a < p) ⊎ (ws'.f ≤ a) → m' a ≡ m a)

dup_step :
    (m : Memory) (ws : Ws) (str : List ℕ) (o : Option (Option ℕ × Ws))
    → Allocated ws (length str + 1) o
    → Copied m ws str
        (o >>= λ (p, ws'). ws_assert ws' >> some (p, ws', copy_if m p (str ++ 0 ∷ [])))
unfolding copy_if
dup_step m ws str none a = a
dup_step m ws str (some (none, ws')) a = rw (ws_assert-IsValid ws' a.0) (a, refl)
dup_step m ws str (some (some p, ws')) a =
    let size : length (str ++ 0 ∷ []) ≡ length str + 1 = length-append str (0 ∷ []) in
    rw (ws_assert-IsValid ws' a.0) (
      a,
      rw size at (read-memcpy m p (str ++ 0 ∷ [])),
      λ x away.
          memcpy_elsewhere m p x (str ++ 0 ∷ [])
            (rw size (elim away [ inl h ↦ inl h | inr h ↦ inr (omega arith) ])),
    )

-- On a valid workspace with no reservation WS_Dup either returns the null pointer and writes
-- nothing, as WS_Alloc for the string and its nul would, or returns a block that WS_Alloc hands out
-- which holds the string and its nul; no byte outside the block is written.
pub dup-Copied :
    (m : Memory) (ws : Ws) (str : List ℕ)
    → IsValid ws
    → ws.r ≡ none
    → length str + 1 ≤ max_request
    → Copied m ws str (dup m ws str)
unfolding dup
dup-Copied m ws str v idle small =
    let fits : (length str + 1) % 2 ^ 32 ≡ length str + 1 = omega arith in
    rw (ws_assert-IsValid ws v, fits)
      (dup_step m ws str (alloc ws (length str + 1))
        (alloc-Allocated ws (length str + 1) v idle small))
