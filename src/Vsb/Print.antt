-- ===== src/Vsb/Print.antt =====
-- VSB_vprintf of lib/libvarnish/vsb.c.
use pkg_varnish.Prelude.{
  ℕ, suc, ◌+◌, ◌-◌, ◌≤◌, ◌<◌, ◌≡◌, refl, ap, ◌∙◌, inl, inr, true, false, not, ◌&&◌, Option, none,
  some, List, [], ◌∷◌, ◌++◌, arith, ltb, if◌then◌else◌, Bool-cases, length, take, take_all,
  length-take_le,
}
use pkg_varnish.Prelude.Memory.{Memory, memcpy_elsewhere, read_agree, read-append_prefix}
use pkg_varnish.Vsb.{
  Vsb, Status, success, failure, extendsize, extend, contents, freespace, vprintf, print_loop,
  print_at, print_count, enomem, status,
}
use pkg_varnish.Vsb.Extend.{IsValid, extendsize_bounds}

-- The bytes of one call of vsnprintf that are not cut off.
abbrev written : Vsb → List ℕ → ℕ
written s out = if ltb (freespace s) (length out) then freespace s else length out

length-written : (s : Vsb) (out : List ℕ) → length (take (freespace s) out) ≡ written s out
length-written s out = elim (Bool-cases (ltb (freespace s) (length out))) [
  | inl cut ↦ rw cut (length-take_le (freespace s) out (ground arith))
  | inr fits ↦ rw (fits, take_all (freespace s) out (ground arith))
]

module _ (malloc : ℕ → Option Memory) where
  contents-print :
      (s : Vsb) (out : List ℕ) (e : ℕ)
      → contents (record (print_at malloc s out) { len = s.len + written s out; error = e })
        ≡ contents s ++ take (freespace s) out
  unfolding contents print_at
  contents-print s out e =
      let size = length-written s out in
      rw (← size) (read-append_prefix s.buf s.len (take (freespace s) out) (0 ∷ []))

  print_loop-fixed :
      (s : Vsb) (out : List ℕ) (fuel : ℕ)
      → s.autoextend ≡ false
      → print_loop malloc (suc fuel) s out ≡ print_at malloc s out
  unfolding print_loop extend
  print_loop-fixed s out fuel fixed = ground arith

  print_loop-fits :
      (s : Vsb) (out : List ℕ) (fuel : ℕ)
      → length out ≤ freespace s
      → print_loop malloc (suc fuel) s out ≡ print_at malloc s out
  unfolding print_loop
  print_loop-fits s out fuel fits = ground arith

  -- The buffer after printing `out` without an extension.
  abbrev counted : Vsb → List ℕ → Vsb
  counted s out = record (print_at malloc s out) {
    len = s.len + written s out;
    error =
        if not (ltb (s.len + written s out) (s.size - 1)) && not s.autoextend
        then enomem
        else s.error;
  }

  print_count-print :
      (s : Vsb) (out : List ℕ) → print_count malloc (print_at malloc s out) out ≡ counted s out
  unfolding print_count print_at
  print_count-print s out = refl

  counted-IsValid : (s : Vsb) (out : List ℕ) → IsValid s → IsValid (counted s out)
  unfolding print_at
  counted-IsValid s out v = ground arith

  vprintf-counted :
      (s t : Vsb) (out : List ℕ)
      → IsValid s
      → s.error ≡ 0
      → IsValid t
      → print_loop malloc 2 s out ≡ print_at malloc t out
      → vprintf malloc s out ≡ some (counted t out, status (counted t out))
  unfolding vprintf
  vprintf-counted s t out v clean w run =
      let still = counted-IsValid t out w in
      rw (run, print_count-print t out) (ground (arith, v.within, still.within))

  -- What printing on a buffer of a fixed size may come back with.
  abbrev pub Printed : Vsb → List ℕ → Option (Vsb × Status) → Type 0
  Printed s out none = ⊥
  Printed s out (some (s', rc)) =
      (contents s' ≡ contents s ++ take (freespace s) out)
      × (rc ≡ (if ltb (length out) (freespace s) then success else failure))
      × (s'.error ≡ (if ltb (length out) (freespace s) then 0 else enomem))
      × IsValid s'
      × (s'.size ≡ s.size)

  -- Without an earlier error VSB_vprintf on a buffer of a fixed size appends what leaves room for the
  -- nul, and returns -1 with ENOMEM exactly where no room is left after it: also where the text fits
  -- without a byte to spare.
  pub vprintf-Printed :
      (s : Vsb) (out : List ℕ)
      → IsValid s
      → s.error ≡ 0
      → s.autoextend ≡ false
      → Printed s out (vprintf malloc s out)
  unfolding status print_at
  vprintf-Printed s out v clean fixed =
      rw (vprintf-counted s s out v clean v (print_loop-fixed s out 1 fixed))
        (contents-print s out _, ground arith, ground arith, counted-IsValid s out v, refl)

  -- What printing on an extensible buffer may come back with, if it takes the bytes `taken` of the text.
  abbrev pub PrintedAs : Vsb → List ℕ → Option (Vsb × Status) → Type 0
  PrintedAs s taken none = ⊥
  PrintedAs s taken (some (s', rc)) =
      (contents s' ≡ contents s ++ taken) × (rc ≡ success) × (s'.error ≡ 0) × IsValid s'

  counted-PrintedAs :
      (s t : Vsb) (out : List ℕ)
      → IsValid s
      → s.error ≡ 0
      → IsValid t
      → t.error ≡ 0
      → t.autoextend ≡ true
      → contents t ≡ contents s
      → print_loop malloc 2 s out ≡ print_at malloc t out
      → PrintedAs s (take (freespace t) out) (vprintf malloc s out)
  unfolding status
  counted-PrintedAs s t out v clean w clean' auto same run =
      rw (vprintf-counted s t out v clean w run) (
        contents-print t out _ ∙ ap (λ u. u ++ take (freespace t) out) same,
        ground arith,
        ground arith,
        counted-IsValid t out w,
      )

  print_loop-refused :
      (s : Vsb) (out : List ℕ) (fuel : ℕ)
      → malloc (extendsize (s.size + (length out - freespace s))) ≡ none
      → print_loop malloc (suc fuel) s out ≡ print_at malloc s out
  unfolding print_loop extend print_at
  print_loop-refused s out fuel refused = ground arith

  -- Where malloc gives no memory, VSB_vprintf on an extensible buffer cuts the text off, and still
  -- returns 0 and sets no error.
  pub vprintf-cut_off :
      (s : Vsb) (out : List ℕ)
      → IsValid s
      → s.error ≡ 0
      → s.autoextend ≡ true
      → malloc (extendsize (s.size + (length out - freespace s))) ≡ none
      → PrintedAs s (take (freespace s) out) (vprintf malloc s out)
  vprintf-cut_off s out v clean auto refused =
      counted-PrintedAs s s out v clean v clean auto refl (print_loop-refused s out 1 refused)

  module _ (s : Vsb) (out : List ℕ) (v : IsValid s) (auto : s.autoextend ≡ true) (fresh : Memory)
      (given : malloc (extendsize (s.size + (length out - freespace s))) ≡ some fresh)
      (over : freespace s < length out) where
    -- The buffer with the first, cut off, text in it, after VSB_extend.
    widened : Vsb
    widened = record s {
      buf = λ i. if ltb i s.size then (print_at malloc s out).buf i else fresh i;
      size = extendsize (s.size + (length out - freespace s));
      dynamic = true;
    }

    extend-print :
        extend malloc (print_at malloc s out) (length out - freespace s) ≡ (widened, success)
    unfolding extend print_at widened
    extend-print = rw (auto, given)

    widened-IsValid : IsValid widened
    unfolding widened
    widened-IsValid = ground (arith, extendsize_bounds (s.size + (length out - freespace s)))

    widened-fits : length out ≤ freespace widened
    unfolding widened
    widened-fits = ground (arith, extendsize_bounds (s.size + (length out - freespace s)))

    print_loop-widened : print_loop malloc 2 s out ≡ print_at malloc widened out
    unfolding print_loop
    print_loop-widened = rw extend-print (ground (arith, widened-fits))

    contents-widened : contents widened ≡ contents s
    unfolding contents widened print_at
    contents-widened = read_agree widened.buf s.buf 0 s.len (λ a l u. ground (
      arith,
      v.within,
      memcpy_elsewhere s.buf s.len a (take (freespace s) out ++ 0 ∷ []) (inl (omega arith)),
    ))

module _ (malloc : ℕ → Option Memory) (total : (n : ℕ) → (m : Memory) × (malloc n ≡ some m)) where
  -- Without an earlier error, and while malloc gives what is asked for, VSB_vprintf on an extensible
  -- buffer appends the whole text and returns 0.
  pub vprintf-whole :
      (s : Vsb) (out : List ℕ)
      → IsValid s
      → s.error ≡ 0
      → s.autoextend ≡ true
      → PrintedAs malloc s out (vprintf malloc s out)
  unfolding widened print_at
  vprintf-whole s out v clean auto = elim (Bool-cases (ltb (freespace s) (length out))) [
    | inr fits ↦
        let le : length out ≤ freespace s = ground arith in
        rw (take_all (freespace s) out le) at (
          counted-PrintedAs malloc s s out v clean v clean auto refl
            (print_loop-fits malloc s out 1 le))
    | inl over ↦
        let (fresh, given) = total (extendsize (s.size + (length out - freespace s))) in
        let over' : freespace s < length out = ground arith in
        let t = widened malloc s out v auto fresh given over' in
        let fits = widened-fits malloc s out v auto fresh given over' in
        rw (take_all (freespace t) out fits) at (
          counted-PrintedAs malloc s t out v clean
            (widened-IsValid malloc s out v auto fresh given over') clean auto
            (contents-widened malloc s out v auto fresh given over')
            (print_loop-widened malloc s out v auto fresh given over'))
  ]
