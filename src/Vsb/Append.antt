-- ===== src/Vsb/Append.antt =====
-- VSB_put_byte, VSB_bcat and VSB_cat of lib/libvarnish/vsb.c.
use pkg_varnish.Prelude.{
  ℕ, suc, ◌+◌, ◌<◌, ◌≡◌, refl, sym, ap, ◌∙◌, inl, inr, true, false, Option, none, some, List, [],
  ◌∷◌, ◌++◌, arith, ltb, leb, ◌==◌, if◌then◌else◌, Bool-cases, length, take, take-nil,
}
use mathlib.Core.Path.{subst}
use mathlib.Core.List.{append_assoc, append-nil}
use pkg_varnish.Prelude.Memory.{Memory, memcpy}
use pkg_varnish.Vsb.{
  Vsb, Status, success, failure, extendsize, extend, contents, freespace, put_byte, put_all, cat,
  store, make_room, enomem,
}
use pkg_varnish.Vsb.Extend.{IsValid, contents-append, contents-grown, extendsize_bounds}

abbrev pub after_byte : Vsb → ℕ → Vsb
after_byte s c = record s { buf = memcpy s.buf s.len (c ∷ []); len = s.len + 1 }

module _ (malloc : ℕ → Option Memory) where
  put_byte-room :
      (s : Vsb) (c : ℕ)
      → IsValid s
      → s.error ≡ 0
      → 0 < freespace s
      → put_byte malloc s c ≡ some (after_byte s c)
  unfolding put_byte store make_room
  put_byte-room s c v clean room = ground arith

  put_byte-full :
      (s : Vsb) (c : ℕ)
      → IsValid s
      → s.error ≡ 0
      → freespace s ≡ 0
      → s.autoextend ≡ false
      → put_byte malloc s c ≡ some (record s { error = enomem })
  unfolding put_byte store make_room extend
  put_byte-full s c v clean full fixed = ground arith

  abbrev grown : Vsb → Memory → Vsb
  grown s fresh = record s {
    buf = λ i. if ltb i s.size then s.buf i else fresh i;
    size = extendsize (s.size + 1);
    dynamic = true;
  }

  module _ (s : Vsb) (c : ℕ) (fresh : Memory) (v : IsValid s) (clean : s.error ≡ 0)
      (full : freespace s ≡ 0) (auto : s.autoextend ≡ true)
      (given : malloc (extendsize (s.size + 1)) ≡ some fresh) where
    extend-grow : extend malloc s 1 ≡ (grown s fresh, success)
    unfolding extend
    extend-grow = rw (auto, given)

    make_room-grow : make_room malloc s ≡ grown s fresh
    unfolding make_room
    make_room-grow = rw (extend-grow, full)

    put_byte-grow : put_byte malloc s c ≡ some (after_byte (grown s fresh) c)
    unfolding put_byte store
    put_byte-grow = rw make_room-grow (ground arith)

    put_all-grow :
        (cs : List ℕ) → put_all malloc s (c ∷ cs) ≡ put_all malloc (after_byte (grown s fresh) c) cs
    unfolding put_all
    put_all-grow cs = rw put_byte-grow (ground arith)

    contents-grow : contents (after_byte (grown s fresh) c) ≡ contents s ++ c ∷ []
    contents-grow =
        contents-append (grown s fresh) (c ∷ [])
        ∙ ap (λ t. t ++ c ∷ []) (contents-grown s fresh (extendsize (s.size + 1)) v)

-- What appending `bytes` to a buffer of a fixed size may come back with.
abbrev pub Filled : Vsb → List ℕ → Option (Vsb × Status) → Type 0
Filled s bytes none = ⊥
Filled s bytes (some (s', rc)) =
    (contents s' ≡ contents s ++ take (freespace s) bytes)
    × (rc ≡ (if leb (length bytes) (freespace s) then success else failure))
    × (s'.error ≡ (if leb (length bytes) (freespace s) then 0 else enomem))
    × IsValid s'
    × (s'.size ≡ s.size)

-- What appending `bytes` to an extensible buffer may come back with.
abbrev pub Extended : Vsb → List ℕ → Option (Vsb × Status) → Type 0
Extended s bytes none = ⊥
Extended s bytes (some (s', rc)) =
    (contents s' ≡ contents s ++ bytes)
    × (rc ≡ success)
    × (s'.error ≡ 0)
    × IsValid s'
    × (s'.autoextend ≡ true)

module _ (malloc : ℕ → Option Memory) where
  Filled-room :
      (s : Vsb) (c : ℕ) (cs : List ℕ) (r : Option (Vsb × Status))
      → 0 < freespace s
      → Filled (after_byte s c) cs r
      → Filled s (c ∷ cs) r
  Filled-room s c cs none room h = h
  Filled-room s c cs (some (s', rc)) room h =
      let e : freespace s ≡ suc (freespace (after_byte s c)) = omega arith in
      let tail = take (freespace (after_byte s c)) cs in
      rw e (
        h.0
            ∙ ap (λ t. t ++ tail) (contents-append s (c ∷ []))
            ∙ append_assoc (contents s) (c ∷ []) tail,
        ground arith,
        ground arith,
        h.3,
        h.4,
      )

  put_all-room :
      (s : Vsb) (c : ℕ) (cs : List ℕ)
      → IsValid s
      → s.error ≡ 0
      → 0 < freespace s
      → put_all malloc s (c ∷ cs) ≡ put_all malloc (after_byte s c) cs
  unfolding put_all
  put_all-room s c cs v clean room = rw (put_byte-room malloc s c v clean room) (ground arith)

  -- On a buffer of a fixed size the bytes that fit are appended; the call fails, with ENOMEM, exactly
  -- where some do not.
  pub put_all-Filled :
      (s : Vsb) (bytes : List ℕ)
      → IsValid s
      → s.error ≡ 0
      → s.autoextend ≡ false
      → Filled s bytes (put_all malloc s bytes)
  unfolding put_all contents
  put_all-Filled s [] v clean fixed =
      (rw (take-nil, append-nil), ground arith, ground arith, v, refl)
  put_all-Filled s (c ∷ cs) v clean fixed = elim (Bool-cases (freespace s == 0)) [
    | inl full ↦
        let none_left : freespace s ≡ 0 = ground arith in
        rw (put_byte-full malloc s c v clean none_left fixed, none_left)
          (
            rw append-nil,
            ground arith,
            ground arith,
            record { within = v.within; open_ended = v.open_ended },
            refl,
          )
    | inr room ↦ rw (put_all-room s c cs v clean (ground arith)) (
        Filled-room s c cs (put_all malloc (after_byte s c) cs) (ground arith)
          (put_all-Filled (after_byte s c) cs (ground arith) clean fixed))
  ]

  -- Without an earlier error VSB_cat on a buffer of a fixed size appends the bytes of the string that
  -- leave room for the nul, and no others; it returns -1, and sets ENOMEM, exactly where some do not
  -- fit. The size stays and no assertion fails.
  pub cat-Filled :
      (s : Vsb) (str : List ℕ)
      → IsValid s
      → s.error ≡ 0
      → s.autoextend ≡ false
      → Filled s str (cat malloc s str)
  unfolding cat
  cat-Filled s str v clean fixed =
      subst (Filled s str) (sym run) (put_all-Filled s str v clean fixed)
    where
      run : cat malloc s str ≡ put_all malloc s str
      run = ground arith

module _ (malloc : ℕ → Option Memory) (total : (n : ℕ) → (m : Memory) × (malloc n ≡ some m)) where
  Extended-byte :
      (s t : Vsb) (c : ℕ) (cs : List ℕ) (r : Option (Vsb × Status))
      → contents t ≡ contents s ++ c ∷ []
      → Extended t cs r
      → Extended s (c ∷ cs) r
  Extended-byte s t c cs none e h = h
  Extended-byte s t c cs (some (s', rc)) e h =
      (h.0 ∙ ap (λ u. u ++ cs) e ∙ append_assoc (contents s) (c ∷ []) cs, h.1, h.2, h.3, h.4)

  put_all-Extended :
      (s : Vsb) (bytes : List ℕ)
      → IsValid s
      → s.error ≡ 0
      → s.autoextend ≡ true
      → Extended s bytes (put_all malloc s bytes)
  unfolding put_all
  put_all-Extended s [] v clean auto = (rw append-nil, refl, clean, v, auto)
  put_all-Extended s (c ∷ cs) v clean auto = elim (Bool-cases (freespace s == 0)) [
    | inl full ↦
        let (fresh, given) = total (extendsize (s.size + 1)) in
        let t = after_byte (grown malloc s fresh) c in
        let bounds = extendsize_bounds (s.size + 1) in
        let still : IsValid t = record { within = omega arith; open_ended = v.open_ended } in
        let here : freespace s ≡ 0 = ground arith in
        rw (put_all-grow malloc s c fresh v clean here auto given cs) (
          Extended-byte s t c cs (put_all malloc t cs)
            (contents-grow malloc s c fresh v clean here auto given)
            (put_all-Extended t cs still clean auto))
    | inr room ↦ rw (put_all-room malloc s c cs v clean (ground arith)) (
        Extended-byte s (after_byte s c) c cs (put_all malloc (after_byte s c) cs)
          (contents-append s (c ∷ []))
          (put_all-Extended (after_byte s c) cs (ground arith) clean auto))
  ]

  -- Without an earlier error, and while malloc gives what is asked for, VSB_cat on an extensible
  -- buffer appends the whole string and returns 0; no assertion fails.
  pub cat-Extended :
      (s : Vsb) (str : List ℕ)
      → IsValid s
      → s.error ≡ 0
      → s.autoextend ≡ true
      → Extended s str (cat malloc s str)
  unfolding cat
  cat-Extended s str v clean auto =
      subst (Extended s str) (sym run) (put_all-Extended s str v clean auto)
    where
      run : cat malloc s str ≡ put_all malloc s str
      run = ground arith
