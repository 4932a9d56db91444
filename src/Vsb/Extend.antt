-- ===== src/Vsb/Extend.antt =====
-- VSB_extendsize and VSB_extend of lib/libvarnish/vsb.c.
use pkg_varnish.Prelude.{
  ℕ, ◌+◌, ◌*◌, ◌%◌, ◌≤◌, ◌<◌, ◌≡◌, ◌⊎◌, true, false, List, ◌++◌, arith, ltb, if◌then◌else◌, length,
}
use pkg_varnish.Prelude.Memory.{Memory, memcpy, read_agree, read-append_start}
use pkg_varnish.Vsb.{Vsb, extend_loop, extendsize, contents}

-- The new size is at least the size asked for, a multiple of 16, and less than twice that size unless
-- it is the least one.
pub extendsize_bounds :
    (size : ℕ)
    → (size ≤ extendsize size)
      × (extendsize size % 16 ≡ 0)
      × ((extendsize size ≡ 16) ⊎ (extendsize size < 2 * size))
unfolding extendsize extend_loop
extendsize_bounds size = ground arith

-- What the assertions of each function demand: room for a nul, and no VSB_finish yet.
pub record IsValid (s : Vsb) : Type 0 where
  pub within : s.len < s.size
  pub open_ended : s.finished ≡ false

pub contents-append :
    (s : Vsb) (bytes : List ℕ)
    → contents (record s { buf = memcpy s.buf s.len bytes; len = s.len + length bytes })
      ≡ contents s ++ bytes
unfolding contents
contents-append s bytes = read-append_start s.buf s.len bytes

module _ (s : Vsb) (fresh : Memory) (newsize : ℕ) (v : IsValid s) where
  pub contents-grown :
      contents (record s {
        buf = λ i. if ltb i s.size then s.buf i else fresh i;
        size = newsize;
        dynamic = true;
      })
      ≡ contents s
  unfolding contents
  contents-grown = read_agree _ s.buf 0 s.len (λ a l u. ground (arith, v.within))
