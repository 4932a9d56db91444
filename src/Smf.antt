-- ===== src/Smf.antt =====
-- bin/varnishd/storage_file.c: the ranges of the file that holds the objects.
-- A struct smf is a number, NULL is none, and its fields are what `smf` has there. `free b` is the
-- free list of bucket b, and `flist` the bucket of the list that the range is on. The address of a
-- new struct is an argument of the functions that call malloc. A failed assertion is `none`, and
-- the lock is left out. The counters are 64 bits wide.
pub mod Lists
pub mod Merging
pub mod Tests
pub mod Opening
pub mod Runs
pub mod Requests
pub mod Cutting
pub mod Rounding
pub mod Trimming
pub mod Storage
pub mod Allocating
pub mod Fronts
pub mod Choosing
pub mod Freeing
pub mod Ranges
pub mod Merges
use pkg_varnish.Prelude.{
  ℕ, zero, suc, ◌+◌, ◌-◌, ◌*◌, ◌/◌, ◌%◌, ◌^◌, Bool, true, false, not, ◌&&◌, Option, none, some,
  List, [], ◌∷◌, ◌++◌, ltb, leb, ◌==◌, if◌then◌else◌, ◌>>=◌, ◌>>◌, assert,
}
use Prim.Native.Nat.{bit_and}
use pkg_varnish.Prelude.Cells.{write}
use pkg_varnish.Prelude.Tailq.{remove, first, next, prev, insert_before, insert_after}
use pkg_varnish.Prelude.Tailq

abbrev pub nbucket : ℕ
nbucket = 128 / 4 + 1

pub record Smf : Type 0 where
  pub alloc : Bool
  pub size : ℕ
  pub offset : ℕ
  pub ptr : ℕ
  pub flist : Option ℕ

pub record Stats : Type 0 where
  pub c_req : ℕ
  pub c_fail : ℕ
  pub c_bytes : ℕ
  pub c_freed : ℕ
  pub g_alloc : ℕ
  pub g_bytes : ℕ
  pub g_space : ℕ
  pub g_smf : ℕ
  pub g_smf_frag : ℕ
  pub g_smf_large : ℕ

pub record SmfSc : Type 0 where
  pub smf : ℕ → Smf
  pub order : List ℕ
  pub free : ℕ → List ℕ
  pub used : List ℕ
  pub pagesize : ℕ
  pub stats : Stats

unfoldable pub add : ℕ → ℕ → ℕ
add a b = (a + b) % 2 ^ 64

unfoldable pub sub : ℕ → ℕ → ℕ
sub a b = (a + 2 ^ 64 - b % 2 ^ 64) % 2 ^ 64

unfoldable pub bucket : ℕ → ℕ → ℕ
bucket pagesize size = if leb nbucket (size / pagesize) then nbucket - 1 else size / pagesize

unfoldable pub is_large : ℕ → ℕ → Bool
is_large pagesize size = leb nbucket (size / pagesize)

unfoldable pub count_in : SmfSc → ℕ → Stats
count_in sc size =
    if is_large sc.pagesize size
    then record sc.stats { g_smf_large = add sc.stats.g_smf_large 1 }
    else record sc.stats { g_smf_frag = add sc.stats.g_smf_frag 1 }

unfoldable pub count_out : SmfSc → ℕ → Stats
count_out sc size =
    if is_large sc.pagesize size
    then record sc.stats { g_smf_large = sub sc.stats.g_smf_large 1 }
    else record sc.stats { g_smf_frag = sub sc.stats.g_smf_frag 1 }

-- Whether the flist pointer is that of the bucket's list.
unfoldable pub is_at : Option ℕ → ℕ → Bool
is_at none b = false
is_at (some c) b = c == b

unfoldable pub is_none : Option ℕ → Bool
is_none none = true
is_none (some c) = false

-- The loop of insfree and the insertion behind it.
unfoldable pub place : (ℕ → Smf) → ℕ → ℕ → ℕ → List ℕ → Option (List ℕ)
place smf ns b sp [] = some (sp ∷ [])
place smf ns b sp (sp2 ∷ sps) =
    assert (leb ns (smf sp2).size && not (smf sp2).alloc && is_at (smf sp2).flist b)
    >> (if ltb (smf sp).offset (smf sp2).offset
        then some (sp ∷ sp2 ∷ sps)
        else (place smf ns b sp sps >>= λ l. some (sp2 ∷ l)))

unfoldable pub insfree : SmfSc → ℕ → Option SmfSc
insfree sc sp =
    let b = bucket sc.pagesize (sc.smf sp).size in
    let smf = write sc.smf sp record (sc.smf sp) { flist = some b } in
    assert (not (sc.smf sp).alloc && is_none (sc.smf sp).flist)
    >> (place smf (b * sc.pagesize) b sp (sc.free b) >>= λ l.
        some
          record sc { smf = smf; free = write sc.free b l; stats = count_in sc (sc.smf sp).size })

unfoldable pub remfree : SmfSc → ℕ → Option SmfSc
remfree sc sp =
    let b = bucket sc.pagesize (sc.smf sp).size in
    assert (not (sc.smf sp).alloc && is_at (sc.smf sp).flist b)
    >> some record sc {
      smf = write sc.smf sp record (sc.smf sp) { flist = none };
      free = write sc.free b (remove sp (sc.free b));
      stats = count_out sc (sc.smf sp).size;
    }

-- `sp` where it is not NULL.
unfoldable pub or_else : Option ℕ → Option ℕ → Option ℕ
or_else none other = other
or_else (some sp) other = some sp

-- The first range of the buckets from b on, for so many buckets.
unfoldable pub first_free : (ℕ → List ℕ) → ℕ → ℕ → Option ℕ
first_free free zero b = none
first_free free (suc n) b = or_else (first (free b)) (first_free free n (b + 1))

-- The first range of the list that is large enough.
unfoldable pub large_enough : (ℕ → Smf) → ℕ → List ℕ → Option ℕ
large_enough smf bytes [] = none
large_enough smf bytes (sp ∷ sps) =
    if leb bytes (smf sp).size then some sp else large_enough smf bytes sps

unfoldable pub choose : SmfSc → ℕ → Option ℕ
choose sc bytes =
    let b = bucket sc.pagesize bytes in
    or_else (first_free sc.free (nbucket - 1 - b) b)
      (large_enough sc.smf bytes (sc.free (nbucket - 1)))

unfoldable pub more_smf : Stats → Stats
more_smf st = record st { g_smf = add st.g_smf 1 }

unfoldable pub less_smf : Stats → Stats
less_smf st = record st { g_smf = sub st.g_smf 1 }

-- Split from front: the new range is the first part.
unfoldable pub split : SmfSc → ℕ → ℕ → ℕ → Option (Option ℕ × SmfSc)
split sc sp bytes new =
    let s = sc.smf sp in
    let rest : Smf = record s {
      offset = s.offset + bytes;
      ptr = s.ptr + bytes;
      size = s.size - bytes;
    } in
    insfree
      record sc {
        smf = write (write sc.smf new record s { size = bytes; alloc = true }) sp rest;
        order = insert_before sp new sc.order;
        used = sc.used ++ new ∷ [];
        stats = more_smf sc.stats;
      }
      sp
    >>= λ sc'. some (some new, sc')

unfoldable pub alloc_found : SmfSc → ℕ → ℕ → ℕ → Option (Option ℕ × SmfSc)
alloc_found sc bytes new sp =
    assert (leb bytes (sc.smf sp).size)
    >> (remfree sc sp >>= λ sc'.
        if (sc'.smf sp).size == bytes
        then some (
          some sp,
          record sc' {
            smf = write sc'.smf sp record (sc'.smf sp) { alloc = true };
            used = sc'.used ++ sp ∷ [];
          },
        )
        else split sc' sp bytes new)

unfoldable pub alloc_smf : SmfSc → ℕ → ℕ → Option (Option ℕ × SmfSc)
alloc_smf sc bytes new =
    assert (bytes % sc.pagesize == 0)
    >> elim (choose sc bytes) [ none ↦ some (none, sc) | some sp ↦ alloc_found sc bytes new sp ]

-- Whether the second range starts where the first ends.
unfoldable pub is_contiguous : Smf → Smf → Bool
is_contiguous s t = t.ptr == s.ptr + s.size && t.offset == s.offset + s.size

unfoldable pub merge_next : SmfSc → ℕ → Option ℕ → Option SmfSc
merge_next sc sp none = some sc
merge_next sc sp (some sp2) =
    if not (sc.smf sp2).alloc && is_contiguous (sc.smf sp) (sc.smf sp2)
    then (remfree
          record sc {
            smf =
                write sc.smf sp record (sc.smf sp) { size = (sc.smf sp).size + (sc.smf sp2).size };
            order = remove sp2 sc.order;
          }
          sp2
        >>= λ sc'. some record sc' { stats = less_smf sc'.stats })
    else some sc

unfoldable pub merge_prev : SmfSc → ℕ → Option ℕ → Option (ℕ × SmfSc)
merge_prev sc sp none = some (sp, sc)
merge_prev sc sp (some sp2) =
    if not (sc.smf sp2).alloc && is_contiguous (sc.smf sp2) (sc.smf sp)
    then (remfree sc sp2 >>= λ sc'. some (
      sp2,
      record sc' {
        smf =
            write sc'.smf sp2
              record (sc'.smf sp2) { size = (sc'.smf sp2).size + (sc'.smf sp).size };
        order = remove sp sc'.order;
        stats = less_smf sc'.stats;
      },
    ))
    else some (sp, sc)

unfoldable pub free_smf : SmfSc → ℕ → Option SmfSc
free_smf sc sp =
    assert ((sc.smf sp).alloc && ltb 0 (sc.smf sp).size && (sc.smf sp).size % sc.pagesize == 0)
    >> (let sc1 : SmfSc = record sc {
      used = remove sp sc.used;
      smf = write sc.smf sp record (sc.smf sp) { alloc = false };
    } in
        merge_next sc1 sp (next sp sc1.order) >>= λ sc2.
        merge_prev sc2 sp (prev sp sc2.order) >>= λ (sp', sc3). insfree sc3 sp')
