-- ===== src/Smf/Storage.antt =====
-- trim_smf and new_smf of bin/varnishd/storage_file.c, and what the stevedore calls: smf_alloc,
-- smf_trim, smf_free and the chunks that smf_open maps. `mmap` and `calloc` are what the system
-- gives for a chunk of so many bytes at an offset of the file; no chunk is asked for twice.
use pkg_varnish.Prelude.{
  ℕ, zero, suc, ◌+◌, ◌-◌, ◌*◌, ◌/◌, ◌%◌, ◌^◌, true, not, ◌&&◌, Option, none, some, List, [], ◌∷◌,
  ◌++◌, ltb, leb, ◌==◌, if◌then◌else◌, ◌>>=◌, ◌>>◌, assert,
}
use Prim.Native.Nat.{bit_and}
use pkg_varnish.Prelude.Cells.{write}
use pkg_varnish.Prelude.Tailq.{insert_after}
use pkg_varnish.Smf.{Smf, Stats, SmfSc, add, sub, more_smf, alloc_smf, free_smf}

unfoldable pub trimmed : SmfSc → ℕ → ℕ → ℕ → SmfSc
trimmed sc sp bytes new =
    let s = sc.smf sp in
    let rest : Smf = record s {
      size = s.size - bytes;
      ptr = s.ptr + bytes;
      offset = s.offset + bytes;
    } in
    record sc {
      smf = write (write sc.smf new rest) sp record s { size = bytes };
      order = insert_after sp new sc.order;
      used = sc.used ++ new ∷ [];
      stats = more_smf sc.stats;
    }

unfoldable pub trim_smf : SmfSc → ℕ → ℕ → ℕ → Option SmfSc
trim_smf sc sp bytes new =
    let s = sc.smf sp in
    assert (s.alloc && ltb 0 bytes && ltb bytes s.size)
    >> (assert (bytes % sc.pagesize == 0 && s.size % sc.pagesize == 0)
        >> free_smf (trimmed sc sp bytes new) new)

-- Before the first range that starts further up.
unfoldable pub insert_by_ptr : (ℕ → Smf) → ℕ → List ℕ → List ℕ
insert_by_ptr smf sp [] = sp ∷ []
insert_by_ptr smf sp (sp2 ∷ sps) =
    if ltb (smf sp).ptr (smf sp2).ptr then sp ∷ sp2 ∷ sps else sp2 ∷ insert_by_ptr smf sp sps

unfoldable pub new_smf : SmfSc → ℕ → ℕ → ℕ → ℕ → Option SmfSc
new_smf sc ptr off len new =
    let smf =
      write sc.smf new record { alloc = true; size = len; offset = off; ptr = ptr; flist = none } in
    assert (len % sc.pagesize == 0)
    >> free_smf
        record sc {
          smf = smf;
          order = insert_by_ptr smf new sc.order;
          used = new ∷ sc.used;
          stats = more_smf sc.stats;
        }
        new

-- struct storage, as far as smf_alloc and smf_trim set it. `space` is an unsigned, and the sizes that
-- are rounded fit.
pub record Storage : Type 0 where
  pub space : ℕ
  pub len : ℕ
  pub ptr : ℕ
  pub priv : ℕ

-- `size += pagesize - 1; size &= ~(pagesize - 1)`, where pagesize is an unsigned.
unfoldable pub round_up : ℕ → ℕ → ℕ
round_up pagesize size = bit_and (add size (pagesize - 1)) (2 ^ 32 - pagesize)

unfoldable pub request : SmfSc → SmfSc
request sc = record sc { stats = record (sc.stats) { c_req = add sc.stats.c_req 1 } }

unfoldable pub refused : SmfSc → SmfSc
refused sc = record sc { stats = record (sc.stats) { c_fail = add sc.stats.c_fail 1 } }

unfoldable pub accounted : SmfSc → ℕ → SmfSc
accounted sc bytes = record sc {
  stats = record (sc.stats) {
    g_alloc = add sc.stats.g_alloc 1;
    c_bytes = add sc.stats.c_bytes bytes;
    g_bytes = add sc.stats.g_bytes bytes;
    g_space = sub sc.stats.g_space bytes;
  };
}

-- The counters of smf_alloc behind alloc_smf, and what it returns.
unfoldable pub handed_out : Option ℕ × SmfSc → ℕ → Option (Option Storage × SmfSc)
handed_out (none, sc) size = some (none, refused sc)
handed_out (some sp, sc) size =
    let s = sc.smf sp in
    assert (s.size == size)
    >> some (some record { space = size; len = 0; ptr = s.ptr; priv = sp }, accounted sc s.size)

unfoldable pub smf_alloc : SmfSc → ℕ → ℕ → Option (Option Storage × SmfSc)
smf_alloc sc size new =
    let size' = round_up sc.pagesize size in
    assert (ltb 0 size) >> (alloc_smf (request sc) size' new >>= λ answer. handed_out answer size')

-- So many bytes are no longer in use.
unfoldable pub given_back : Stats → ℕ → Stats
given_back st bytes = record st {
  c_freed = add st.c_freed bytes;
  g_bytes = sub st.g_bytes bytes;
  g_space = add st.g_space bytes;
}

unfoldable pub smf_trim : SmfSc → Storage → ℕ → ℕ → Option (Storage × SmfSc)
smf_trim sc s size new =
    let sp = s.priv in
    let size' = round_up sc.pagesize size in
    assert (ltb 0 size && leb size s.space && leb size (sc.smf sp).size)
    >> (if ltb size' (sc.smf sp).size
        then (trim_smf record sc { stats = given_back sc.stats ((sc.smf sp).size - size') } sp size'
              new
            >>= λ sc'.
                assert ((sc'.smf sp).size == size') >> some (record s { space = size' }, sc'))
        else some (s, sc))

unfoldable pub smf_free : SmfSc → Storage → Option SmfSc
smf_free sc s =
    let st = given_back sc.stats (sc.smf s.priv).size in
    free_smf record sc { stats = record st { g_alloc = sub st.g_alloc 1 } } s.priv

abbrev pub minpages : ℕ
minpages = 128

abbrev pub ssize_max : ℕ
ssize_max = 2 ^ 63 - 1

-- What smf_open_chunk changes: the ranges, `*fail` and `*sum`.
pub record Opened : Type 0 where
  pub sc : SmfSc
  pub fail : ℕ
  pub sum : ℕ

module _ (mmap : ℕ → ℕ → Option ℕ) (calloc : ℕ → ℕ → ℕ) where
  unfoldable pub try_map : Opened → ℕ → ℕ → Option ℕ
  try_map o sz off = if ltb 0 sz && ltb sz o.fail && ltb sz ssize_max then mmap sz off else none

  unfoldable pub halve : ℕ → ℕ → ℕ
  halve pagesize sz =
      let h = if ltb ssize_max (sz / 2) then ssize_max else sz / 2 in h - h % pagesize

  unfoldable pub smf_open_chunk : ℕ → Opened → ℕ → ℕ → Option Opened
  smf_open_chunk zero o sz off = none
  smf_open_chunk (suc fuel) o sz off =
      let page = o.sc.pagesize in
      let h = halve page sz in
      let o' : Opened = record o { fail = if ltb sz o.fail then sz else o.fail } in
      let both =
        smf_open_chunk fuel o' h off >>= λ o''. smf_open_chunk fuel o'' (sz - h) (off + h) in
      assert (not (sz == 0) && sz % page == 0)
      >> (if ltb o.fail (page * minpages) then some o else elim (try_map o sz off) [
        | some p ↦ new_smf o.sc p off sz (calloc sz off) >>= λ sc'.
            some record o { sc = sc'; sum = o.sum + sz }
        | none ↦ both
      ])
