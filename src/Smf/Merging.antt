-- ===== src/Smf/Merging.antt =====
-- The ranges that free_smf of bin/varnishd/storage_file.c takes off their free lists and joins.
use pkg_varnish.Prelude.{
  ℕ, ◌+◌, ◌-◌, ◌%◌, ◌≤◌, ◌≡◌, refl, sym, ap, ◌∙◌, ◌≢◌, true, false, not, ◌&&◌, none, some, arith,
  ==_iff,
}
use native.Mathlib.Nat.{mod-add-mod, add-mod-mod}
use pkg_varnish.Prelude.Cells.{write}
use pkg_varnish.Prelude.Tailq.{remove, count-remove}
use pkg_varnish.Prelude.Adjacent.{On}
use pkg_varnish.Smf.{
  SmfSc, bucket, is_at, count_out, remfree, less_smf, is_contiguous, merge_next, merge_prev,
}
use pkg_varnish.Smf.Lists.{home, IsListed, IsLoose}

abbrev pub taken : SmfSc → ℕ → SmfSc
taken sc sp =
    let b = bucket sc.pagesize (sc.smf sp).size in
    record sc {
      smf = write sc.smf sp record (sc.smf sp) { flist = none };
      free = write sc.free b (remove sp (sc.free b));
      stats = count_out sc (sc.smf sp).size;
    }

pub remfree_eq :
    (sc : SmfSc) (sp : ℕ)
    → (sc.smf sp).alloc ≡ false
    → (sc.smf sp).flist ≡ home sc.pagesize (sc.smf sp)
    → remfree sc sp ≡ some (taken sc sp)
unfolding remfree is_at home
remfree_eq sc sp a h =
    let b = bucket sc.pagesize (sc.smf sp).size in
    let h' : (sc.smf sp).flist ≡ some b = h ∙ rw a refl in
    let t : (not (sc.smf sp).alloc && is_at (sc.smf sp).flist b) ≡ true =
      rw (a, h') (ground arith) in
    rw t refl

pub taken-IsLoose :
    (sc : SmfSc) (sp : ℕ)
    → IsListed none sc
    → On sc.order sp
    → (sc.smf sp).alloc ≡ false
    → IsLoose (taken sc sp) sp
unfolding write is_at home
taken-IsLoose sc sp v on a =
    let b = bucket sc.pagesize (sc.smf sp).size in
    let h' : (sc.smf sp).flist ≡ some b = v.homed sp on (λ t. cc) ∙ rw a refl in
    (
      record {
        page = v.page;
        once = v.once;
        sized = λ q h. let s = v.sized q h in ground arith;
        in_use = λ q. let u = v.in_use q in ground arith;
        on_free = λ q d.
            let f = v.on_free q d in
            let f' = v.on_free sp d in ground (arith, count-remove q sp (sc.free b));
        homed = λ q h n. let f = v.homed q h in ground (arith, ==_iff q sp);
      },
      on,
      ground arith,
      ground arith,
    )

multiple_add : (p a b : ℕ) → a % p ≡ 0 → b % p ≡ 0 → (a + b) % p ≡ 0
multiple_add p a b h k =
    sym (mod-add-mod a p b) ∙ ap (λ t. (t + b) % p) h ∙ ap (λ t. t % p) (omega arith) ∙ k

pub multiple_sub : (p a b : ℕ) → b ≤ a → a % p ≡ 0 → b % p ≡ 0 → (a - b) % p ≡ 0
multiple_sub p a b le h k =
    ap (λ t. t % p) (omega arith)
    ∙ ap (λ t. (a - b + t) % p) (sym k)
    ∙ add-mod-mod (a - b) b p
    ∙ ap (λ t. t % p) (omega arith)
    ∙ h

-- The two ranges as one, of which the first stays.
abbrev pub joined : SmfSc → ℕ → ℕ → SmfSc
joined sc sp sp2 = record sc {
  smf = write sc.smf sp record (sc.smf sp) { size = (sc.smf sp).size + (sc.smf sp2).size };
  order = remove sp2 sc.order;
}

pub merge_next_eq :
    (sc : SmfSc) (sp sp2 : ℕ)
    → sp2 ≢ sp
    → (sc.smf sp2).alloc ≡ false
    → (sc.smf sp2).flist ≡ home sc.pagesize (sc.smf sp2)
    → is_contiguous (sc.smf sp) (sc.smf sp2) ≡ true
    → merge_next sc sp (some sp2)
      ≡ some (let s = taken (joined sc sp sp2) sp2 in record s { stats = less_smf s.stats })
unfolding merge_next write is_contiguous
merge_next_eq sc sp sp2 n a h c =
    let t : (not (sc.smf sp2).alloc && is_contiguous (sc.smf sp) (sc.smf sp2)) ≡ true =
      rw (a, c) refl in
    let e = remfree_eq (joined sc sp sp2) sp2 (ground arith) (ground arith) in rw t (rw e refl)

pub taken-joined-IsLoose :
    (sc : SmfSc) (sp sp2 : ℕ)
    → IsLoose sc sp
    → On sc.order sp2
    → sp2 ≢ sp
    → (sc.smf sp2).alloc ≡ false
    → IsLoose (taken (joined sc sp sp2) sp2) sp
unfolding write is_at home
taken-joined-IsLoose sc sp sp2 (v, on, a, l) on2 n a2 =
    let b = bucket sc.pagesize (sc.smf sp2).size in
    let h' : (sc.smf sp2).flist ≡ some b = v.homed sp2 on2 (λ t. n (ground arith)) ∙ rw a2 refl in
    (
      record {
        page = v.page;
        once = λ q. let o = v.once q in ground (arith, count-remove q sp2 sc.order);
        sized = λ q h.
            let s = v.sized q in
            let s1 = v.sized sp on in
            let s2 = v.sized sp2 on2 in
            let m = multiple_add sc.pagesize (sc.smf sp).size (sc.smf sp2).size s1.1 s2.1 in
            ground (arith, count-remove q sp2 sc.order);
        in_use = λ q. let u = v.in_use q in ground (arith, count-remove q sp2 sc.order);
        on_free = λ q d.
            let f = v.on_free q d in
            let g = v.on_free sp2 d in
            ground (arith, count-remove q sp2 sc.order, count-remove q sp2 (sc.free b));
        homed = λ q h m. let f = v.homed q in ground (arith, count-remove q sp2 sc.order);
      },
      ground (arith, count-remove sp sp2 sc.order),
      ground arith,
      ground arith,
    )

pub merge_prev_eq :
    (sc : SmfSc) (sp sp2 : ℕ)
    → sp2 ≢ sp
    → (sc.smf sp2).alloc ≡ false
    → (sc.smf sp2).flist ≡ home sc.pagesize (sc.smf sp2)
    → is_contiguous (sc.smf sp2) (sc.smf sp) ≡ true
    → merge_prev sc sp (some sp2)
      ≡ some (sp2, let s = joined (taken sc sp2) sp2 sp in record s { stats = less_smf s.stats })
unfolding merge_prev write is_contiguous
merge_prev_eq sc sp sp2 n a h c =
    let t : (not (sc.smf sp2).alloc && is_contiguous (sc.smf sp2) (sc.smf sp)) ≡ true =
      rw (a, c) refl in
    rw t (rw (remfree_eq sc sp2 a h) refl)

pub joined-taken-IsLoose :
    (sc : SmfSc) (sp sp2 : ℕ)
    → IsLoose sc sp
    → On sc.order sp2
    → sp2 ≢ sp
    → (sc.smf sp2).alloc ≡ false
    → IsLoose (joined (taken sc sp2) sp2 sp) sp2
unfolding write is_at home
joined-taken-IsLoose sc sp sp2 (v, on, a, l) on2 n a2 =
    let b = bucket sc.pagesize (sc.smf sp2).size in
    let h' : (sc.smf sp2).flist ≡ some b = v.homed sp2 on2 (λ t. n (ground arith)) ∙ rw a2 refl in
    (
      record {
        page = v.page;
        once = λ q. let o = v.once q in ground (arith, count-remove q sp sc.order);
        sized = λ q h.
            let s = v.sized q in
            let s1 = v.sized sp on in
            let s2 = v.sized sp2 on2 in
            let m = multiple_add sc.pagesize (sc.smf sp2).size (sc.smf sp).size s2.1 s1.1 in
            ground (arith, count-remove q sp sc.order);
        in_use = λ q. let u = v.in_use q in ground (arith, count-remove q sp sc.order);
        on_free = λ q d.
            let f = v.on_free q d in
            let g = v.on_free sp2 d in
            ground (arith, count-remove q sp sc.order, count-remove q sp2 (sc.free b));
        homed = λ q h m. let f = v.homed q in ground (arith, count-remove q sp sc.order);
      },
      ground (arith, count-remove sp2 sp sc.order),
      ground arith,
      ground arith,
    )
