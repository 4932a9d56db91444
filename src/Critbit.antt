-- ===== src/Critbit.antt =====
-- bin/varnishd/hash_critbit.c: the objheads in a tree by the bits of their digests.
-- `none` is an assertion that fails. A leaf is the address of an objhead with its digest, which never
-- changes; the references are in a store. Every function runs alone: the null pointer that a reader
-- without the lock may meet below a deleted node is left out.
pub mod Digits
pub mod Bits
pub mod Trees
pub mod Forks
pub mod Placing
pub mod Insertion
pub mod Deletion
pub mod Refcounts
pub mod Slinger
pub mod Tests
use pkg_varnish.Prelude.{
  ℕ, zero, suc, ◌+◌, ◌-◌, ◌*◌, ◌/◌, ◌%◌, ◌^◌, ◌≤◌, ◌<◌, ◌≡◌, refl, sym, ap, ◌∙◌, ◌≢◌, ◌↔◌, ◌⊎◌, inl,
  inr, Bool, true, false, not, ◌&&◌, ◌||◌, Option, none, some, List, [], ◌∷◌, ◌++◌, arith, ltb, leb,
  ◌==◌, if◌then◌else◌, ltb→lt, leb→le, ==_iff, Bool-cases, Option-cases, length, get_elem?, set,
  take, drop, length-append, take-nil, take_all, length-take_le, get_elem?-append_left,
  get_elem?-append_right, get_elem?-drop, get_elem?-take, length-drop_le, drop-append_left,
  take-append_left, take-append_right, drop-append_right, drop-drop, drop-nil, ◌>>=◌, ◌>>◌, assert,
}

abbrev pub digest_len : ℕ
digest_len = 32

pub record Leaf : Type 0 where
  pub addr : ℕ
  pub digest : List ℕ

-- struct hcb_y without its two pointers.
pub record Node : Type 0 where
  pub critbit : ℕ
  pub ptr : ℕ
  pub bitmask : ℕ

-- What a pointer in the tree leads to, told apart by its low bits in the source.
pub data Tree : Type 0 where
  leaf : Leaf → Tree
  fork : Node → Tree → Tree → Tree

pub byte_at : List ℕ → ℕ → ℕ
byte_at [] i = 0
byte_at (b ∷ bs) zero = b
byte_at (b ∷ bs) (suc i) = byte_at bs i

-- x ^ y, of numbers of so many bits.
pub xor : ℕ → ℕ → ℕ → ℕ
xor zero x y = 0
xor (suc i) x y = (x / 2 ^ i + y / 2 ^ i) % 2 * 2 ^ i + xor i x y

replicate : ℕ → ℕ → List ℕ
replicate zero v = []
replicate (suc n) v = v ∷ replicate n v

-- The loop from x = 8 - rounds, with `y` entries there already.
pub bittbl_loop : ℕ → ℕ → List ℕ
unfolding replicate
bittbl_loop zero y = []
bittbl_loop (suc rounds) y =
    let x = 8 - suc rounds in replicate (2 ^ x - y) (8 - x) ++ bittbl_loop rounds (2 ^ x)

-- hcb_build_bittbl. What it does not fill is zero.
pub hcb_bittbl : List ℕ
unfolding bittbl_loop replicate
hcb_bittbl = bittbl_loop 8 0 ++ replicate 128 0

pub hcb_bits : ℕ → ℕ → ℕ
unfolding hcb_bittbl xor byte_at
hcb_bits x y = byte_at hcb_bittbl (xor 8 x y)

-- digest[ptr] & bitmask, where the mask is of one bit.
pub has_bit : ℕ → ℕ → Bool
has_bit byte bitmask = not (byte / bitmask % 2 == 0)

-- The loop of hcb_crit_bit.
pub first_diff : List ℕ → List ℕ → ℕ
first_diff (a ∷ xs) (b ∷ ys) = if a == b then suc (first_diff xs ys) else 0
first_diff [] ys = 0
first_diff (a ∷ xs) [] = 0

pub crit_bit : List ℕ → List ℕ → Option Node
unfolding first_diff hcb_bits byte_at
crit_bit d1 d2 = do
  let u = first_diff d1 d2
  assert (ltb u digest_len)
  let r = hcb_bits (byte_at d1 u) (byte_at d2 u)
  some record { critbit = u * 8 + r; ptr = u; bitmask = 128 / 2 ^ r }

-- `s` of the source: which child the digest leads to.
pub side : Node → List ℕ → Option Bool
unfolding has_bit byte_at
side y digest = do assert (ltb y.ptr digest_len); some (has_bit (byte_at digest y.ptr) y.bitmask)

unfoldable pub fork_at : Bool → Node → Tree → Tree → Tree
fork_at true y new old = fork y old new
fork_at false y new old = fork y new old

pub eq_digest : List ℕ → List ℕ → Bool
eq_digest [] [] = true
eq_digest (a ∷ xs) (b ∷ ys) = a == b && eq_digest xs ys
eq_digest [] (b ∷ ys) = false
eq_digest (a ∷ xs) [] = false

-- The first loop of hcb_insert.
unfoldable pub descend : Tree → List ℕ → Option Leaf
unfolding side
descend (leaf oh) digest = some oh
descend (fork y l r) digest =
    let in_l = descend l digest in
    let in_r = descend r digest in side y digest >>= λ s. if s then in_r else in_l

-- The second loop of hcb_insert, and the new node put in. `s2` is the side of the new leaf.
unfoldable pub place : Node → Bool → Leaf → Tree → Option Tree
unfolding side fork_at
place y2 s2 oh (leaf oh2) = some (fork_at s2 y2 (leaf oh) (leaf oh2))
place y2 s2 oh (fork y l r) =
    let in_l = place y2 s2 oh l >>= λ l'. some (fork y l' r) in
    let in_r = place y2 s2 oh r >>= λ r'. some (fork y l r') in
    let below = side y oh.digest >>= λ s. if s then in_r else in_l in
    let above = some (fork_at s2 y2 (leaf oh) (fork y l r)) in
    assert (not (y.critbit == y2.critbit)) >> (if ltb y2.critbit y.critbit then above else below)

pub insert_new : Tree → Leaf → Leaf → Option (Option Leaf × Option Tree)
unfolding crit_bit side place
insert_new t oh oh2 = do
  y2 ← crit_bit oh.digest oh2.digest
  s2 ← side y2 oh.digest
  t' ← place y2 s2 oh t
  some (some oh, some t')

unfoldable pub insert_found : Bool → Tree → Leaf → Leaf → Option (Option Leaf × Option Tree)
unfolding insert_new eq_digest
insert_found has_lock t oh oh2 =
    let new = insert_new t oh oh2 in
    if eq_digest oh2.digest oh.digest
    then some (some oh2, some t)
    else if not has_lock
    then some (none, some t)
    else new

-- hcb_insert: the objhead found or put in, or the null pointer, and the tree.
unfoldable pub insert : Bool → Option Tree → Leaf → Option (Option Leaf × Option Tree)
unfolding descend insert_found
insert has_lock none oh = if not has_lock then some (none, none) else some (some oh, some (leaf oh))
insert has_lock (some t) oh = do oh2 ← descend t oh.digest; insert_found has_lock t oh oh2

pub is_leaf : Tree → Leaf → Bool
is_leaf (leaf oh2) oh = oh2.addr == oh.addr
is_leaf (fork y l r) oh = false

-- The loop of hcb_delete.
pub delete_loop : Tree → Leaf → Option Tree
unfolding side is_leaf
delete_loop (leaf oh2) oh = none
delete_loop (fork y l r) oh =
    let in_l = delete_loop l oh >>= λ l'. some (fork y l' r) in
    let in_r = delete_loop r oh >>= λ r'. some (fork y l r') in
    side y oh.digest >>= λ s.
    if s then if is_leaf r oh then some l else in_r else if is_leaf l oh then some r else in_l

pub delete : Option Tree → Leaf → Option (Option Tree)
unfolding delete_loop is_leaf
delete none oh = none
delete (some t) oh =
    let rest = delete_loop t oh >>= λ t'. some (some t') in if is_leaf t oh then some none else rest

-- The tree, the references of each objhead by its address, and the objheads that were given up.
pub record Hcb : Type 0 where
  pub root : Option Tree
  pub refcnt : ℕ → ℕ
  pub cool_h : List ℕ

unfoldable pub set_refcnt : (ℕ → ℕ) → ℕ → ℕ → ℕ → ℕ
set_refcnt refcnt addr v a = if a == addr then v else refcnt a

-- The rest of hcb_lookup's loop, once hcb_insert has returned.
unfoldable pub lookup_turn :
    (Bool → Hcb → Option (Leaf × Hcb)) → Bool → Hcb → Leaf → Option Leaf → Option (Leaf × Hcb)
unfolding set_refcnt
lookup_turn again with_lock hcb noh none = assert (not with_lock) >> again true hcb
lookup_turn again with_lock hcb noh (some oh) =
    let fresh = assert with_lock >> assert (ltb 0 (hcb.refcnt oh.addr)) >> some (oh, hcb) in
    let u = hcb.refcnt oh.addr in
    let retry = again true hcb in
    if oh.addr == noh.addr
    then fresh
    else if ltb 0 u
    then some (oh, record hcb { refcnt = set_refcnt hcb.refcnt oh.addr (u + 1) })
    else retry

unfoldable pub lookup_loop : ℕ → Bool → Hcb → Leaf → Option (Leaf × Hcb)
unfolding lookup_turn insert
lookup_loop zero with_lock hcb noh = none
lookup_loop (suc fuel) with_lock hcb noh = do
  assert (not with_lock || (hcb.refcnt noh.addr == 1))
  (oh, root) ← insert with_lock hcb.root noh
  lookup_turn (λ w h. lookup_loop fuel w h noh) with_lock (record hcb { root = root }) noh oh

-- hcb_lookup, with at most so many rounds.
pub lookup : ℕ → Hcb → Leaf → Option (Leaf × Hcb)
unfolding lookup_loop
lookup fuel hcb noh = lookup_loop fuel false hcb noh

abbrev pub is_none_left : List ℕ → Bool
is_none_left [] = true
is_none_left (x ∷ xs) = false

-- hcb_deref. The objcores and the waiting sessions of an objhead, by its address, are arguments.
pub deref : (ℕ → List ℕ) → (ℕ → List ℕ) → Hcb → Leaf → Option Hcb
unfolding delete set_refcnt
deref objcs waitinglist hcb oh = do
  assert (ltb 0 (hcb.refcnt oh.addr))
  let u = hcb.refcnt oh.addr - 1
  let hcb' : Hcb = record hcb { refcnt = set_refcnt hcb.refcnt oh.addr u }
  let gone = delete hcb.root oh >>= λ root.
      assert (is_none_left (objcs oh.addr))
      >> (assert (is_none_left (waitinglist oh.addr))
          >> some (record hcb' { root = root; cool_h = hcb.cool_h ++ oh.addr ∷ [] }))
  if u == 0 then gone else some hcb'
