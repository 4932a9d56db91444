-- ===== src/Prelude/Memory.antt =====
-- Bytes by address, or by index into a buffer, and the copying of bytes into them.
use pkg_varnish.Prelude.{
  ℕ, zero, suc, ◌+◌, ◌≤◌, ◌<◌, ◌≡◌, refl, ap, ◌∙◌, ◌⊎◌, inl, List, [], ◌∷◌, ◌++◌, arith, ◌==◌,
  if◌then◌else◌, length,
}

abbrev pub Memory : Type 0
Memory = ℕ → ℕ

unfoldable pub memcpy : Memory → ℕ → List ℕ → Memory
memcpy m p [] = m
memcpy m p (b ∷ bs) = λ a. if a == p then b else memcpy m (p + 1) bs a

unfoldable pub read : Memory → ℕ → ℕ → List ℕ
read m p zero = []
read m p (suc n) = m p ∷ read m (p + 1) n

pub length-read : (m : Memory) (p n : ℕ) → length (read m p n) ≡ n
unfolding read
length-read m p zero = refl
length-read m p (suc n) = ap suc (length-read m (p + 1) n)

read_below :
    (m : Memory) (p q b n : ℕ) → p < q → read (λ a. if a == p then b else m a) q n ≡ read m q n
unfolding read
read_below m p q b zero h = refl
read_below m p q b (suc n) h = ground (arith, read_below m p (q + 1) b n)

pub read-memcpy :
    (m : Memory) (p : ℕ) (bytes : List ℕ) → read (memcpy m p bytes) p (length bytes) ≡ bytes
unfolding read memcpy
read-memcpy m p [] = refl
read-memcpy m p (b ∷ bs) =
    ground
      (arith, read-memcpy m (p + 1) bs, read_below (memcpy m (p + 1) bs) p (p + 1) b (length bs))

pub memcpy_elsewhere :
    (m : Memory) (p a : ℕ) (bytes : List ℕ)
    → (a < p) ⊎ (p + length bytes ≤ a)
    → memcpy m p bytes a ≡ m a
unfolding memcpy
memcpy_elsewhere m p a [] h = refl
memcpy_elsewhere m p a (b ∷ bs) h = ground (arith, memcpy_elsewhere m (p + 1) a bs)

-- Two memories that agree on a range read the same there.
pub read_agree :
    (m m' : Memory) (p n : ℕ)
    → ((a : ℕ) → p ≤ a → a < p + n → m a ≡ m' a)
    → read m p n ≡ read m' p n
unfolding read
read_agree m m' p zero h = refl
read_agree m m' p (suc n) h = ground (
  arith,
  h p (omega arith) (omega arith),
  read_agree m m' (p + 1) n (λ a l u. h a (omega arith) (omega arith)),
)

pub read-add : (m : Memory) (p a b : ℕ) → read m p (a + b) ≡ read m p a ++ read m (p + a) b
unfolding read
read-add m p zero b =
    let e : 0 + b ≡ b = omega arith in let e' : p + 0 ≡ p = omega arith in rw (e, e')
read-add m p (suc a) b =
    let e : suc a + b ≡ suc (a + b) = omega arith in
    let e' : p + suc a ≡ p + 1 + a = omega arith in
    rw (e, e') (ap (λ t. m p ∷ t) (read-add m (p + 1) a b))

-- Writing where the read range ends appends.
pub read-append :
    (m : Memory) (p n : ℕ) (bytes : List ℕ)
    → read (memcpy m (p + n) bytes) p (n + length bytes) ≡ read m p n ++ bytes
read-append m p n bytes =
    read-add (memcpy m (p + n) bytes) p n (length bytes)
    ∙ ap (λ t. t ++ read (memcpy m (p + n) bytes) (p + n) (length bytes))
        (read_agree (memcpy m (p + n) bytes) m p n
          λ a l u. memcpy_elsewhere m (p + n) a bytes (inl (omega arith)))
    ∙ ap (λ t. read m p n ++ t) (read-memcpy m (p + n) bytes)

pub read-append_start :
    (m : Memory) (n : ℕ) (bytes : List ℕ)
    → read (memcpy m n bytes) 0 (n + length bytes) ≡ read m 0 n ++ bytes
read-append_start m n bytes = let e : 0 + n ≡ n = omega arith in rw e at (read-append m 0 n bytes)

memcpy_prefix :
    (m : Memory) (n a : ℕ) (bs cs : List ℕ)
    → a < n + length bs
    → memcpy m n (bs ++ cs) a ≡ memcpy m n bs a
unfolding memcpy
memcpy_prefix m n a [] cs h = memcpy_elsewhere m n a cs (inl (omega arith))
memcpy_prefix m n a (b ∷ bs) cs h = ground (arith, memcpy_prefix m (n + 1) a bs cs)

-- What is written past the range that is read does not matter.
pub read-append_prefix :
    (m : Memory) (n : ℕ) (bs cs : List ℕ)
    → read (memcpy m n (bs ++ cs)) 0 (n + length bs) ≡ read m 0 n ++ bs
read-append_prefix m n bs cs =
    read_agree (memcpy m n (bs ++ cs)) (memcpy m n bs) 0 (n + length bs)
      (λ a l u. memcpy_prefix m n a bs cs (omega arith))
    ∙ read-append_start m n bs
