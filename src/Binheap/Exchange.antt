-- ===== src/Binheap/Exchange.antt =====
-- binhead_swap of lib/libvarnish/binary_heap.c: the pointers and what is recorded of their places.
use pkg_varnish.Prelude.{ℕ, ◌≤◌, ◌<◌, ◌≡◌, refl, sym, ap, ◌∙◌, ◌≢◌, ◌↔◌, true, some, arith}
use pkg_varnish.Prelude.Cells.{write, write_at, write_else}
use pkg_varnish.Binheap.{Binheap, is_filled, update, swap}

-- The places in use hold pointers, and each pointer's recorded place is where it is.
abbrev pub IsConsistent : Binheap → Type 0
IsConsistent bh =
    ((u : ℕ) → 1 ≤ u → u < bh.next → (bh.cells u ≢ 0) × (bh.index (bh.cells u) ≡ u))
    × ((p : ℕ) → bh.index p ≢ 0 → (bh.index p < bh.next) × (bh.cells (bh.index p) ≡ p))

-- Only places change, and no pointer joins or leaves.
abbrev pub IsMove : Binheap → Binheap → Type 0
IsMove bh bh' =
    (bh' ≡ record bh { cells = bh'.cells; index = bh'.index })
    × ((p : ℕ) → (bh'.index p ≡ 0) ↔ (bh.index p ≡ 0))

pub IsMove-refl : (bh : Binheap) → IsMove bh bh
IsMove-refl bh = (refl, λ p. ground arith)

pub IsMove-trans : (a b c : Binheap) → IsMove a b → IsMove b c → IsMove a c
IsMove-trans a b c (e, h) (e', h') = (
  e' ∙ ap {A = Binheap} (λ x. record x { cells = c.cells; index = c.index }) e,
  λ p. ground (arith, h p, h' p),
)

-- What the swap leaves.
abbrev pub exchanged : Binheap → ℕ → ℕ → Binheap
exchanged bh u v = record bh {
  cells = write (write bh.cells u (bh.cells v)) v (bh.cells u);
  index = write (write bh.index (bh.cells v) u) (bh.cells u) v;
}

pub is_filled_at : (bh : Binheap) (u : ℕ) → u < bh.next → bh.cells u ≢ 0 → is_filled bh u ≡ true
unfolding is_filled
is_filled_at bh u l n = ground arith

pub update_at :
    (bh : Binheap) (u p : ℕ)
    → u < bh.next
    → bh.cells u ≡ p
    → p ≢ 0
    → update bh u ≡ some record bh { index = write bh.index p u }
unfolding update
update_at bh u p l e n =
    let f : is_filled bh u ≡ true = is_filled_at bh u l (rw e n) in rw (f, e) refl

module _ (bh : Binheap) (ok : IsConsistent bh) where
  pub filled : (u : ℕ) → 1 ≤ u → u < bh.next → is_filled bh u ≡ true
  filled u h l = is_filled_at bh u l ((ok.0 u h l).0)

  module _ (u v : ℕ) (hu : 1 ≤ u) (lu : u < bh.next) (hv : 1 ≤ v) (lv : v < bh.next)
      (ne : u ≢ v) where
    pub exchanged_u : (exchanged bh u v).cells u ≡ bh.cells v
    exchanged_u =
        write_else (write bh.cells u (bh.cells v)) v u (bh.cells u) ne
        ∙ write_at bh.cells u (bh.cells v)

    pub exchanged_v : (exchanged bh u v).cells v ≡ bh.cells u
    exchanged_v = write_at (write bh.cells u (bh.cells v)) v (bh.cells u)

    pub exchanged_else : (w : ℕ) → w ≢ u → w ≢ v → (exchanged bh u v).cells w ≡ bh.cells w
    exchanged_else w a b =
        write_else (write bh.cells u (bh.cells v)) v w (bh.cells u) b
        ∙ write_else bh.cells u w (bh.cells v) a

    pub swap_lem : swap bh u v ≡ some (exchanged bh u v)
    unfolding swap update
    swap_lem =
        rw (filled u hu lu, filled v hv lv)
          (let bh1 : Binheap = record bh {
            cells = write (write bh.cells u (bh.cells v)) v (bh.cells u);
          } in
            let bh2 : Binheap = record bh1 { index = write bh.index (bh.cells v) u } in
            let e1 : update bh1 u ≡ some bh2 =
              update_at bh1 u (bh.cells v) lu exchanged_u ((ok.0 v hv lv).0) in
            let e2 : update bh2 v ≡ some (exchanged bh u v) =
              update_at bh2 v (bh.cells u) lv exchanged_v ((ok.0 u hu lu).0) in
            rw (e1, e2) refl)

    different : bh.cells u ≢ bh.cells v
    different =
        let (n, i) = ok.0 u hu lu in
        let (n', i') = ok.0 v hv lv in λ e. ne (sym i ∙ ap bh.index e ∙ i')

    index_u : (exchanged bh u v).index (bh.cells u) ≡ v
    index_u = write_at (write bh.index (bh.cells v) u) (bh.cells u) v

    index_v : (exchanged bh u v).index (bh.cells v) ≡ u
    index_v =
        write_else (write bh.index (bh.cells v) u) (bh.cells u) (bh.cells v) v
          (λ e. different (sym e))
        ∙ write_at bh.index (bh.cells v) u

    index_else : (p : ℕ) → p ≢ bh.cells u → p ≢ bh.cells v → (exchanged bh u v).index p ≡ bh.index p
    index_else p a b =
        write_else (write bh.index (bh.cells v) u) (bh.cells u) p v a
        ∙ write_else bh.index (bh.cells v) p u b

    pub exchanged-IsConsistent : IsConsistent (exchanged bh u v)
    unfolding write
    exchanged-IsConsistent = (
      λ w h l. ground (arith, ok.0 w h l, ok.0 u hu lu, ok.0 v hv lv, different),
      λ p h. ground (arith, ok.1 p, ok.0 u hu lu, ok.0 v hv lv, different),
    )

    pub exchanged-IsMove : IsMove bh (exchanged bh u v)
    unfolding write
    exchanged-IsMove = (refl, λ p. ground (arith, ok.0 u hu lu, ok.0 v hv lv))
