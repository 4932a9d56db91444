-- ===== src/Vct.antt =====
-- lib/libvarnish/vct.c and include/vct.h: the classes of bytes of HTTP.
use pkg_varnish.Prelude.{ℕ, Bool, false, ◌&&◌, ◌||◌, List, [], ◌∷◌, ltb, leb, ◌==◌}

-- Is `c` one of these bytes?
pub one_of : ℕ → List ℕ → Bool
one_of c [] = false
one_of c (d ∷ ds) = c == d || one_of c ds

unfoldable pub is_sp : ℕ → Bool
is_sp c = c == 0x09 || c == 0x20

unfoldable pub is_crlf : ℕ → Bool
is_crlf c = c == 0x0a || c == 0x0d

unfoldable pub is_lws : ℕ → Bool
unfolding is_sp is_crlf
is_lws c = is_crlf c || is_sp c

unfoldable pub is_ctl : ℕ → Bool
is_ctl c = ltb c 0x20 || c == 0x7f

-- `( ) < > @ , ; : \ " / [ ] ? = { }`, the space and the tab.
unfoldable pub is_sep : ℕ → Bool
unfolding one_of
is_sep c = one_of c (
    0x09 ∷ 0x20 ∷ 0x22 ∷ 0x28 ∷ 0x29 ∷ 0x2c ∷ 0x2f ∷ 0x3a ∷ 0x3b ∷ 0x3c ∷ 0x3d ∷ 0x3e ∷ 0x3f ∷ 0x40
    ∷ 0x5b ∷ 0x5c ∷ 0x5d ∷ 0x7b ∷ 0x7d ∷ [])

unfoldable pub is_sepctl : ℕ → Bool
unfolding is_sep is_ctl
is_sepctl c = is_sep c || is_ctl c

unfoldable pub is_digit : ℕ → Bool
is_digit c = leb 0x30 c && leb c 0x39
