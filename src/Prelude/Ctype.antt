-- ===== src/Prelude/Ctype.antt =====
-- The tests of <ctype.h> that the program calls, in the C locale, and the bytes of a text.
use Prim.Native.Char.{code}
use Prim.Native.String.{String}
use pkg_varnish.Prelude.{ℕ, Bool, ◌&&◌, ◌||◌, List, [], ◌∷◌, leb, ◌==◌}

-- The code points of a text: its bytes, if it is ASCII.
abbrev pub codes : String → List ℕ
codes String.[] = []
codes (String.◌∷◌ c s) = code c ∷ codes s

abbrev pub is_space : ℕ → Bool
is_space c = c == 32 || leb 9 c && leb c 13

abbrev pub is_graph : ℕ → Bool
is_graph c = leb 33 c && leb c 126

abbrev pub is_digit : ℕ → Bool
is_digit c = leb b'0' c && leb c b'9'
