-- ===== src/Vlu/Tests.antt =====
-- Runs of lib/libvarnish/vlu.c, and its theorems, with a callback that counts the lines.
use pkg_varnish.Prelude.{ℕ, ◌+◌, ◌≡◌, refl, none, some, List, [], ◌∷◌, arith}
use pkg_varnish.Prelude.Ctype.{codes}
use pkg_varnish.Vlu.{Vlu, is_newline, process, line_up_process, data_loop, vlu_data, vlu_fd}
use pkg_varnish.Vlu.Lines.{feed, feed_all, vlu_data-feed_all, data_loop-full}

abbrev counting : ℕ → List ℕ → ℕ × ℕ
counting x text = (0, x + 1)

abbrev fresh : Vlu ℕ
fresh = record { buf = []; bufl = 4; priv = 0 }

-- Two lines and an empty one in a buffer of four bytes.
counted :
    vlu_data counting (codes "ab\ncde\r\nf") fresh
    ≡ some (0, record { buf = codes "f"; bufl = 4; priv = 3 })
unfolding vlu_data data_loop line_up_process process is_newline
counted = refl

-- A nul hides the rest.
hidden :
    vlu_fd counting (b'a' ∷ 0 ∷ b'b' ∷ []) fresh
    ≡ some (0, record { buf = codes "a"; bufl = 4; priv = 0 })
unfolding vlu_fd line_up_process process is_newline
hidden = refl

vlu_data-feed_all_example :
    vlu_data counting (codes "ab\nc") fresh
    ≡ some (0, record { buf = codes "c"; bufl = 4; priv = 1 })
unfolding is_newline feed feed_all
vlu_data-feed_all_example =
    vlu_data-feed_all counting (λ x l. refl) (codes "ab\nc") fresh tt (omega arith)

data_loop-full_example :
    data_loop counting 7 0 (b'e' ∷ []) record { buf = codes "abcd"; bufl = 4; priv = 0 } ≡ none
unfolding is_newline
data_loop-full_example =
    data_loop-full counting 7 0 b'e' [] record { buf = codes "abcd"; bufl = 4; priv = 0 }
      ((refl, omega arith, (refl, omega arith, (refl, omega arith, (refl, omega arith, tt))))) refl
