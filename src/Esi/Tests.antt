-- ===== src/Esi/Tests.antt =====
-- Runs of the coding between bin/varnishd/cache_esi_parse.c and cache_esi_deliver.c, and its theorems
-- at a small document in two segments.
use pkg_varnish.Prelude.{ℕ, ◌≡◌, refl, true, false, some, List, [], ◌∷◌, arith}
use pkg_varnish.Prelude.Ctype.{codes}
use pkg_varnish.Esi.{
  Mark, skip, verbatim, Vep, bytes, included, dec16, positive, c_string, decode_len, walk,
  deliver_loop, deliver,
}
use pkg_varnish.Esi.Storage.{flat}
use pkg_varnish.Esi.Delivery.{emit_all, kept, deliver-emit_all}

abbrev start : Vep
start = record { vsb = []; dogzip = false; crc = 0; o_crc = 0; o_total = 0 }

abbrev stored : List (List ℕ)
stored = codes "abc<esi:rem" ∷ codes "ove/>def" ∷ []

abbrev marks : List (ℕ × Mark)
marks = (3, verbatim) ∷ (13, skip) ∷ (3, verbatim) ∷ []

-- An include between two pieces of text; the client hangs up at the include in the second run.
page : List ℕ
page = 0x41 ∷ 2 ∷ b'I' ∷ b'h' ∷ 0 ∷ b'/' ∷ 0 ∷ 0x42 ∷ 0 ∷ 1 ∷ []

runs :
    deliver false page (codes "abc" ∷ [])
    ≡ some (bytes (codes "ab") ∷ included (b'/' ∷ []) (b'h' ∷ []) ∷ bytes (codes "c") ∷ [])
unfolding page deliver deliver_loop walk decode_len positive c_string dec16
runs = refl

hung_up : deliver true page (codes "abc" ∷ []) ≡ some (bytes (codes "ab") ∷ [])
unfolding page deliver deliver_loop walk decode_len positive c_string dec16
hung_up = refl

deliver-emit_all_example :
    (vep' : Vep) × (emit_all 0 start marks ≡ some vep')
    × (deliver false vep'.vsb stored ≡ some (kept marks (flat stored)))
unfolding flat
deliver-emit_all_example =
    deliver-emit_all marks 0 start false stored refl refl
      (omega arith, omega arith, (omega arith, omega arith, (omega arith, omega arith, tt)))
      (omega arith)
