-- ===== src/Vary/Tests.antt =====
-- Runs of bin/varnishd/cache_vary.c, and its theorems at a request with one header of two.
use pkg_varnish.Prelude.{
  ℕ, zero, suc, ◌+◌, ◌≡◌, refl, ◌⊎◌, true, false, none, some, List, [], ◌∷◌, ◌++◌, arith, length,
}
use pkg_varnish.Prelude.Ctype.{codes}
use pkg_varnish.Vct.{is_sp}
use pkg_varnish.Http.{
  Line, Http, header, get_hdr, is_askable, starts_nocase, line_is, find_from, find_hdr, skip_sp,
  text_at, value_at,
}
use pkg_varnish.Vary.{
  byte, vbe16dec, vbe16enc, vry_len, until_nul, vry_cmp, trim, trim_value, value_len, content,
  is_short, build, match,
}
use pkg_varnish.Vary.Entries.{eq_bytes, Entry, encode, vry_cmp-encode}
use pkg_varnish.Vary.Finding.{mine_all, build-none}
use pkg_varnish.Vary.Matching.{encode_all, names, all_agree, request, match-all_agree}
use pkg_varnish.Vary.Create.{
  no_vary, failed, created, ends_name, token, after_token, starts_sp, header_string, prepend,
  entry_of, next_name, create_loop, create_of, create, validate,
}
use pkg_varnish.Vary.Creating.{owns, AreOwn, HasLong, create-IsMade}
use pkg_varnish.Vary.RoundTrip.{match-create}

abbrev line : List ℕ → Line
line text = record { text = text; filter = false }

abbrev message : List Line → Http
message ls = record { request = []; status = 0; protover = 11; lines = ls }

-- The request has `Ab`, and no `Cd`.
abbrev req : Http
req = message (line (codes "Ab: x ") ∷ [])

abbrev varies : Http
varies = message (line (codes "Vary: Ab , Cd") ∷ [])

abbrev ab : Entry
ab = record { name = codes "Ab"; value = some (codes "x") }

abbrev cd : Entry
cd = record { name = codes "Cd"; value = none }

abbrev buffer : List ℕ
buffer = 9 ∷ 9 ∷ 0 ∷ 9 ∷ 9 ∷ 9 ∷ 9 ∷ 9 ∷ 9 ∷ 9 ∷ 9 ∷ 9 ∷ 9 ∷ 9 ∷ 9 ∷ 9 ∷ 9 ∷ 9 ∷ 9 ∷ 9 ∷ []

made : create req varies ≡ some (created (encode_all (ab ∷ cd ∷ [])))
unfolding create create_of create_loop next_name prepend entry_of header_string token after_token
    ends_name starts_sp encode_all encode vbe16enc value_len content is_short trim_value trim header
    get_hdr is_askable value_at find_hdr find_from line_is starts_nocase text_at skip_sp is_sp
made = refl

valid : validate 9 (encode_all (ab ∷ cd ∷ [])) ≡ some tt
unfolding validate encode_all encode byte vry_len vbe16dec vbe16enc until_nul value_len content
valid = refl

vry_cmp-encode_example : vry_cmp true (encode ab ++ []) (encode cd ++ 1 ∷ []) ≡ 1
unfolding eq_bytes is_short
vry_cmp-encode_example =
    vry_cmp-encode true ab cd [] (1 ∷ []) (omega arith, refl) (omega arith, refl)

build-none_example :
    build true req
      (encode ab ++ [])
      record { behind = []; ahead = 9 ∷ 9 ∷ 0 ∷ 9 ∷ 9 ∷ 9 ∷ 9 ∷ 9 ∷ 9 ∷ []; oflo = false }
    ≡ none
unfolding encode vbe16enc value_len content trim_value trim header value_at find_hdr find_from
    line_is starts_nocase text_at skip_sp is_sp
build-none_example =
    build-none true req ab []
      record { behind = []; ahead = 9 ∷ 9 ∷ 0 ∷ 9 ∷ 9 ∷ 9 ∷ 9 ∷ 9 ∷ 9 ∷ []; oflo = false }
      (omega arith) (omega arith)

match-all_agree_example :
    (rest : List ℕ) × (match true req buffer (encode_all (ab ∷ cd ∷ []))
      ≡ some record {
        buffer = request true req (ab ∷ cd ∷ []) ++ (0xff ∷ 0xff ∷ 0 ∷ rest);
        vary_l = some (length (request true req (ab ∷ cd ∷ [])) + 3);
        retval = all_agree true req (ab ∷ cd ∷ []);
      })
unfolding is_short trim_value trim header value_at find_hdr find_from line_is starts_nocase text_at
    skip_sp is_sp byte mine_all encode vbe16enc value_len content names
match-all_agree_example =
    match-all_agree true req (ab ∷ cd ∷ []) buffer
      (
        (omega arith, refl),
        (omega arith, refl),
        omega arith,
        ((omega arith, refl), (omega arith, refl), omega arith, tt),
      )
      ([], buffer, refl, tt, (refl, omega arith)) (omega arith)

create-IsMade_example :
    ((header varies (codes "Vary") ≡ none) × (create req varies ≡ some no_vary))
    ⊎ ((create req varies ≡ some failed)
        ⊎ (((ns : List (List ℕ)) × (create req varies ≡ some (created (encode_all (owns req ns))))
              × AreOwn req ns)
            ⊎ ((v : List ℕ) × (header varies (codes "Vary") ≡ some v)
                × (create req varies ≡ none)
                × HasLong true v)))
create-IsMade_example = create-IsMade req varies

abbrev repeated : ℕ → List ℕ
repeated zero = []
repeated (suc n) = b'a' ∷ repeated n

-- A name of 127 bytes passes the test of its length, and http_GetHdr's assertion fails.
long_fails : create req (message (line (codes "Vary:" ++ repeated 127) ∷ [])) ≡ none
unfolding create create_of create_loop token ends_name header get_hdr is_askable value_at find_hdr
    find_from line_is starts_nocase text_at skip_sp is_sp
long_fails = refl

longer_is_refused : create req (message (line (codes "Vary:" ++ repeated 128) ∷ [])) ≡ some failed
unfolding create create_of create_loop token ends_name header get_hdr is_askable value_at find_hdr
    find_from line_is starts_nocase text_at skip_sp is_sp
longer_is_refused = refl

match-create_example :
    (rest : List ℕ) × (match true req buffer (encode_all (ab ∷ cd ∷ []))
      ≡ some record {
        buffer = encode_all (ab ∷ cd ∷ []) ++ rest;
        vary_l = some (length (encode_all (ab ∷ cd ∷ [])));
        retval = true;
      })
unfolding byte encode_all encode vbe16enc value_len content
match-create_example =
    match-create true req varies (encode_all (ab ∷ cd ∷ [])) buffer made (refl, omega arith)
      (omega arith)
