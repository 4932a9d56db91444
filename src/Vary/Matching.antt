-- ===== src/Vary/Matching.antt =====
-- VRY_Match of bin/varnishd/cache_vary.c on a whole vary string.
use pkg_varnish.Prelude.{
  ℕ, zero, suc, ◌+◌, ◌-◌, ◌≤◌, ◌<◌, ◌≡◌, refl, sym, ap, ◌∙◌, Bool, true, false, ◌&&◌, ◌||◌, Option,
  some, List, [], ◌∷◌, ◌++◌, arith, ltb, ◌==◌, length, length-append, drop,
}
use mathlib.Core.List.{append_assoc}
use pkg_varnish.Http.{Http}
use pkg_varnish.Vary.{
  byte, vry_len, vry_cmp, Place, Matched, overwrite, finish, find_entry, match_loop, match,
}
use pkg_varnish.Vary.Entries.{eq_value, Entry, IsEntry, encode, is_skipped, encode-vry_len}
use pkg_varnish.Vary.Building.{take_front, drop_front, mine}
use pkg_varnish.Vary.Finding.{
  mine_all, IsReady, entry_len, length-encode, byte-encode, cmp_mine, find_entry_lem,
}

-- The string of an object that varies by these headers.
unfoldable pub encode_all : List Entry → List ℕ
encode_all [] = 0xff ∷ 0xff ∷ 0 ∷ []
encode_all (e ∷ es) = encode e ++ encode_all es

unfoldable pub names : List Entry → List (List ℕ)
names [] = []
names (e ∷ es) = e.name ∷ names es

module _ (http_gzip_support : Bool) (http : Http) where
  -- The request has the same value, or it does not matter.
  unfoldable pub agree : Entry → Bool
  agree e =
      eq_value e.value (mine http_gzip_support http e.name).value
      || is_skipped http_gzip_support e.name

  unfoldable pub all_agree : List Entry → Bool
  all_agree [] = true
  all_agree (e ∷ es) = agree e && all_agree es

  -- What the object's and the request's entries have to fit.
  abbrev pub AreEntries : List Entry → Type 0
  AreEntries [] = Unit
  AreEntries (e ∷ es) =
      IsEntry e
      × IsEntry (mine http_gzip_support http e.name)
      × (length e.name < 127)
      × AreEntries es

  abbrev pub request : List Entry → List ℕ
  request es = mine_all http_gzip_support http (names es)

  -- The result, with `rest` behind the end marker.
  abbrev pub matched : List ℕ → List Entry → Bool → List ℕ → Matched
  matched behind es retval rest = record {
    buffer = behind ++ (request es ++ (0xff ∷ 0xff ∷ 0 ∷ rest));
    vary_l = some (length behind + length (request es) + 3);
    retval = retval && all_agree es;
  }

  -- A turn of the loop, where the request's entry is ahead.
  turn :
      (e : Entry) (r rest : List ℕ) (fuel : ℕ) (at at' : Place) (retval : Bool)
      → IsEntry e
      → IsEntry (mine http_gzip_support http e.name)
      → find_entry http_gzip_support http (encode e ++ r) at ≡ some at'
      → at' ≡ record at { ahead = encode (mine http_gzip_support http e.name) ++ rest }
      → match_loop http_gzip_support http (suc fuel) (encode e ++ r) at retval
        ≡ match_loop http_gzip_support http fuel r
            record at {
              behind = at.behind ++ encode (mine http_gzip_support http e.name);
              ahead = rest;
            }
            (retval && agree e)
  unfolding match_loop agree entry_len
  turn e r rest fuel at at' retval he hm found eq =
      let f = mine http_gzip_support http e.name in
      let m = encode f in
      let b = byte-encode http_gzip_support http e r in
      let z : (byte (encode e ++ r) 2 == 0) ≡ false = ground arith in
      let le : vry_len (encode e ++ r) ≡ length (encode e) =
        encode-vry_len e r he ∙ sym (length-encode http_gzip_support http e) in
      let lm : vry_len (m ++ rest) ≡ length m =
        encode-vry_len f rest hm ∙ sym (length-encode http_gzip_support http f) in
      let c = cmp_mine http_gzip_support http e r rest he hm in
      let ok : (vry_cmp http_gzip_support (encode e ++ r) (m ++ rest) == 0)
          ≡ (eq_value e.value f.value || is_skipped http_gzip_support e.name) =
        ground arith in
      rw (z, found, eq, le, lm, ok, drop_front (encode e) r, drop_front m rest, take_front m rest)
        refl

  finish_lem :
      (at : Place) (retval : Bool)
      → at.oflo ≡ false
      → 3 ≤ length at.ahead
      → finish at retval ≡ matched at.behind [] retval (drop 3 at.ahead)
  unfolding finish overwrite mine_all names all_agree
  finish_lem at retval o room =
      let s : ltb (length at.ahead) 3 ≡ false = ground arith in
      let z : length at.behind + 0 + 3 ≡ length at.behind + 3 = omega arith in
      let t : (retval && true) ≡ retval = ground arith in rw (o, s, z, t) refl

  matched-append :
      (e : Entry) (es : List Entry) (behind rest : List ℕ) (retval : Bool)
      → matched (behind ++ encode (mine http_gzip_support http e.name)) es (retval && agree e) rest
        ≡ matched behind (e ∷ es) retval rest
  unfolding mine_all names all_agree
  matched-append e es behind rest retval =
      let m = encode (mine http_gzip_support http e.name) in
      let end = 0xff ∷ 0xff ∷ 0 ∷ rest in
      let b : (behind ++ m) ++ (request es ++ end) ≡ behind ++ ((m ++ request es) ++ end) =
        append_assoc behind m (request es ++ end)
        ∙ ap (λ t. behind ++ t) (sym (append_assoc m (request es) end)) in
      let l1 = length-append behind m in
      let l2 = length-append m (request es) in
      let l : length (behind ++ m) + length (request es) + 3
          ≡ length behind + length (m ++ request es) + 3 =
        omega arith in
      let a : (retval && agree e && all_agree es) ≡ (retval && (agree e && all_agree es)) =
        ground arith in
      rw (b, l, a) refl

  match_loop_lem :
      (es : List Entry) (fuel : ℕ) (at : Place) (retval : Bool)
      → AreEntries es
      → IsReady http_gzip_support http at.ahead
      → at.oflo ≡ false
      → length es ≤ fuel
      → length (request es) + 3 ≤ length at.ahead
      → (rest : List ℕ) × (match_loop http_gzip_support http (suc fuel) (encode_all es) at retval
          ≡ some (matched at.behind es retval rest))
  unfolding match_loop encode_all mine_all names byte
  match_loop_lem [] fuel at retval are ready o f room =
      (drop 3 at.ahead, ap some (finish_lem at retval o room))
  match_loop_lem (e ∷ es) zero at retval are ready o f room =
      let absurd : ⊥ = omega arith in elim absurd [ ]
  match_loop_lem (e ∷ es) (suc fuel) at retval (he, hm, name, are) ready o f room =
      let r = encode_all es in
      let m = encode (mine http_gzip_support http e.name) in
      let lm = length-append m (request es) in
      let (at', found, (rest, eq, ready', l)) =
        find_entry_lem http_gzip_support http e r at he hm name ready (omega arith) in
      let at2 : Place = record at { behind = at.behind ++ m; ahead = rest } in
      let lr = length-append m rest in
      let (rest', ih) =
        match_loop_lem es fuel at2 (retval && agree e) are ready' o (omega arith) (omega arith) in
      (
        rest',
        turn e r rest (suc fuel) at at' retval he hm found eq
            ∙ ih
            ∙ ap some (matched-append e es at.behind rest' retval),
      )

  length-encode_all : (es : List Entry) → length es + 3 ≤ length (encode_all es)
  unfolding encode_all entry_len
  length-encode_all [] = omega arith
  length-encode_all (e ∷ es) =
      let ih = length-encode_all es in
      let l = length-append (encode e) (encode_all es) in
      let m = length-encode http_gzip_support http e in omega arith

  -- VRY_Match of cache_vary.c, for a vary string of entries that fit their lengths, as the request's
  -- entries for the same headers do, with names of at most 126 bytes, in a buffer that starts with entries of the request and then a
  -- blank, and has space for those entries and the end marker: it fails no assertion, and its loop ends;
  -- it says yes exactly where the request has the object's value for every header, Accept-Encoding
  -- aside where the server compresses; and the buffer then starts with the request's entries for these
  -- headers, in their order, and the end marker, behind which vary_l points.
  pub match-all_agree :
      (es : List Entry) (buffer : List ℕ)
      → AreEntries es
      → IsReady http_gzip_support http buffer
      → length (request es) + 3 ≤ length buffer
      → (rest : List ℕ) × (match http_gzip_support http buffer (encode_all es)
          ≡ some record {
            buffer = request es ++ (0xff ∷ 0xff ∷ 0 ∷ rest);
            vary_l = some (length (request es) + 3);
            retval = all_agree es;
          })
  unfolding match
  match-all_agree es buffer are ready room =
      let l = length-encode_all es in
      let z : length (encode_all es) ≡ suc (length (encode_all es) - 1) = omega arith in
      let start : Place = record { behind = []; ahead = buffer; oflo = false } in
      let (rest, e) =
        match_loop_lem es (length (encode_all es) - 1) start true are ready refl (omega arith)
          room in
      let z' : 0 + length (request es) + 3 ≡ length (request es) + 3 = omega arith in
      let with_end : ℕ → Option Matched = λ n. some record {
        buffer = request es ++ (0xff ∷ 0xff ∷ 0 ∷ rest);
        vary_l = some n;
        retval = all_agree es;
      } in
      (
        rest,
        ap (λ k. match_loop http_gzip_support http k (encode_all es) start true) z
            ∙ e
            ∙ ap with_end z',
      )
