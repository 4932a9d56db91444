-- ===== src/Vary/Finding.antt =====
-- The entry of the request that VRY_Match of bin/varnishd/cache_vary.c finds or builds for a header.
use pkg_varnish.Prelude.{
  ℕ, ◌+◌, ◌-◌, ◌≤◌, ◌<◌, ◌≡◌, refl, sym, ap, ◌∙◌, inl, inr, Bool, true, false, ◌||◌, none, some,
  List, [], ◌∷◌, ◌++◌, arith, ltb, leb, ltb→lt, ◌==◌, if◌then◌else◌, Bool-cases, length,
  length-append, drop, set, length-drop_le,
}
use mathlib.Core.List.{append_assoc}
use pkg_varnish.Http.{Http}
use pkg_varnish.Vary.{
  byte, vry_cmp, content, is_short, vbe16enc, Place, overwrite, build, find_entry,
}
use pkg_varnish.Vary.Entries.{
  eq_bytes, eq_value, Entry, IsEntry, named, encode, is_skipped, eq_bytes_refl, eq_bytes→path,
  length-named, encode_split, vry_cmp-encode,
}
use pkg_varnish.Vary.Building.{
  set_front, IsBlank, set-IsBlank, vry_cmp_blank, mine, header_of-encode, header_of-none,
  new_entry-encode,
}

module _ (http_gzip_support : Bool) (http : Http) where
  -- The request's entries for the headers, one behind the other.
  unfoldable pub mine_all : List (List ℕ) → List ℕ
  mine_all [] = []
  mine_all (n ∷ ns) = encode (mine http_gzip_support http n) ++ mine_all ns

  abbrev pub AreMine : List (List ℕ) → Type 0
  AreMine [] = Unit
  AreMine (n ∷ ns) = IsEntry (mine http_gzip_support http n) × AreMine ns

  -- Ahead are entries of the request, and then a blank.
  abbrev pub IsReady : List ℕ → Type 0
  IsReady ahead =
      (ns : List (List ℕ)) × (t : List ℕ) × (ahead ≡ mine_all ns ++ t) × AreMine ns × IsBlank t

  -- What `find_entry` gives for a header of the object.
  abbrev pub IsFound : List ℕ → Place → Place → Type 0
  IsFound name at at' =
      (rest : List ℕ) × (at'
        ≡ record at { ahead = encode (mine http_gzip_support http name) ++ rest })
      × IsReady rest
      × (length (encode (mine http_gzip_support http name) ++ rest) ≡ length at.ahead)

  unfoldable pub entry_len : Entry → ℕ
  entry_len e = length e.name + 5 + length (content e.value)

  pub length-encode : (e : Entry) → length (encode e) ≡ entry_len e
  unfolding encode vbe16enc entry_len
  length-encode e =
      let a = length-append (named e.name) (content e.value) in
      let l = length-named e.name in omega arith

  pub byte-encode : (e : Entry) (r : List ℕ) → byte (encode e ++ r) 2 ≡ length e.name + 1
  unfolding byte
  byte-encode e r = rw (encode_split e r) refl

  -- An entry over the start of the bytes, and the nul after it.
  write_entry :
      (f : Entry) (ahead : List ℕ)
      → length (encode f) + 3 ≤ length ahead
      → (rest : List ℕ) × (set (overwrite (encode f) ahead) (entry_len f + 2) 0 ≡ encode f ++ rest)
        × IsBlank rest
        × (length (encode f ++ rest) ≡ length ahead)
  unfolding overwrite
  write_entry f ahead room =
      let x = encode f in
      let d : length (drop (length x) ahead) ≡ length ahead - length x =
        let l = length-drop_le (length x) ahead (omega arith) in omega arith in
      let (b, l) = set-IsBlank (drop (length x) ahead) (omega arith) in
      let a = length-append x (set (drop (length x) ahead) 2 0) in
      (
        set (drop (length x) ahead) 2 0,
        (rw (sym (length-encode f)) (set_front x (drop (length x) ahead) 2 0)),
        b,
        omega arith,
      )

  build_lem :
      (e : Entry) (r : List ℕ) (at : Place)
      → IsEntry (mine http_gzip_support http e.name)
      → length e.name < 127
      → length (encode (mine http_gzip_support http e.name)) + 3 ≤ length at.ahead
      → (at' : Place) × (build http_gzip_support http (encode e ++ r) at ≡ some at')
        × IsFound e.name at at'
  unfolding build mine_all
  build_lem e r at he name room =
      let f = mine http_gzip_support http e.name in
      let ln = 2 + (length e.name + 1) + 2 + length (content f.value) in
      let lf = length-encode f in
      let z : ln ≡ entry_len f = unfold entry_len in omega arith in
      let c : leb (length at.ahead) (entry_len f) ≡ false = ground arith in
      let (rest, e1, b, l) = write_entry f at.ahead room in
      let room' : ltb (entry_len f + 2) (length at.ahead) ≡ true = ground arith in
      (
        record at { ahead = encode f ++ rest },
        rw
            (
              header_of-encode http_gzip_support http e r name,
              byte-encode e r,
              new_entry-encode http_gzip_support http e r,
              z,
              c,
              he.1,
              room',
              e1,
            )
            refl,
        (rest, refl, ([], rest, refl, tt, b), l),
      )

  -- VRY_Match of cache_vary.c: where the space that is left has one or two bytes more than the entry to
  -- be built, an assertion fails: for a name of at most 126 bytes and a value that fits, the one that the end
  -- marker fits, since the test before it lets the entry in.
  pub build-none :
      (e : Entry) (r : List ℕ) (at : Place)
      → length (encode (mine http_gzip_support http e.name)) < length at.ahead
      → length at.ahead ≤ length (encode (mine http_gzip_support http e.name)) + 2
      → build http_gzip_support http (encode e ++ r) at ≡ none
  unfolding build
  build-none e r at low high =
      let f = mine http_gzip_support http e.name in
      let ln = 2 + (length e.name + 1) + 2 + length (content f.value) in
      let lf = length-encode f in
      let z : ln ≡ entry_len f = unfold entry_len in omega arith in
      let c : leb (length at.ahead) (entry_len f) ≡ false = ground arith in
      let room : ltb (entry_len f + 2) (length at.ahead) ≡ false = ground arith in
      elim (Bool-cases (ltb (length e.name) 127)) [
        | inr long ↦ rw (header_of-none http_gzip_support http e r (ground arith)) refl
        | inl short ↦
            let value =
              header_of-encode http_gzip_support http e r (ltb→lt (length e.name) 127 short) in
            elim (Bool-cases (is_short f.value)) [
              | inl h ↦ rw (value, byte-encode e r, z, c, room, h) refl
              | inr h ↦ rw (value, byte-encode e r, z, c, room, h) refl
            ]
      ]

  -- No entry of the request is of another header.
  pub cmp_mine :
      (e : Entry) (r s : List ℕ)
      → IsEntry e
      → IsEntry (mine http_gzip_support http e.name)
      → vry_cmp http_gzip_support (encode e ++ r) (encode (mine http_gzip_support http e.name) ++ s)
        ≡ (if eq_value e.value (mine http_gzip_support http e.name).value
              || is_skipped http_gzip_support e.name
            then 0
            else 2)
  cmp_mine e r s he hm =
      vry_cmp-encode http_gzip_support e (mine http_gzip_support http e.name) r s he hm
      ∙ (rw (eq_bytes_refl e.name) refl)

  cmp_mine-one :
      (e : Entry) (r s : List ℕ)
      → IsEntry e
      → IsEntry (mine http_gzip_support http e.name)
      → (vry_cmp http_gzip_support
            (encode e ++ r)
            (encode (mine http_gzip_support http e.name) ++ s)
          == 1)
        ≡ false
  cmp_mine-one e r s he hm = let c = cmp_mine e r s he hm in ground arith

  pub find_entry_lem :
      (e : Entry) (r : List ℕ) (at : Place)
      → IsEntry e
      → IsEntry (mine http_gzip_support http e.name)
      → length e.name < 127
      → IsReady at.ahead
      → length (encode (mine http_gzip_support http e.name)) + 3 ≤ length at.ahead
      → (at' : Place) × (find_entry http_gzip_support http (encode e ++ r) at ≡ some at')
        × IsFound e.name at at'
  unfolding find_entry mine_all
  find_entry_lem e r at he hm name (ns, t, a, are, blank) room = found ns a are
    where
      built :
          (vry_cmp http_gzip_support (encode e ++ r) at.ahead == 1) ≡ true
          → (at' : Place) × (find_entry http_gzip_support http (encode e ++ r) at ≡ some at')
            × IsFound e.name at at'
      built c =
          let (at', b, (rest, eq, ready, l)) = build_lem e r at hm name room in
          let c' : (vry_cmp http_gzip_support (encode e ++ r) at'.ahead == 1) ≡ false =
            rw (ap (λ x. x.ahead) eq) (cmp_mine-one e r rest he hm) in
          (at', rw (c, b, c') refl, (rest, eq, ready, l))

      found :
          (ns : List (List ℕ))
          → at.ahead ≡ mine_all ns ++ t
          → AreMine ns
          → (at' : Place) × (find_entry http_gzip_support http (encode e ++ r) at ≡ some at')
            × IsFound e.name at at'
      found [] a are =
          let c : vry_cmp http_gzip_support (encode e ++ r) at.ahead ≡ 1 =
            rw a (vry_cmp_blank http_gzip_support e r t he blank) in
          built (ground arith)
      found (n ∷ ns) a (hn, are) =
          let a' : at.ahead ≡ encode (mine http_gzip_support http n) ++ (mine_all ns ++ t) =
            a ∙ append_assoc (encode (mine http_gzip_support http n)) (mine_all ns) t in
          let c =
            vry_cmp-encode http_gzip_support e (mine http_gzip_support http n) r (mine_all ns ++ t)
              he hn in
          elim (Bool-cases (eq_bytes e.name n)) [
            | inl q ↦
                let n' : n ≡ e.name = sym (eq_bytes→path e.name n q) in
                let a2 : at.ahead
                    ≡ encode (mine http_gzip_support http e.name) ++ (mine_all ns ++ t) =
                  a' ∙ ap (λ k. encode (mine http_gzip_support http k) ++ (mine_all ns ++ t)) n' in
                let c' : (vry_cmp http_gzip_support (encode e ++ r) at.ahead == 1) ≡ false =
                  rw a2 (cmp_mine-one e r (mine_all ns ++ t) he hm) in
                (
                  at,
                  rw c' refl,
                  (
                    mine_all ns ++ t,
                    ap {A = List ℕ} (λ x. record at { ahead = x }) a2,
                    (ns, t, refl, are, blank),
                    sym (ap length a2),
                  ),
                )
            | inr q ↦
                let c' : vry_cmp http_gzip_support (encode e ++ r) at.ahead ≡ 1 =
                  rw a' (c ∙ (rw q refl)) in
                built (ground arith)
          ]
