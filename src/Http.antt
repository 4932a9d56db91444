-- ===== src/Http.antt =====
-- bin/varnishd/cache_http.c: the headers of a message and the lookups in them.
-- A header line is its bytes; the text ends where the list ends, as the C text ends in a nul.
pub mod Lookup
pub mod Connection
pub mod Tests
use pkg_varnish.Prelude.{
  ℕ, zero, suc, ◌+◌, ◌-◌, ◌*◌, ◌/◌, ◌%◌, ◌^◌, ◌≤◌, ◌<◌, ◌≡◌, refl, sym, ap, ◌∙◌, ◌≢◌, ◌↔◌, ◌⊎◌, inl,
  inr, Bool, true, false, not, ◌&&◌, ◌||◌, Option, none, some, List, [], ◌∷◌, ◌++◌, arith, ltb, leb,
  ◌==◌, if◌then◌else◌, ltb→lt, leb→le, ==_iff, Bool-cases, Option-cases, length, get_elem?, set,
  take, drop, length-append, take-nil, take_all, length-take_le, ◌>>=◌, ◌>>◌, assert,
}
use pkg_varnish.Prelude.Ctype.{codes}
use pkg_varnish.Vct.{is_sp, is_lws, is_sepctl, is_digit}

-- `hd` from HTTP_HDR_FIRST on, with the bit HDF_FILTER of `hdf` for each line; `request` is the
-- method, `hd[HTTP_HDR_REQ]`.
pub record Line : Type 0 where
  pub text : List ℕ
  pub filter : Bool

pub record Http : Type 0 where
  pub request : List ℕ
  pub status : ℕ
  pub protover : ℕ
  pub lines : List Line

-- tolower in the C locale.
abbrev pub to_lower : ℕ → ℕ
to_lower c = if leb b'A' c && leb c b'Z' then c + 32 else c

-- `!strncasecmp(a, b, l)` for an `a` of length `l`.
unfoldable pub starts_nocase : List ℕ → List ℕ → Bool
starts_nocase [] bs = true
starts_nocase (a ∷ rest_a) [] = false
starts_nocase (a ∷ rest_a) (b ∷ bs) = to_lower a == to_lower b && starts_nocase rest_a bs

-- `!strcasecmp(a, b)`.
unfoldable pub eq_nocase : List ℕ → List ℕ → Bool
eq_nocase [] [] = true
eq_nocase [] (b ∷ bs) = false
eq_nocase (a ∷ rest_a) [] = false
eq_nocase (a ∷ rest_a) (b ∷ bs) = to_lower a == to_lower b && eq_nocase rest_a bs

abbrev pub is_colon : Option ℕ → Bool
is_colon none = false
is_colon (some c) = c == b':'

-- The three tests of http_findhdr on one line, for a name without its colon.
unfoldable pub line_is : List ℕ → List ℕ → Bool
unfolding starts_nocase
line_is name text =
    leb (length name + 1) (length text)
    && is_colon (get_elem? text (length name))
    && starts_nocase name text

-- The place of the first line of that name, from HTTP_HDR_FIRST; `none` is the return of 0.
unfoldable pub find_from : List ℕ → List Line → ℕ → Option ℕ
find_from name [] u = none
find_from name (h ∷ hs) u = if line_is name h.text then some u else find_from name hs (u + 1)

unfoldable pub find_hdr : Http → List ℕ → Option ℕ
unfolding find_from line_is
find_hdr hp name = find_from name hp.lines 0

unfoldable pub skip_sp : List ℕ → List ℕ
skip_sp [] = []
skip_sp (c ∷ cs) = let rest = skip_sp cs in if is_sp c then rest else (c ∷ cs)

pub skip_lws : List ℕ → List ℕ
skip_lws [] = []
skip_lws (c ∷ cs) = let rest = skip_lws cs in if is_lws c then rest else (c ∷ cs)

unfoldable pub text_at : List Line → ℕ → List ℕ
text_at [] u = []
text_at (h ∷ hs) zero = h.text
text_at (h ∷ hs) (suc u) = text_at hs u

unfoldable pub value_at : Http → List ℕ → Option ℕ → Option (List ℕ)
value_at hp name none = none
value_at hp name (some u) = some (skip_sp (drop (length name + 1) (text_at hp.lines u)))

-- http_GetHdr behind its assertion, for a `name` without its length byte and its colon: the value
-- starts after the colon and the blanks. The functions below use it as it is: the code calls them with
-- the names of tbl/http_headers.h, which are shorter than the assertion asks for.
unfoldable pub header : Http → List ℕ → Option (List ℕ)
header hp name = value_at hp name (find_hdr hp name)

-- Whether `hdr[l]` is the colon: the length byte, of the name and the colon, is read as a signed char,
-- and from 128 on it leads out of the text.
unfoldable pub is_askable : List ℕ → Bool
is_askable name = ltb (length name + 1) 128

-- http_GetHdr. `none` is its assertion.
unfoldable pub get_hdr : Http → List ℕ → Option (Option (List ℕ))
get_hdr hp name = assert (is_askable name) >> some (header hp name)

-- `!memcmp(h, field, fl)` for an `h` that is long enough.
pub starts_with : List ℕ → List ℕ → Bool
starts_with [] h = true
starts_with (f ∷ fs) [] = false
starts_with (f ∷ fs) (c ∷ cs) = f == c && starts_with fs cs

-- `h + fl == e || vct_issepctl(h[fl])`.
ends_token : Option ℕ → Bool
ends_token none = true
ends_token (some c) = is_sepctl c

-- The loop of http_GetHdrData. In its inner loop, `skipping`, it passes to the next comma, which the
-- outer loop would skip in turn.
pub data_loop : List ℕ → Bool → List ℕ → Option (List ℕ)
data_loop field skipping [] = if starts_with field [] then some [] else none
data_loop field true (c ∷ cs) = data_loop field (not (c == b',')) cs
data_loop field false (c ∷ cs) =
    let blank = data_loop field false cs in
    let skip = data_loop field true cs in
    let found = some (skip_lws (drop (length field) (c ∷ cs))) in
    if ltb (length (c ∷ cs)) (length field)
    then none
    else if is_lws c || c == b','
    then blank
    else if ends_token (get_elem? (c ∷ cs) (length field)) && starts_with field (c ∷ cs)
    then found
    else skip

in_value : List ℕ → Option (List ℕ) → Option (List ℕ)
in_value field none = none
in_value field (some h) = data_loop field false h

-- What follows the field, if the header has it.
pub get_hdr_data : Http → List ℕ → List ℕ → Option (List ℕ)
get_hdr_data hp name field = in_value field (header hp name)

after_equals : List ℕ → Option (List ℕ)
after_equals [] = none
after_equals (c ∷ cs) = if c == b'=' then some (skip_sp cs) else none

field_value : Option (List ℕ) → Option (Option (List ℕ))
field_value none = none
field_value (some h) = some (after_equals (skip_sp h))

-- `none`: no such field; `some none`: the field has no value.
pub get_hdr_field : Http → List ℕ → List ℕ → Option (Option (List ℕ))
get_hdr_field hp name field = field_value (get_hdr_data hp name field)

-- A decimal number, `digits / 10 ^ places`.
pub record Quality : Type 0 where
  pub digits : ℕ
  pub places : ℕ

abbrev pub one : Quality
one = record { digits = 1; places = 0 }

fraction : List ℕ → Quality → Quality
fraction [] q = q
fraction (c ∷ cs) q =
    let rest =
      fraction cs (record { digits = q.digits * 10 + (c - b'0'); places = q.places + 1 }) in
    if is_digit c then rest else q

whole_part : List ℕ → ℕ → Quality
whole_part [] a = record { digits = a; places = 0 }
whole_part (c ∷ cs) a =
    let rest = whole_part cs (a * 10 + (c - b'0')) in
    let q : Quality = record { digits = a; places = 0 } in
    if is_digit c then rest else if c == b'.' then fraction cs q else q

-- Expect one byte, skip the blanks after it, and go on; anything else is a quality of 1.
expect : ℕ → (List ℕ → Quality) → List ℕ → Quality
expect d next [] = one
expect d next (c ∷ cs) = let rest = next (skip_sp cs) in if c == d then rest else one

quality_of : Option (List ℕ) → Quality
quality_of none = record { digits = 0; places = 0 }
quality_of (some h) =
    expect b';' (expect b'q' (expect b'=' (λ digits. whole_part digits 0))) (skip_sp h)

pub get_hdr_q : Http → List ℕ → List ℕ → Quality
get_hdr_q hp name field = quality_of (get_hdr_data hp name field)

unfoldable pub is_value : List ℕ → Option (List ℕ) → Bool
is_value val none = false
is_value val (some p) = eq_nocase p val

unfoldable pub hdr_is : Http → List ℕ → List ℕ → Bool
hdr_is hp name val = is_value val (header hp name)

-- Mark the line for filtering.
set_filter : List Line → ℕ → List Line
set_filter [] u = []
set_filter (h ∷ hs) zero = record h { filter = true } ∷ hs
set_filter (h ∷ hs) (suc u) = h ∷ set_filter hs u

mark_found : Http → Option ℕ → Http
mark_found hp none = hp
mark_found hp (some u) = record hp { lines = set_filter hp.lines u }

is_delimiter : ℕ → Bool
is_delimiter c = is_sp c || c == b','

emit : List ℕ → List (List ℕ) → List (List ℕ)
emit [] ts = ts
emit (c ∷ cs) ts = (c ∷ cs) ∷ ts

-- The texts between the delimiters, which the two loops of http_DoConnection step through.
pub tokens : List ℕ → List ℕ → List (List ℕ)
tokens token [] = emit token []
tokens token (c ∷ cs) =
    let ended = emit token (tokens [] cs) in
    let longer = tokens (token ++ c ∷ []) cs in if is_delimiter c then ended else longer

pub data Reason : Type 0 where
  not_http_1_1 connection_close : Reason

abbrev pub close : List ℕ
close = codes "close"

connection_loop : List (List ℕ) → Option Reason × Http → Option Reason × Http
connection_loop [] r = r
connection_loop (token ∷ ts) (reason, hp) = connection_loop ts (
  if length token == 5 && starts_nocase token close then some connection_close else reason,
  mark_found hp (find_hdr hp token),
)

connection_of : Http → Option (List ℕ) → Option Reason × Http
connection_of hp none = (if ltb hp.protover 11 then some not_http_1_1 else none, hp)
connection_of hp (some p) = connection_loop (tokens [] p) (none, hp)

abbrev pub connection : List ℕ
connection = codes "Connection"

-- The reason to close, and the message with the lines that the header names marked.
pub do_connection : Http → Option Reason × Http
do_connection hp = connection_of hp (header hp connection)
