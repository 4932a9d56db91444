-- ===== src/Smf/Tests.antt =====
-- Runs of the model of bin/varnishd/storage_file.c, and the theorems at a small file.
use pkg_varnish.Prelude.{
  leb, length, if◌then◌else◌, ℕ, ◌+◌, ◌≤◌, ◌<◌, ◌≡◌, refl, ◌⊎◌, true, false, Option, none, some, [],
  ◌∷◌, arith,
}
use pkg_varnish.Smf.Cutting.{smf_trim-Cuts}
use pkg_varnish.Prelude.Cells.{write}
use pkg_varnish.Prelude.Tailq.{next, prev, count, remove, first, insert_before}
use pkg_varnish.Prelude.Adjacent.{On}
use pkg_varnish.Smf.{
  free_smf, merge_next, merge_prev, is_contiguous, less_smf, Smf, Stats, SmfSc, alloc_smf, choose,
  or_else, first_free, large_enough, alloc_found, split, remfree, insfree, place, bucket, count_in,
  count_out, is_at, is_none, add, sub, more_smf, is_large,
}
use pkg_varnish.Smf.Storage.{
  Opened, smf_open_chunk, try_map, halve, new_smf, insert_by_ptr, request, handed_out, refused,
  accounted, Storage, round_up, smf_alloc,
}
use pkg_varnish.Smf.Lists.{home, IsListed}
use pkg_varnish.Smf.Ranges.{is_mergeable}
use pkg_varnish.Smf.Freeing.{IsSmfSc}
use pkg_varnish.Smf.Requests.{
  Answers, Frees, smf_free-Frees, Cuts, Holds, smf_alloc-Gives, smf_alloc-short,
}
use pkg_varnish.Smf.Opening.{Adds, new_smf-IsSmfSc}
use pkg_varnish.Smf.Runs.{here, after, allocs, AreDisjoint, Reach-AreDisjoint}

abbrev no_stats : Stats
no_stats = record {
  c_req = 0;
  c_fail = 0;
  c_bytes = 0;
  c_freed = 0;
  g_alloc = 0;
  g_bytes = 0;
  g_space = 0;
  g_smf = 0;
  g_smf_frag = 0;
  g_smf_large = 0;
}

abbrev no_smf : Smf
no_smf = record { alloc = false; size = 0; offset = 0; ptr = 0; flist = none }

-- Three pages in use, and seven free ones behind them.
abbrev ten_pages : SmfSc
ten_pages = record {
  smf =
      write
        (write (λ _. no_smf) 1
          record { alloc = true; size = 12288; offset = 0; ptr = 65536; flist = none })
        2 record { alloc = false; size = 28672; offset = 12288; ptr = 77824; flist = some 7 };
  order = 1 ∷ 2 ∷ [];
  free = write (λ _. []) 7 (2 ∷ []);
  used = 1 ∷ [];
  pagesize = 4096;
  stats = no_stats;
}

ten_pages-IsListed : IsListed none ten_pages
unfolding count write is_at home bucket
ten_pages-IsListed = record {
  page = omega arith;
  once = λ q. ground arith;
  sized = λ q h. ground arith;
  in_use = λ q. ground arith;
  on_free = λ q b. ground arith;
  homed = λ q h n. ground arith;
}

ten_pages-IsSmfSc : IsSmfSc ten_pages
unfolding write is_mergeable
ten_pages-IsSmfSc = (ten_pages-IsListed, ((omega arith, refl), (tt, tt)))

-- Two pages are given from the front of the seven.
first_pages : Storage
first_pages = record { space = 8192; len = 0; ptr = 77824; priv = 7 }

abbrev state_of : Option (Option Storage × SmfSc) → SmfSc
state_of none = ten_pages
state_of (some (s, sc)) = sc

abbrev one_more : SmfSc
unfolding smf_alloc request handed_out refused accounted alloc_smf choose or_else first_free
    large_enough alloc_found split remfree insfree place bucket count_in count_out is_at is_none
    write first remove insert_before round_up add sub more_smf is_large
one_more = state_of (smf_alloc ten_pages 8000 7)

alloc_test : smf_alloc ten_pages 8000 7 ≡ some (some first_pages, one_more)
unfolding smf_alloc request handed_out refused accounted alloc_smf choose or_else first_free
    large_enough alloc_found split remfree insfree place bucket count_in count_out is_at is_none
    write first remove insert_before round_up add sub more_smf is_large first_pages
alloc_test = refl

-- The three pages in use.
old_pages : Storage
old_pages = record { space = 12288; len = 0; ptr = 65536; priv = 1 }

old-Holds : Holds ten_pages old_pages
unfolding old_pages count write
old-Holds = (refl, refl, refl, refl)

-- What is given for 4 GB and a byte.
one_page : Storage
one_page = record { space = 4096; len = 0; ptr = 77824; priv = 7 }

abbrev after_short : SmfSc
unfolding smf_alloc request handed_out refused accounted alloc_smf choose or_else first_free
    large_enough alloc_found split remfree insfree place bucket count_in count_out is_at is_none
    write first remove insert_before round_up add sub more_smf is_large
after_short = state_of (smf_alloc ten_pages 4_294_967_297 7)

short_alloc : smf_alloc ten_pages 4_294_967_297 7 ≡ some (some one_page, after_short)
unfolding smf_alloc request handed_out refused accounted alloc_smf choose or_else first_free
    large_enough alloc_found split remfree insfree place bucket count_in count_out is_at is_none
    write first remove insert_before round_up add sub more_smf is_large one_page
short_alloc = refl

-- 4 GB and a byte come to one page.
short_test : round_up 4096 4294967297 ≡ 4096
unfolding round_up add
short_test = refl

smf_alloc-Gives_example : Answers ten_pages 8000 7
smf_alloc-Gives_example =
    smf_alloc-Gives ten_pages 12 ten_pages-IsSmfSc (refl, omega arith) 8000 7 (omega arith)
      (omega arith) (unfold count in refl)

smf_free-Frees_example : Frees ten_pages old_pages
smf_free-Frees_example = smf_free-Frees ten_pages old_pages ten_pages-IsSmfSc old-Holds

smf_trim-Cuts_example : Cuts ten_pages old_pages 5000 7
smf_trim-Cuts_example =
    smf_trim-Cuts ten_pages 12 old_pages ten_pages-IsSmfSc (refl, omega arith) old-Holds 5000 7
      (omega arith) (unfold old_pages in omega arith) (omega arith) (unfold count in refl)

old-held_on : Holds one_more old_pages
unfolding old_pages count write one_more
old-held_on = (refl, refl, refl, refl)

first-Holds : Holds one_more first_pages
unfolding first_pages count write one_more
first-Holds = (refl, refl, refl, refl)

Reach-AreDisjoint_example : AreDisjoint first_pages old_pages
Reach-AreDisjoint_example =
    Reach-AreDisjoint 12 ten_pages one_more first_pages old_pages ten_pages-IsSmfSc
      (refl, omega arith)
      (after here (allocs 8000 7 (omega arith) (omega arith) (unfold count in refl) alloc_test))
      first-Holds old-held_on (unfold first_pages old_pages in omega arith)

smf_alloc-short_example : one_page.space < 4_294_967_297
smf_alloc-short_example =
    smf_alloc-short ten_pages after_short 12 4_294_967_297 7 one_page (refl, omega arith)
      (omega arith) short_alloc

apart_from_ten :
    (q : ℕ)
    → On ten_pages.order q
    → ((ten_pages.smf q).ptr + (ten_pages.smf q).size ≤ 106_496)
      ⊎ (106_496 + 8192 ≤ (ten_pages.smf q).ptr)
unfolding count write
apart_from_ten q on = ground arith

new_smf-IsSmfSc_example : Adds ten_pages 106_496 40_960 8192 7
new_smf-IsSmfSc_example =
    new_smf-IsSmfSc ten_pages 106_496 40_960 8192 7 ten_pages-IsSmfSc (unfold count in refl)
      (omega arith) (omega arith) apart_from_ten

-- A file of 1 MB of which no more than half can be mapped at once.
abbrev half_of_it : ℕ → ℕ → Option ℕ
half_of_it sz off = if leb sz 524_288 then some (1_048_576 + off) else none

abbrev no_pages : Opened
no_pages = record {
  sc = record {
    smf = λ _. no_smf;
    order = [];
    free = λ _. [];
    used = [];
    pagesize = 4096;
    stats = no_stats;
  };
  fail = 1_073_741_824;
  sum = 0;
}

-- The bytes that are mapped, the chunk that could not be, and how many ranges there are.
abbrev mapped : Option Opened → ℕ × ℕ × ℕ
mapped none = (0, 0, 0)
mapped (some o) = (o.sum, o.fail, length o.sc.order)

open_test :
    mapped (smf_open_chunk half_of_it (λ sz off. off + 1) 3 no_pages 1_048_576 0)
    ≡ (1_048_576, 1_048_576, 1)
unfolding smf_open_chunk try_map halve new_smf insert_by_ptr free_smf merge_next merge_prev
    is_contiguous remfree insfree place bucket count_in count_out is_large is_at is_none write
    remove next prev first add sub more_smf less_smf
open_test = refl
