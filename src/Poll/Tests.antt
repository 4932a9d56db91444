-- ===== src/Poll/Tests.antt =====
-- Runs of bin/varnishd/cache_backend_poll.c, and its theorems at a small history.
use pkg_varnish.Prelude.{◌≡◌, refl, true, false, [], ◌∷◌, arith}
use pkg_varnish.Poll.{
  Answers, whole, bytes, end, Probe, new_vcl, insert, adopt, probe, poke, start_poke, has_poked,
  presume_all, presume, window_loop, connect_first, connect_second, connect_third, exchange, send,
}
use pkg_varnish.Poll.History.{Judged, outcomes, replicate, run, health_of_history}

abbrev spec : Probe
spec = record { window = 4; threshold = 2; initial = 1 }

abbrev answered : Answers
answered = record {
  prefer_ipv6 = false;
  has_ipv4 = true;
  has_ipv6 = false;
  connects_ipv4 = true;
  connects_ipv6_first = false;
  connects_ipv6_last = false;
  late_first = false;
  late_second = false;
  late_third = false;
  written = whole;
  reads = bytes 100 ∷ end ∷ [];
  matches = true;
}

abbrev refused : Answers
refused = record answered { connects_ipv4 = false }

poll_runs : (run (answered ∷ refused ∷ []) (adopt (new_vcl spec) (insert true spec))).happy ≡ 5
unfolding run probe poke start_poke has_poked insert presume_all presume new_vcl adopt connect_first
    connect_second connect_third exchange send window_loop
poll_runs = refl

health_of_history_example :
    Judged
      (outcomes (answered ∷ refused ∷ []) (replicate (new_vcl spec).initial true))
      (new_vcl spec).window
      (new_vcl spec).threshold
      (run (answered ∷ refused ∷ []) (adopt (new_vcl spec) (insert false spec)))
unfolding new_vcl
health_of_history_example = health_of_history false spec answered (refused ∷ []) (omega arith)
