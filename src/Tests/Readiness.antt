-- ===== src/Tests/Readiness.antt =====
-- A probe of type tcp on a host that answers at once.
use sandboxmatrix.Base.{ℕ, ◌≡◌, refl, none, some, [], arith}
use sandboxmatrix.Base.Int.{pos}
use sandboxmatrix.Base.Action.{Result, ok}
use sandboxmatrix.Api.{ProbeConfig}
use sandboxmatrix.Probe.{Outside, run_once, tcp_probe, poll, wait_for_ready}
use sandboxmatrix.Probe.Waiting.{IsReady, wait_for_ready_returns, wait_for_ready-IsReady}
use sandboxmatrix.Tests.Fixtures.{host}

abbrev answering : Outside ℕ
answering = record {
  cancelled = λ w. none;
  wait = λ n w. (ok tt, w);
  exec_within = λ n run w. run w;
  http_get = λ n ip port path w. (ok (pos 200), w);
  dial = λ n ip port w. (ok tt, w);
}

abbrev twice : ProbeConfig
twice = record {
  type = "tcp";
  command = [];
  path = "";
  port = pos 80;
  initial_delay_sec = pos 0;
  period_sec = pos 0;
  timeout_sec = pos 0;
  success_threshold = pos 2;
  failure_threshold = pos 0;
}

wait_for_ready_returns_example :
    (done : Result (Unit {0}) × ℕ) × (wait_for_ready
        (host [])
        answering
        "c1"
        "10.0.0.2"
        (some twice)
        60
        0
      ≡ some done)
wait_for_ready_returns_example =
    wait_for_ready_returns (host []) answering "c1" "10.0.0.2" twice 60 0 (omega arith)

wait_for_ready-IsReady_example : IsReady (host []) answering "c1" "10.0.0.2" twice 0
unfolding wait_for_ready poll run_once tcp_probe
wait_for_ready-IsReady_example =
    wait_for_ready-IsReady (host []) answering "c1" "10.0.0.2" twice 60 0 0 refl
