-- ===== src/Probe.antt =====
-- internal/probe/probe.go. The context, the clock, net and net/http are parameters over the world W.
pub mod Waiting
use sandboxmatrix.Base.{
  ℕ, zero, suc, ◌*◌, String, Bool, true, false, ◌||◌, not, Option, none, some, List, [], ◌∷◌, ltb,
  leb, str_eq, if◌then◌else◌,
}
use sandboxmatrix.Base.Int.{ℤ, pos, negsuc, is_pos, is_zero, ltb_ℤ, to_ℕ}
use sandboxmatrix.Base.Action.{Action, Result, Error, message, quoted, wrap, ok, err}
use sandboxmatrix.Base.Dict.{Dict}
use sandboxmatrix.Api.{ProbeConfig}
use sandboxmatrix.Runtime.{Runtime, ExecConfig, ExecResult}

-- `cancelled` is ctx.Err(), `wait n` ends after n seconds or with the context, and the requests run
-- with a timeout in seconds: `http_get` gives the status, `dial` connects and closes.
pub record Outside (W : Type 0) : Type 0 where
  pub cancelled : W → Option Error
  pub wait : ℤ → Action W (Unit {0})
  pub exec_within : ℤ → (W → (ExecResult × Option Error) × W) → W → (ExecResult × Option Error) × W
  pub http_get : ℤ → String → ℤ → String → Action W ℤ
  pub dial : ℤ → String → ℤ → Action W (Unit {0})

-- if threshold <= 0 { threshold = default }
abbrev pub threshold : ℕ → ℤ → ℕ
threshold default z = if is_pos z then to_ℕ z else default

-- A duration of 0 seconds is replaced.
abbrev pub duration : ℕ → ℤ → ℤ
duration default z = if is_zero z then pos default else z

module _ {W : Type 0} (rt : Runtime W) (out : Outside W) (id ip : String) where
  unfoldable pub exec_probe : ℤ → List String → Action W (Unit {0})
  exec_probe timeout [] w = (err (message "exec probe requires a command"), w)
  exec_probe timeout (c ∷ cs) w =
      let ran =
        out.exec_within timeout (rt.exec id (record { cmd = c ∷ cs; env = []; dir = "" })) w in
      elim ran.0.1 [
        | some e ↦ (err (wrap "exec probe error" e), ran.1)
        | none ↦
            if is_zero ran.0.0.exit_code
            then (ok tt, ran.1)
            else (err (message "exec probe exit code"), ran.1)
      ]

  unfoldable pub http_probe : ℤ → ℤ → String → Action W (Unit {0})
  http_probe timeout port path w =
      let answer = out.http_get timeout ip port (if str_eq path "" then "/" else path) w in
      if is_zero port then (err (message "http probe requires a port"), w) else elim answer.0 [
        | err e ↦ (err (wrap "http probe error" e), answer.1)
        | ok status ↦
            if ltb_ℤ status (pos 200) || not (ltb_ℤ status (pos 400))
            then (err (message "http probe returned status"), answer.1)
            else (ok tt, answer.1)
      ]

  unfoldable pub tcp_probe : ℤ → ℤ → Action W (Unit {0})
  tcp_probe timeout port w =
      let conn = out.dial timeout ip port w in
      if is_zero port
      then (err (message "tcp probe requires a port"), w)
      else elim conn.0 [ err e ↦ (err (wrap "tcp probe error" e), conn.1) | ok u ↦ (ok tt, conn.1) ]

  unfoldable pub run_once : ProbeConfig → Action W (Unit {0})
  unfolding exec_probe http_probe tcp_probe
  run_once cfg =
      let timeout = duration 5 cfg.timeout_sec in
      if str_eq cfg.type "exec"
      then exec_probe timeout cfg.command
      else if str_eq cfg.type "http"
      then http_probe timeout cfg.port cfg.path
      else if str_eq cfg.type "tcp"
      then tcp_probe timeout cfg.port
      else (λ w. (err (quoted "unknown probe type" cfg.type), w))

  -- One round after the other, with the successes in a row and the failures so far; none when the fuel
  -- runs out.
  unfoldable pub poll : ProbeConfig → ℕ → ℕ → ℕ → W → Option (Result (Unit {0}) × W)
  unfolding run_once
  poll cfg zero passed failed w = none
  poll cfg (suc fuel) passed failed w =
      let tried = run_once cfg w in
      let waited = out.wait (duration 2 cfg.period_sec) tried.1 in
      let after_pass = poll cfg fuel (suc passed) failed waited.1 in
      let after_fail = poll cfg fuel 0 (suc failed) waited.1 in
      elim (out.cancelled w) [
        | some e ↦ some (err e, w)
        | none ↦ elim tried.0 [
          | ok u ↦
              if leb (threshold 1 cfg.success_threshold) (suc passed)
              then some (ok tt, tried.1)
              else elim waited.0 [ err e ↦ some (err e, waited.1) | ok u ↦ after_pass ]
          | err e ↦
              if leb (threshold 30 cfg.failure_threshold) (suc failed)
              then some (err (wrap "probe failed" e), tried.1)
              else elim waited.0 [ err x ↦ some (err x, waited.1) | ok u ↦ after_fail ]
        ]
      ]

  -- WaitForReady, for as many rounds as there is fuel.
  unfoldable pub wait_for_ready : Option ProbeConfig → ℕ → W → Option (Result (Unit {0}) × W)
  unfolding poll
  wait_for_ready none fuel w = some (ok tt, w)
  wait_for_ready (some cfg) fuel w =
      let waited = out.wait cfg.initial_delay_sec w in
      if is_pos cfg.initial_delay_sec
      then elim waited.0 [ err e ↦ some (err e, waited.1) | ok u ↦ poll cfg fuel 0 0 waited.1 ]
      else poll cfg fuel 0 0 w
