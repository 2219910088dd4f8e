-- ===== src/Probe/Waiting.antt =====
-- How long WaitForReady waits, and what a success means.
use sandboxmatrix.Base.{
  ℕ, zero, suc, ◌+◌, ◌-◌, ◌*◌, ◌≤◌, ◌<◌, String, ◌≡◌, refl, sym, ap, ◌∙◌, false, some, leb, inl,
  inr, arith, Bool-cases, Option-cases,
}
use sandboxmatrix.Base.Int.{ℤ, pos, negsuc, is_pos}
use sandboxmatrix.Base.Action.{Result, wrap, ok, err, Result-cases}
use sandboxmatrix.Api.{ProbeConfig}
use sandboxmatrix.Runtime.{Runtime}
use sandboxmatrix.Probe.{Outside, threshold, duration, run_once, poll, wait_for_ready}

next_room :
    (most failed room : ℕ)
    → failed + suc room ≡ most
    → leb most (suc failed) ≡ false
    → (r : ℕ) × (room ≡ suc r)
next_room most failed zero h l = absurd (ground arith)
next_room most failed (suc r) h l = (r, refl)

suc_times : (r p : ℕ) → suc r * p ≡ r * p + p
suc_times r p = omega arith

-- The thresholds with their defaults.
abbrev pub passes : ProbeConfig → ℕ
passes cfg = threshold 1 cfg.success_threshold

abbrev pub failures : ProbeConfig → ℕ
failures cfg = threshold 30 cfg.failure_threshold

module _ {W : Type 0} (rt : Runtime W) (out : Outside W) (id ip : String) (cfg : ProbeConfig) where
  -- `room` counts the failures cfg that are left after the next one.
  poll_returns :
      (fuel passed failed room : ℕ) (w : W)
      → passed < passes cfg
      → failed + suc room ≡ failures cfg
      → room * passes cfg + passes cfg ≤ fuel + passed
      → (done : Result (Unit {0}) × W) × (poll rt out id ip cfg fuel passed failed w ≡ some done)
  unfolding poll
  poll_returns zero passed failed room w a b c = absurd (omega arith)
  poll_returns (suc fuel) passed failed room w a b c =
      let tried = run_once rt out id ip cfg w in
      let waited = out.wait (duration 2 cfg.period_sec) tried.1 in
      elim (Option-cases (out.cancelled w)) [
        | inr (e, p) ↦ ((err e, w), rw (poll, p) refl)
        | inl p ↦ elim (Result-cases tried.0) [
          | inl (u, q) ↦ elim (Bool-cases (leb (passes cfg) (suc passed))) [
            | inl l ↦ ((ok tt, tried.1), rw (poll, p, q, l) refl)
            | inr l ↦ elim (Result-cases waited.0) [
              | inr (x, r) ↦ ((err x, waited.1), rw (poll, p, q, l, r) refl)
              | inl (v, r) ↦
                  let (done, h) =
                    poll_returns fuel (suc passed) failed room waited.1 (ground arith) b
                      (omega (arith, c)) in
                  (done, rw (poll, p, q, l, r) h)
            ]
          ]
          | inr (e, q) ↦ elim (Bool-cases (leb (failures cfg) (suc failed))) [
            | inl l ↦ ((err (wrap "probe failed" e), tried.1), rw (poll, p, q, l) refl)
            | inr l ↦ elim (Result-cases waited.0) [
              | inr (x, r) ↦ ((err x, waited.1), rw (poll, p, q, l, r) refl)
              | inl (v, r) ↦
                  let (room', less) = next_room (failures cfg) failed room b l in
                  let grown : room * passes cfg ≡ room' * passes cfg + passes cfg =
                    ap (λ k. k * passes cfg) less ∙ suc_times room' (passes cfg) in
                  let (done, h) =
                    poll_returns fuel 0 (suc failed) room' waited.1 (omega arith) (omega arith)
                      (omega arith) in
                  (done, rw (poll, p, q, l, r) h)
            ]
          ]
        ]
      ]

threshold-positive : (default : ℕ) (z : ℤ) → 0 < default → 0 < threshold default z
threshold-positive default (pos n) h = ground arith
threshold-positive default (negsuc n) h = h

-- With fuel for as many probes as the product of the two thresholds, 30 and 1 being the defaults,
-- WaitForReady returns.
pub wait_for_ready_returns :
    {W : Type 0} (rt : Runtime W) (out : Outside W) (id ip : String) (cfg : ProbeConfig) (fuel : ℕ)
    (w : W)
    → failures cfg * passes cfg ≤ fuel
    → (done : Result (Unit {0}) × W) × (wait_for_ready rt out id ip (some cfg) fuel w ≡ some done)
unfolding wait_for_ready
wait_for_ready_returns {W} rt out id ip cfg fuel w enough =
    let waited = out.wait cfg.initial_delay_sec w in
    let many = threshold-positive 30 cfg.failure_threshold (omega arith) in
    let some_passes = threshold-positive 1 cfg.success_threshold (omega arith) in
    let room = failures cfg - 1 in
    let count : room + 1 ≡ failures cfg = omega arith in
    let fits : room * passes cfg + passes cfg ≤ fuel =
      omega (arith, ap (λ k. k * passes cfg) count, suc_times room (passes cfg)) in
    let from = λ (v : W).
      poll_returns rt out id ip cfg fuel 0 0 room v some_passes (omega arith) (omega arith) in
    elim (Bool-cases (is_pos cfg.initial_delay_sec)) [
      | inr e ↦ let (done, h) = from w in (done, rw (wait_for_ready, e) h)
      | inl e ↦ elim (Result-cases waited.0) [
        | inr (x, f) ↦ ((err x, waited.1), rw (wait_for_ready, e, f) refl)
        | inl (u, f) ↦ let (done, h) = from waited.1 in (done, rw (wait_for_ready, e, f) h)
      ]
    ]

module _ {W : Type 0} (rt : Runtime W) (out : Outside W) (id ip : String) (cfg : ProbeConfig) where
  -- Probes that passed one after the other, each followed by a full period.
  pub data Row (v : W) : ℕ → W → Type 0 where
    starts : Row v 0 v
    passes_again :
        {n : ℕ} {w : W}
        → Row v n w
        → (run_once rt out id ip cfg w).0 ≡ ok tt
        → (out.wait (duration 2 cfg.period_sec) (run_once rt out id ip cfg w).1).0 ≡ ok tt
        → Row v (suc n) (out.wait (duration 2 cfg.period_sec) (run_once rt out id ip cfg w).1).1

  -- The last probes before the end passed, as many as the threshold asks for.
  abbrev pub IsReady : W → Type 0
  IsReady w' =
      (v : W) × (n : ℕ) × (w : W) × Row v n w
      × ((run_once rt out id ip cfg w).0 ≡ ok tt)
      × (passes cfg ≤ suc n)
      × (w' ≡ (run_once rt out id ip cfg w).1)

  poll-IsReady :
      (fuel passed failed : ℕ) (v w w' : W)
      → Row v passed w
      → poll rt out id ip cfg fuel passed failed w ≡ some (ok tt, w')
      → IsReady w'
  unfolding poll
  poll-IsReady zero passed failed v w w' row h = absurd (ground arith)
  poll-IsReady (suc fuel) passed failed v w w' row h =
      let tried = run_once rt out id ip cfg w in
      let waited = out.wait (duration 2 cfg.period_sec) tried.1 in
      elim (Option-cases (out.cancelled w)) [
        | inr (e, p) ↦ absurd (ground arith)
        | inl p ↦ elim (Result-cases tried.0) [
          | inl (u, q) ↦ elim (Bool-cases (leb (passes cfg) (suc passed))) [
            | inl l ↦ (v, passed, w, row, q, ground arith, ground arith)
            | inr l ↦ elim (Result-cases waited.0) [
              | inr (x, r) ↦ absurd (ground arith)
              | inl (z, r) ↦
                  poll-IsReady fuel (suc passed) failed v waited.1 w' (Row.passes_again row q r)
                    (sym (rw (poll, p, q, l, r) refl) ∙ h)
            ]
          ]
          | inr (e, q) ↦ elim (Bool-cases (leb (failures cfg) (suc failed))) [
            | inl l ↦ absurd (ground arith)
            | inr l ↦ elim (Result-cases waited.0) [
              | inr (x, r) ↦ absurd (ground arith)
              | inl (z, r) ↦
                  poll-IsReady fuel 0 (suc failed) waited.1 waited.1 w' Row.starts
                    (sym (rw (poll, p, q, l, r) refl) ∙ h)
            ]
          ]
        ]
      ]

  -- A WaitForReady that reports no error ends with as many successful probes in a row as the
  -- success threshold asks for, a full period after each but the last.
  pub wait_for_ready-IsReady :
      (fuel : ℕ) (w w' : W)
      → wait_for_ready rt out id ip (some cfg) fuel w ≡ some (ok tt, w')
      → IsReady w'
  unfolding wait_for_ready
  wait_for_ready-IsReady fuel w w' h =
      let waited = out.wait cfg.initial_delay_sec w in
      elim (Bool-cases (is_pos cfg.initial_delay_sec)) [
        | inr e ↦ poll-IsReady fuel 0 0 w w w' Row.starts (sym (rw (wait_for_ready, e) refl) ∙ h)
        | inl e ↦ elim (Result-cases waited.0) [
          | inr (x, f) ↦ absurd (ground arith)
          | inl (u, f) ↦
              poll-IsReady fuel 0 0 waited.1 waited.1 w' Row.starts
                (sym (rw (wait_for_ready, e, f) refl) ∙ h)
        ]
      ]
