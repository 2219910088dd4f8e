-- ===== src/Tests/Scaling.antt =====
-- An autoscaler with a sandbox of each priority, on a host under pressure.
use sandboxmatrix.Base.{
  ℕ, suc, String, ◌≡◌, refl, Bool, true, false, some, List, [], ◌∷◌, ◌++◌, arith,
}
use sandboxmatrix.Base.Int.{ℤ, pos}
use sandboxmatrix.Base.Dict.{lookup, insert}
use sandboxmatrix.Base.Action.{message, ok, err}
use sandboxmatrix.Autoscale.{
  Floats, Scaling, Config, pressure_critical, SandboxState, Autoscaler, set_priority, target_for,
}
use sandboxmatrix.Autoscale.Loop.{
  shrink, shrink_by_priority, pause_if_low, pause_low_priority, adjust,
}
use sandboxmatrix.Autoscale.Guard.{Call}
use sandboxmatrix.Autoscale.Sending.{Records}
use sandboxmatrix.Autoscale.Restoring.{raised_stays_paused}
use sandboxmatrix.Autoscale.Stopping.{Sent, Obeys}

-- No text is a number, and every measure is above every mark.
abbrev blind : Floats ℕ
blind = record {
  trim_space = λ s. s;
  has_suffix = λ s t. false;
  trim_suffix = λ s t. s;
  last = λ s. s;
  init = λ s. s;
  to_upper = λ s. s;
  parse_int = λ s. err (message "not a number");
  parse_float = λ s. err (message "not a number");
  of_int = λ z. 0;
  kept = λ n. pos n;
  scaled = λ x n. x;
  times = λ x y. x;
  over = λ x y. x;
  plus_tenth = λ x. x;
  above = λ x y. true;
  zero = 0;
  one = 1;
  hundred = 100;
  hundred_thousand = 100000;
  unit_bytes = λ n. n;
}

abbrev busy : Scaling ℕ ℕ
busy = record {
  pause = λ id w. (ok tt, suc w);
  unpause = λ id w. (ok tt, suc w);
  update_resources = λ id u w. (ok tt, suc w);
  host_info = λ w. (ok (record { total_memory = pos 1; used_memory = pos 1; cpu_percent = 0 }), w);
}

abbrev marks : Config ℕ
marks = record {
  memory_high_water = 0;
  memory_low_water = 0;
  cpu_high_water = 0;
  cpu_low_water = 0;
  min_memory_per_sandbox = pos 1;
  min_cpu_per_sandbox = 0;
}

abbrev tracked : String → ℤ → ℕ → Bool → SandboxState
tracked name priority scale paused = record {
  name = name;
  runtime_id = name;
  priority = priority;
  original_cpu = "";
  original_memory = "";
  current_scale = scale;
  paused = paused;
}

abbrev pressed : Autoscaler
pressed = record {
  sandboxes = ("a", tracked "a" (pos 0) 0 true) ∷ ("b", tracked "b" (pos 3) 6 false) ∷ [];
  running = true;
}

abbrev calls : List Call
calls =
    Call.starts
    ∷ Call.registers "a" "a" "" "" (pos 0)
    ∷ Call.registers "b" "b" "" "" (pos 3)
    ∷ Call.ticks 1
    ∷ []

-- A runtime whose state is the list of the calls of UpdateResources.
abbrev ledger : Scaling ℕ Sent
ledger = record {
  pause = λ id w. (ok tt, w);
  unpause = λ id w. (ok tt, w);
  update_resources = λ id u w. (ok tt, w ++ (id, u) ∷ []);
  host_info = λ w. (ok (record { total_memory = pos 1; used_memory = pos 1; cpu_percent = 0 }), w);
}

abbrev ledger-Obeys : Obeys ledger
ledger-Obeys = record {
  sent = λ w. w;
  unpauses = λ id w. refl;
  unpause_sends = λ id w. refl;
  updates = λ id u w. refl;
  update_sends = λ id u w. refl;
}

abbrev ledger-Records : Records ledger
ledger-Records = record {
  sent = λ w. w;
  pause_sends = λ id w. refl;
  unpause_sends = λ id w. refl;
  host_sends = λ w. refl;
  update_sends = λ id u w. refl;
}

-- The one tick pauses the low sandbox, and sends the critical one a part of its limits.
abbrev one_update : Sent
one_update = ("b", record { cpu_quota = pos 0; memory = pos 1 }) ∷ []

raised_stays_paused_example :
    lookup "a" (("a", tracked "a" (pos 3) 0 true) ∷ ("b", tracked "b" (pos 3) 6 false) ∷ [])
    ≡ some (tracked "a" (pos 3) 0 true)
unfolding set_priority lookup insert adjust pause_low_priority pause_if_low shrink_by_priority
    shrink target_for
raised_stays_paused_example =
    raised_stays_paused blind busy marks pressure_critical (pos 3) "a" (tracked "a" (pos 0) 0 true)
      pressed (("a", tracked "a" (pos 3) 0 true) ∷ ("b", tracked "b" (pos 3) 6 false) ∷ []) 0 0
      (λ e. ground arith) refl refl refl
