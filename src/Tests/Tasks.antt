-- ===== src/Tests/Tasks.antt =====
-- Three tasks for two members.
use sandboxmatrix.Base.{◌+◌, ◌≤◌, String, ◌≡◌, refl, inl, inr, some, List, [], ◌∷◌, arith}
use sandboxmatrix.Api.{MatrixMember}
use sandboxmatrix.Sharding.{Task, Assignment, round_robin_distribute, balanced_distribute}
use sandboxmatrix.Sharding.Balance.{load, balanced_loads}
use sandboxmatrix.Sharding.Order.{TakesTurns, tasks_of, round_robin_turns}

abbrev member : String → MatrixMember
member n = record { name = n; blueprint = "" }

abbrev task : String → Task
task id = record { id = id; payload = ""; key = ""; meta = [] }

abbrev three_tasks : List Task
three_tasks = task "1" ∷ task "2" ∷ task "3" ∷ []

abbrev two_members : List MatrixMember
two_members = member "a" ∷ member "b" ∷ []

balanced_loads_example :
    load "a" (balanced_distribute three_tasks two_members)
    ≤ load "b" (balanced_distribute three_tasks two_members) + 1
balanced_loads_example = balanced_loads three_tasks two_members "a" "b" (inl refl) (inr (inl refl))

round_robin_turns_example :
    (as' : List Assignment) × (round_robin_distribute 9 three_tasks two_members ≡ some (as', 12))
    × (tasks_of as' ≡ three_tasks)
    × TakesTurns two_members 9 as'
round_robin_turns_example =
    round_robin_turns (member "a") (member "b" ∷ []) 9 three_tasks (omega arith)
