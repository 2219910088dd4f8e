-- ===== src/Autoscale/Parts.antt =====
-- Every call of a program, and the limits that the sandboxes get.
use sandboxmatrix.Base.{String, List}
use sandboxmatrix.Base.Int.{ℤ}
use sandboxmatrix.Autoscale.{Floats, Scaling, Config, Autoscaler}
use sandboxmatrix.Autoscale.Changes.{All}
use sandboxmatrix.Autoscale.Guard.{Call}
use sandboxmatrix.Autoscale.Sending.{Records, IsRegistered, Stems, Fit}

-- What the calls register, all of them register.
abbrev AreAmong : List Call → List Call → Type 0
AreAmong cs all =
    (id cpu memory : String) (p : ℤ)
    → IsRegistered cs id cpu memory p
    → IsRegistered all id cpu memory p

module _ {F W : Type 0} (num : Floats F) (rt : Scaling F W) (cfg : Config F) (records : Records rt)
    (all : List Call) where
  Kept : Autoscaler → W → Type 0
  Kept a w = All (Stems num rt cfg records all) a.sandboxes × Fit num rt cfg records all w
