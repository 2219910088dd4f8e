-- ===== src/Api/Team.antt =====
-- The team and quota types of pkg/api/v1alpha1/types.go. A number of CPU cores is a float64, a type C
-- that is given.
use sandboxmatrix.Base.{ℕ, String, List}
use sandboxmatrix.Base.Int.{ℤ}

pub record TeamMember : Type 0 where
  pub user_name : String
  pub role : String

pub record ResourceQuota : Type 0 where
  pub max_sandboxes : ℤ
  pub max_cpu : String
  pub max_memory : String
  pub max_disk : String
  pub max_gpus : ℤ
  pub max_matrices : ℤ
  pub max_sessions : ℤ

pub record Team : Type 0 where
  pub name : String
  pub display_name : String
  pub members : List TeamMember
  pub quota : ResourceQuota
  pub created_at : ℕ

-- What the sandboxes, matrices and sessions of a team use.
pub record ResourceUsage (C : Type 0) : Type 0 where
  pub sandboxes : ℕ
  pub cpu_cores : C
  pub memory_bytes : ℕ
  pub disk_bytes : ℕ
  pub gpus : ℤ
  pub matrices : ℕ
  pub sessions : ℕ
