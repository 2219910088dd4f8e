-- ===== src/Api/Task.antt =====
-- The configuration and result types for tasks of a matrix, in pkg/api/v1alpha1/types.go.
use sandboxmatrix.Base.{ℕ, String, Option}
use sandboxmatrix.Base.Int.{ℤ}

pub record ShardingConfig : Type 0 where
  pub strategy : String
  pub key_field : String

pub record AggregationConfig : Type 0 where
  pub strategy : String
  pub timeout_sec : ℤ

pub record TaskResult : Type 0 where
  pub member_name : String
  pub task_id : String
  pub status : String
  pub output : String
  pub error : String
  pub completed_at : Option ℕ
