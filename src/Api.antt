-- ===== src/Api.antt =====
-- The object types of pkg/api/v1alpha1/types.go. An instant is a number of nanoseconds, a pointer
-- that may be nil is an Option, and a string type with a closed list of constants is an enumeration.
pub mod Task
pub mod Team
use sandboxmatrix.Base.{ℕ, String, Bool, Option, List}
use sandboxmatrix.Base.Dict.{Dict}
use sandboxmatrix.Base.Int.{ℤ}

pub data SandboxState : Type 0 where
  pending creating running stopped error ready destroying destroyed paused : SandboxState

pub record ObjectMeta : Type 0 where
  pub name : String
  pub version : String
  pub labels : Dict String
  pub created_at : ℕ
  pub updated_at : ℕ

pub record TypeMeta : Type 0 where
  pub api_version : String
  pub kind : String

pub record GpuSpec : Type 0 where
  pub count : ℤ
  pub driver : String

pub record Resources : Type 0 where
  pub cpu : String
  pub memory : String
  pub disk : String
  pub gpu : Option GpuSpec

pub record SetupStep : Type 0 where
  pub run : String

pub record Toolchain : Type 0 where
  pub name : String
  pub image : String

pub record WorkspaceSpec : Type 0 where
  pub mount_path : String
  pub source : String
  pub read_only : Bool

pub record NetworkSpec : Type 0 where
  pub expose : List ℤ
  pub policy : String
  pub allow_dns : Bool

pub record DeviceMapping : Type 0 where
  pub host_path : String
  pub container_path : String
  pub permissions : String
  pub optional : Bool

pub record ProbeConfig : Type 0 where
  pub type : String
  pub command : List String
  pub path : String
  pub port : ℤ
  pub initial_delay_sec : ℤ
  pub period_sec : ℤ
  pub timeout_sec : ℤ
  pub success_threshold : ℤ
  pub failure_threshold : ℤ

pub record SecretRef : Type 0 where
  pub name : String
  pub source : String

pub record BlueprintSpec : Type 0 where
  pub extends : String
  pub base : String
  pub runtime : String
  pub resources : Resources
  pub env : Dict String
  pub secrets : List SecretRef
  pub setup : List SetupStep
  pub toolchains : List Toolchain
  pub workspace : WorkspaceSpec
  pub network : NetworkSpec
  pub devices : List DeviceMapping
  pub readiness_probe : Option ProbeConfig

pub record Blueprint : Type 0 where
  pub type_meta : TypeMeta
  pub metadata : ObjectMeta
  pub spec : BlueprintSpec

pub record SandboxSpec : Type 0 where
  pub blueprint_ref : String
  pub blueprint_path : String
  pub resources : Resources
  pub workspace : WorkspaceSpec
  pub team : String
  pub priority : ℤ

pub record SandboxStatus : Type 0 where
  pub state : SandboxState
  pub runtime_id : String
  pub ip : String
  pub started_at : Option ℕ
  pub ready_at : Option ℕ
  pub stopped_at : Option ℕ
  pub message : String
  pub probe_error : String

pub record Sandbox : Type 0 where
  pub type_meta : TypeMeta
  pub metadata : ObjectMeta
  pub spec : SandboxSpec
  pub status : SandboxStatus

pub data SessionState : Type 0 where
  active completed failed : SessionState

pub record Session : Type 0 where
  pub type_meta : TypeMeta
  pub metadata : ObjectMeta
  pub sandbox : String
  pub state : SessionState
  pub started_at : Option ℕ
  pub ended_at : Option ℕ
  pub exec_count : ℕ

pub data MatrixState : Type 0 where
  active stopped destroyed : MatrixState

pub record MatrixMember : Type 0 where
  pub name : String
  pub blueprint : String

pub record MatrixSpec : Type 0 where
  pub team : String

-- The sharding, aggregation and results fields, which no modelled operation writes, are left out.
pub record Matrix : Type 0 where
  pub type_meta : TypeMeta
  pub metadata : ObjectMeta
  pub spec : MatrixSpec
  pub members : List MatrixMember
  pub state : MatrixState

-- role is a string type: a request may name one that has no permissions.
pub record User : Type 0 where
  pub name : String
  pub role : String
  pub token : String

pub record AuditEntry : Type 0 where
  pub timestamp : ℕ
  pub user : String
  pub action : String
  pub resource : String
  pub result : String
  pub detail : String
