-- ===== src/Runtime.antt =====
-- internal/runtime/runtime.go: the interface of an isolation backend, over the state W of the backend
-- and of the host that it runs on. The backends call Docker and gVisor and are not modelled.
use sandboxmatrix.Base.{ℕ, String, Bool, Option, List}
use sandboxmatrix.Base.Dict.{Dict}
use sandboxmatrix.Base.Int.{ℤ}
use sandboxmatrix.Base.Action.{Action, Error}

pub record NetworkConfig : Type 0 where
  pub mode : String
  pub dns : List String

pub record GpuConfig : Type 0 where
  pub count : ℤ
  pub driver : String

pub record DeviceMapping : Type 0 where
  pub host_path : String
  pub container_path : String
  pub permissions : String

pub record Mount : Type 0 where
  pub source : String
  pub target : String
  pub read_only : Bool

pub record PortMapping : Type 0 where
  pub host_port : ℤ
  pub container_port : ℤ
  pub protocol : String

pub record CreateConfig : Type 0 where
  pub name : String
  pub image : String
  pub cpu : String
  pub memory : String
  pub disk : String
  pub gpu : Option GpuConfig
  pub devices : List DeviceMapping
  pub mounts : List Mount
  pub ports : List PortMapping
  pub env : Dict String
  pub cmd : List String
  pub labels : Dict String
  pub network : NetworkConfig

-- The readers and writers of a command's standard streams are not modelled.
pub record ExecConfig : Type 0 where
  pub cmd : List String
  pub env : Dict String
  pub dir : String

pub record ExecResult : Type 0 where
  pub exit_code : ℤ

pub record SnapshotInfo : Type 0 where
  pub id : String
  pub tag : String
  pub sandbox_id : String
  pub created_at : ℕ
  pub size : ℤ

pub record Info : Type 0 where
  pub id : String
  pub name : String
  pub image : String
  pub state : String
  pub ip : String
  pub labels : Dict String

-- The operations that the modelled components call.
pub record Runtime (W : Type 0) : Type 0 where
  pub create : CreateConfig → Action W String
  pub start : String → Action W (Unit {0})
  pub stop : String → Action W (Unit {0})
  pub destroy : String → Action W (Unit {0})
  -- A failing command may still report a result.
  pub exec : String → ExecConfig → W → (ExecResult × Option Error) × W
  pub info : String → Action W Info
  pub list : Action W (List Info)
  pub snapshot : String → String → Action W String
  pub restore : String → CreateConfig → Action W String
  pub list_snapshots : String → Action W (List SnapshotInfo)
  pub delete_snapshot : String → Action W (Unit {0})
  pub create_network : String → Bool → Action W (Unit {0})
  pub delete_network : String → Action W (Unit {0})
