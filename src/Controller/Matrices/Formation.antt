-- ===== src/Controller/Matrices/Formation.antt =====
-- CreateMatrix of internal/controller/matrix.go, with its cleanup.
pub mod Formed
use sandboxmatrix.Base.{
  ℕ, String, Option, none, some, List, [], ◌∷◌, length, Bool, str_eq, if◌then◌else◌,
}
use sandboxmatrix.Base.Int.{pos}
use sandboxmatrix.Base.Action.{
  Action, Error, Result, quoted, wrap, message, ok, err, is_ok, reject_if, ◌>>=◌, ◌>>◌,
}
use sandboxmatrix.Api.{Matrix, MatrixMember, MatrixState}
use sandboxmatrix.State.{Store}
use sandboxmatrix.Quota.{QuotaRequest}
use sandboxmatrix.Controller.{System, Controller, on_world, wrapping, destroy}
use sandboxmatrix.Controller.Matrices.{network_name, sandbox_name, save_matrix, unconfigured}
use sandboxmatrix.Controller.Create.{CreateOptions, Host}
use sandboxmatrix.Controller.Create.Run.{create}

abbrev pub member_options : String → String → MatrixMember → CreateOptions
member_options name team m = record {
  name = sandbox_name name m;
  blueprint_path = m.blueprint;
  workspace_dir = "";
  network_name = network_name name;
  env = [];
  team = team;
}

abbrev pub new_matrix : String → String → List MatrixMember → ℕ → Matrix
new_matrix name team members t = record {
  type_meta = record { api_version = "smx/v1alpha1"; kind = "Matrix" };
  metadata = record { name = name; version = ""; labels = []; created_at = t; updated_at = t };
  spec = record { team = team };
  members = members;
  state = MatrixState.active;
}

abbrev matrix_request : List MatrixMember → QuotaRequest
matrix_request members = record {
  sandboxes = pos (length members);
  cpu = "";
  memory = "";
  disk = "";
  gpus = pos 0;
  matrices = pos 1;
  sessions = pos 0;
}

module _ {S M N W B : Type 0} (c : Controller S M N W) (h : Host W B) where
  -- The cleanup destroys the members before the one that failed, up to the first of its name.
  unfoldable pub unwind : String → String → List MatrixMember → System S M N W → System S M N W
  unwind name failed [] σ = σ
  unwind name failed (m ∷ ms) σ =
      let rest = unwind name failed ms (destroy c (sandbox_name name m) σ).1 in
      if str_eq (sandbox_name name m) failed then σ else rest

  abbrev drop_network : String → System S M N W → System S M N W
  drop_network name σ = record σ {
    world = (c.runtime.delete_network (network_name name) σ.world).1;
  }

  -- The loop over the members; `all` are the members to clean up from.
  unfoldable pub form_members :
      String → String → List MatrixMember → List MatrixMember → Action (System S M N W) (Unit {0})
  unfolding unwind
  form_members name team all [] σ = (ok tt, σ)
  form_members name team all (m ∷ ms) σ =
      let made = create c h (member_options name team m) σ in
      elim made.0 [
        | ok sb ↦ form_members name team all ms made.1
        | err e ↦ (
          err (wrap "create member sandbox" e),
          drop_network name (unwind name (sandbox_name name m) all made.1),
        )
      ]

  abbrev check_matrix_quota : String → List MatrixMember → Action (System S M N W) (Unit {0})
  check_matrix_quota team members = elim h.check_quota [
    | none ↦ (λ σ. (ok tt, σ))
    | some check ↦
        if str_eq team ""
        then (λ σ. (ok tt, σ))
        else wrapping "quota check" (on_world (check team (matrix_request members)))
  ]

  -- The members and the record; the time is read before the members are made.
  abbrev pub form_and_save :
      Store M Matrix → String → String → List MatrixMember → Action (System S M N W) Matrix
  form_and_save st name team members σ =
      let mx = new_matrix name team members (c.clock σ.world) in
      let formed = form_members name team members members σ in
      let saved = save_matrix c st mx formed.1 in
      elim formed.0 [
        | err e ↦ (err e, formed.1)
        | ok u ↦ elim saved.0 [
          | err e ↦ (err (wrap "save matrix" e), saved.1)
          | ok v ↦ (ok mx, saved.1)
        ]
      ]

  abbrev pub prepare : String → String → List MatrixMember → Action (System S M N W) (Unit {0})
  prepare name team members =
      check_matrix_quota team members
      >> wrapping "create matrix network"
          (on_world (λ w. c.runtime.create_network (network_name name) Bool.true w))

  unfoldable pub create_matrix :
      String → String → List MatrixMember → Action (System S M N W) Matrix
  unfolding form_members
  create_matrix name team members σ = elim c.matrices [
    | none ↦ (err unconfigured, σ)
    | some st ↦
        let ready = prepare name team members σ in
        if is_ok (st.get name σ.matrices)
        then (err (quoted "matrix already exists" name), σ)
        else elim ready.0 [
          | err e ↦ (err e, ready.1)
          | ok u ↦ form_and_save st name team members ready.1
        ]
  ]
