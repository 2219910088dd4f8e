-- ===== src/Server/Audited.antt =====
-- What the middleware leaves in the audit log.
use sandboxmatrix.Base.{String, ◌≡◌, Option, some}
use sandboxmatrix.Base.Dict.{Dict}
use sandboxmatrix.Base.Action.{Result}
use sandboxmatrix.Api.{User}
use sandboxmatrix.Auth.Audit.{AuditLog, record_entry}
use sandboxmatrix.Server.{UserClaims, Request, Outcome, passed, refused, Env, audit_entry}

abbrev pub verdict : Outcome → String
verdict (passed claims user) = "success"
verdict (refused status text) = "denied"

module _ (e : Env) (users : Dict User) (jwt : Option (String → Result UserClaims)) (r : Request)
    (log : AuditLog) where
  -- One entry is recorded, with the verdict on the request.
  abbrev pub Audited : Outcome × Option AuditLog → Type 0
  Audited o =
      (user : String) × (detail : String) × (o.1
        ≡ some (record_entry e.marshal e.now (audit_entry e r user (verdict o.0) detail) log))
