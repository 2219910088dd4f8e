-- ===== src/Controller/Create/Succeeds.antt =====
-- What a Create that succeeds has done.
use mathlib.Core.Path.{subst}
use sandboxmatrix.Base.{
  String, ◌≡◌, refl, sym, ◌∙◌, ap, inl, inr, true, Option, none, some, [], arith, eq_refl,
  Bool-cases,
}
use sandboxmatrix.Base.Action.{Error, ok, err, Result-cases}
use sandboxmatrix.Api.{Blueprint, Sandbox, ProbeConfig, running}
use sandboxmatrix.State.{StoreLaws}
use sandboxmatrix.Runtime.{CreateConfig}
use sandboxmatrix.Blueprint.{validate_file}
use sandboxmatrix.Blueprint.Check.{IsWellFormed}
use sandboxmatrix.Blueprint.Accepted.{validate_file_accepts}
use sandboxmatrix.Controller.{System, Controller, save, is_active}
use sandboxmatrix.Controller.Lifecycle.{name_of}
use sandboxmatrix.Controller.Create.{CreateOptions, Host, new_sandbox}
use sandboxmatrix.Controller.Create.Run.{
  check_quota, workspace_refused, create_config, start_and_track, run_setup, run_probe, steps_of,
  after_create, deploy, create_with, create,
}

module _ {S M N W : Type 0} (c : Controller S M N W) where
  -- The record is stored, active, and has the name.
  abbrev pub Deployed : String → Sandbox → System S M N W → Type 0
  Deployed n sb σ =
      (name_of sb ≡ n) × (is_active sb.status.state ≡ true) × (c.store.get n σ.sandboxes ≡ ok sb)

module _ {S M N W B : Type 0} (c : Controller S M N W) (h : Host W B) where
  pub start_and_track_ok :
      (id : String) (sb sb1 : Sandbox) (σ : System S M N W)
      → (start_and_track c h id sb σ).0 ≡ ok sb1
      → (name_of sb1 ≡ name_of sb) × (sb1.status.state ≡ running)
  unfolding start_and_track
  start_and_track_ok id sb sb1 σ q = elim (Result-cases (c.runtime.start id σ.world).0) [
    | inl (u, e) ↦ (ground arith, ground arith)
    | inr (x, e) ↦ absurd (ground arith)
  ]

  pub run_probe_ok :
      (id : String) (sb sb2 : Sandbox) (p : Option ProbeConfig) (σ : System S M N W)
      → sb.status.state ≡ running
      → (run_probe c h id sb p σ).0 ≡ ok sb2
      → (name_of sb2 ≡ name_of sb) × (is_active sb2.status.state ≡ true)
  unfolding run_probe
  run_probe_ok id sb sb2 none σ r q = (ground arith, ground arith)
  run_probe_ok id sb sb2 (some p) σ r q =
      elim (Result-cases (h.wait_for_ready id sb.status.ip p (save c sb σ).1.world).0) [
        | inl (u, e) ↦ (ground arith, ground arith)
        | inr (x, e) ↦ absurd (ground arith)
      ]

module _ {S M N W B : Type 0} (c : Controller S M N W) (h : Host W B)
    (laws : StoreLaws c.store name_of) where
  after_create_ok :
      (bp : Blueprint) (cached : Option String) (sb sb2 : Sandbox) (id : String)
      (σ : System S M N W)
      → (after_create c h bp cached sb id σ).0 ≡ ok sb2
      → Deployed c (name_of sb) sb2 (after_create c h bp cached sb id σ).1
  after_create_ok bp cached sb sb2 id σ q =
      let a = start_and_track c h id sb σ in
      elim (Result-cases a.0) [
        | inr (x, e) ↦ absurd (ground arith)
        | inl (sb1, e) ↦
            let (n1, r1) = start_and_track_ok c h id sb sb1 σ e in
            let b = run_setup c h id sb1 (steps_of c h cached bp.spec.setup) a.1 in
            elim (Result-cases b.0) [
              | inr (x, f) ↦ absurd (ground arith)
              | inl (u, f) ↦
                  let d = run_probe c h id sb1 bp.spec.readiness_probe b.1 in
                  elim (Result-cases d.0) [
                    | inr (x, g) ↦ absurd (ground arith)
                    | inl (last, g) ↦
                        let (n2, r2) =
                          run_probe_ok c h id sb1 last bp.spec.readiness_probe b.1 r1 g in
                        elim (Result-cases (c.store.save last d.1.sandboxes).0) [
                          | inr (x, k) ↦ absurd (ground arith)
                          | inl (v, k) ↦
                              let same : last ≡ sb2 = ground arith in
                              let n : name_of last ≡ name_of sb = n2 ∙ n1 in
                              let out : (after_create c h bp cached sb id σ).1.sandboxes
                                  ≡ (c.store.save last d.1.sandboxes).1 =
                                rw (e, f, g, k) refl in
                              let stored : c.store.get (name_of last)
                                    (c.store.save last d.1.sandboxes).1
                                  ≡ ok last =
                                ground (
                                  arith,
                                  laws.get-save last d.1.sandboxes (name_of last),
                                  eq_refl (name_of last),
                                ) in
                              subst
                                (λ (x : Sandbox).
                                  Deployed c (name_of sb) x (after_create c h bp cached sb id σ).1)
                                same
                                (
                                  n,
                                  r2,
                                  ap (c.store.get (name_of sb)) out
                                      ∙ ap
                                          (λ (m : String).
                                            c.store.get m (c.store.save last d.1.sandboxes).1)
                                          (sym n)
                                      ∙ stored,
                                )
                        ]
                  ]
            ]
      ]

  deploy_ok :
      (cfg : CreateConfig) (bp : Blueprint) (cached : Option String) (sb sb2 : Sandbox)
      (σ : System S M N W)
      → (deploy c h cfg bp cached sb σ).0 ≡ ok sb2
      → Deployed c (name_of sb) sb2 (deploy c h cfg bp cached sb σ).1
  unfolding deploy
  deploy_ok cfg bp cached sb sb2 σ q = elim (Result-cases (c.runtime.create cfg σ.world).0) [
    | inl (id, e) ↦
        let σ1 : System S M N W = record σ { world = (c.runtime.create cfg σ.world).1 } in
        let all : deploy c h cfg bp cached sb σ ≡ after_create c h bp cached sb id σ1 =
          rw (e, deploy) in
        rw all (after_create_ok bp cached sb sb2 id σ1 (rw all at q))
    | inr (x, e) ↦ absurd (ground arith)
  ]

  create_with_ok :
      (o : CreateOptions) (bp : Blueprint) (sb : Sandbox) (σ : System S M N W)
      → (create_with c h o bp σ).0 ≡ ok sb
      → Deployed c o.name sb (create_with c h o bp σ).1
  unfolding create_with
  create_with_ok o bp sb σ q =
      let a = check_quota c h o.team bp σ in
      elim (Result-cases a.0) [
        | inr (x, e) ↦ absurd (ground arith)
        | inl (u, e) ↦ elim (Bool-cases (workspace_refused c h o.workspace_dir)) [
          | inl bad ↦ absurd (ground arith)
          | inr good ↦
              let new = new_sandbox o bp (c.clock a.1.world) in
              elim (Result-cases (c.store.save new a.1.sandboxes).0) [
                | inr (x, f) ↦ absurd (ground arith)
                | inl (v, f) ↦
                    let cached = h.cached_image a.1.world bp in
                    let cfg = create_config c h o bp a.1 in
                    let all : create_with c h o bp σ
                        ≡ deploy c h cfg bp cached new (save c new a.1).1 =
                      rw (e, good, f, create_with) in
                    rw all (deploy_ok cfg bp cached new sb (save c new a.1).1 (rw all at q))
              ]
        ]
      ]

  -- Over a store that keeps the store laws, a Create that succeeds found no sandbox of the name
  -- and a blueprint that is well formed; the record that it returns has the name, is running or
  -- ready, and is what the store now shows under the name.
  pub create_succeeds :
      (o : CreateOptions) (sb : Sandbox) (σ : System S M N W)
      → (create c h o σ).0 ≡ ok sb
      → ((x : Error) × (c.store.get o.name σ.sandboxes ≡ err x))
        × ((bp : Blueprint) × ((validate_file h.files o.blueprint_path).0 ≡ ok bp)
            × IsWellFormed bp)
        × Deployed c o.name sb (create c h o σ).1
  unfolding create
  create_succeeds o sb σ q = elim (Result-cases (c.store.get o.name σ.sandboxes)) [
    | inl (old, e) ↦ absurd (ground arith)
    | inr (x, e) ↦
        let quiet : (validate_file h.files o.blueprint_path).1 ≡ [] = ground arith in
        let (bp, returned, well, _, _, _) = validate_file_accepts h.files o.blueprint_path quiet in
        let all : create c h o σ ≡ create_with c h o bp σ = ground (arith, quiet, returned) in
        ((x, e), (bp, returned, well), rw all (create_with_ok o bp sb σ (rw all at q)))
  ]
