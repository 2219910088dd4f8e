-- ===== src/Controller/Create/Reaches.antt =====
-- The states that a sandbox passes through while it is created, whichever step fails.
use mathlib.Core.Path.{subst}
use sandboxmatrix.Base.{
  String, ◌≡◌, refl, ◌∙◌, ap, inl, inr, Option, none, some, List, [], ◌∷◌, arith, str_eq, eq_refl,
  Bool-cases, Option-cases,
}
use sandboxmatrix.Base.Action.{◌>>◌, Error, Result, ok, err, Result-cases}
use sandboxmatrix.Api.{Blueprint, Sandbox, SetupStep, ProbeConfig, creating, running}
use sandboxmatrix.State.{StoreLaws}
use sandboxmatrix.Runtime.{CreateConfig}
use sandboxmatrix.Blueprint.{validate_file}
use sandboxmatrix.Controller.{System, Controller, save, wrapping}
use sandboxmatrix.Controller.Lifecycle.{name_of}
use sandboxmatrix.Controller.Lifecycle.States.{allowed, Reach, here, shown, state_of}
use sandboxmatrix.Controller.Create.{CreateOptions, Host, new_sandbox, failed, ready_at}
use sandboxmatrix.Controller.Create.Run.{
  create_from, check_quota, workspace_refused, create_config, sh_command, step_error, probe_failed,
  give_up, start_and_track, run_setup, run_probe, steps_of, after_create, deploy, create_with,
  create,
}
use sandboxmatrix.Controller.Create.Flight.{
  Reach-Moves, Follows, Follows-running, Follows-ready, Follows-error, Since, InFlight, Moves-save,
  Since-save, InFlight-save,
}

module _ {S M N W B : Type 0} (c : Controller S M N W) (h : Host W B)
    (laws : StoreLaws c.store name_of) where
  Since-start_and_track :
      (id : String) (sb : Sandbox) (σ0 σ : System S M N W)
      → InFlight c (name_of sb) σ
      → Since c σ0 σ
      → Since c σ0 (start_and_track c h id sb σ).1
        × ((sb1 : Sandbox)
            → (start_and_track c h id sb σ).0 ≡ ok sb1
            → (name_of sb1 ≡ name_of sb)
              × (sb1.status.state ≡ running)
              × InFlight c (name_of sb) (start_and_track c h id sb σ).1)
  unfolding start_and_track give_up
  Since-start_and_track id sb σ0 σ i since = elim (Result-cases (c.runtime.start id σ.world).0) [
    | inl (u, e) ↦ rw (e, start_and_track) (since, λ sb1 q. (ground arith, ground arith, i))
    | inr (x, e) ↦
        let new = failed sb (h.text_of x) in
        rw (e, start_and_track, give_up)
          (Since-save c laws new σ0 σ Follows-error i since, λ sb1 q. cc)
  ]

  Since-run_setup :
      (id : String) (sb : Sandbox) (steps : List SetupStep) (σ0 σ : System S M N W)
      → InFlight c (name_of sb) σ
      → Since c σ0 σ
      → Since c σ0 (run_setup c h id sb steps σ).1
        × ((run_setup c h id sb steps σ).0 ≡ ok tt
            → InFlight c (name_of sb) (run_setup c h id sb steps σ).1)
  unfolding run_setup give_up
  Since-run_setup id sb [] σ0 σ i since = (since, λ q. i)
  Since-run_setup id sb (step ∷ steps) σ0 σ i since =
      let r = c.runtime.exec id (sh_command c h step) σ.world in
      elim (Option-cases (step_error c h step r.0)) [
        | inl e ↦
            rw (e, run_setup) (Since-run_setup id sb steps σ0 (record σ { world = r.1 }) i since)
        | inr (x, e) ↦
            rw (e, run_setup, give_up)
              (Since-save c laws (failed sb (h.text_of x)) σ0 σ Follows-error i since, λ q. cc)
      ]

  Since-run_probe :
      (id : String) (sb : Sandbox) (p : Option ProbeConfig) (σ0 σ : System S M N W)
      → sb.status.state ≡ running
      → InFlight c (name_of sb) σ
      → Since c σ0 σ
      → Since c σ0 (run_probe c h id sb p σ).1
        × ((sb2 : Sandbox)
            → (run_probe c h id sb p σ).0 ≡ ok sb2
            → Follows sb2.status.state × InFlight c (name_of sb2) (run_probe c h id sb p σ).1)
  unfolding run_probe give_up
  Since-run_probe id sb none σ0 σ r i since = (
    since,
    λ sb2 q.
        let e : sb ≡ sb2 = ground arith in
        subst (λ (x : Sandbox). Follows x.status.state × InFlight c (name_of x) σ) e
          (rw r Follows-running, i),
  )
  Since-run_probe id sb (some p) σ0 σ r i since =
      let σ1 = (save c sb σ).1 in
      let since1 = Since-save c laws sb σ0 σ (rw r Follows-running) i since in
      let i1 = InFlight-save c laws sb σ r i in
      let w1 = (h.wait_for_ready id sb.status.ip p σ1.world).1 in
      elim (Result-cases (h.wait_for_ready id sb.status.ip p σ1.world).0) [
        | inl (u, e) ↦
            rw (e, run_probe)
              (
                since1,
                λ sb2 q.
                    let f : ready_at sb (c.clock w1) ≡ sb2 = ground arith in
                    subst (λ (x : Sandbox). Follows x.status.state × InFlight c (name_of x) σ1) f
                      (Follows-ready, i1),
              )
        | inr (x, e) ↦
            rw (e, run_probe, give_up)
              (
                Since-save c laws (probe_failed c h sb x) σ0 (record σ1 { world = w1 })
                    Follows-error i1 since1,
                λ sb2 q. cc,
              )
      ]

  Since-after_create :
      (bp : Blueprint) (cached : Option String) (sb : Sandbox) (id : String) (σ0 σ : System S M N W)
      → InFlight c (name_of sb) σ
      → Since c σ0 σ
      → Since c σ0 (after_create c h bp cached sb id σ).1
  Since-after_create bp cached sb id σ0 σ i since =
      let (since1, done1) = Since-start_and_track id sb σ0 σ i since in
      let a = start_and_track c h id sb σ in
      elim (Result-cases a.0) [
        | inr (x, e) ↦ rw e since1
        | inl (sb1, e) ↦
            let (n1, r1, i1) = done1 sb1 e in
            let steps = steps_of c h cached bp.spec.setup in
            let j1 : InFlight c (name_of sb1) a.1 = rw n1 i1 in
            let (since2, done2) = Since-run_setup id sb1 steps σ0 a.1 j1 since1 in
            let b = run_setup c h id sb1 steps a.1 in
            elim (Result-cases b.0) [
              | inr (x, f) ↦ rw (e, f) since2
              | inl (u, f) ↦
                  let (since3, done3) =
                    Since-run_probe id sb1 bp.spec.readiness_probe σ0 b.1 r1 (done2 f) since2 in
                  let d = run_probe c h id sb1 bp.spec.readiness_probe b.1 in
                  elim (Result-cases d.0) [
                    | inr (x, g) ↦ rw (e, f, g) since3
                    | inl (sb2, g) ↦
                        let (follows, i3) = done3 sb2 g in
                        let since4 = Since-save c laws sb2 σ0 d.1 follows i3 since3 in
                        elim (Result-cases (c.store.save sb2 d.1.sandboxes).0) [
                          | inl (v, k) ↦ rw (e, f, g, k) since4
                          | inr (x, k) ↦ rw (e, f, g, k) since4
                        ]
                  ]
            ]
      ]

  Since-deploy :
      (cfg : CreateConfig) (bp : Blueprint) (cached : Option String) (sb : Sandbox)
      (σ0 σ : System S M N W)
      → InFlight c (name_of sb) σ
      → Since c σ0 σ
      → Since c σ0 (deploy c h cfg bp cached sb σ).1
  unfolding deploy give_up
  Since-deploy cfg bp cached sb σ0 σ i since =
      let w = (c.runtime.create cfg σ.world).1 in
      elim (Result-cases (c.runtime.create cfg σ.world).0) [
        | inl (id, e) ↦
            rw (e, deploy) (Since-after_create bp cached sb id σ0 (record σ { world = w }) i since)
        | inr (x, e) ↦
            rw (e, deploy, give_up)
              (Since-save c laws (failed sb (h.text_of x)) σ0 σ Follows-error i since)
      ]

  -- Saving the new record and what follows it.
  Since-save_new :
      (cfg : CreateConfig) (bp : Blueprint) (cached : Option String) (sb : Sandbox)
      (σ : System S M N W)
      → sb.status.state ≡ creating
      → state_of c (name_of sb) σ ≡ none
      → Since c σ ((wrapping "save state" (save c sb) >> deploy c h cfg bp cached sb) σ).1
  unfolding allowed
  Since-save_new cfg bp cached sb σ new gone = elim (Result-cases (c.store.save sb σ.sandboxes).0) [
    | inr (x, e) ↦ rw e (λ k. rw (ap shown (laws.save_fails sb σ.sandboxes k x e)) here)
    | inl (u, e) ↦
        let g : c.store.get (name_of sb) (save c sb σ).1.sandboxes ≡ ok sb =
          ground (arith, laws.get-save sb σ.sandboxes (name_of sb) e, eq_refl (name_of sb)) in
        let begun : Since c σ (save c sb σ).1 =
          λ k. Reach-Moves here (Moves-save c laws sb σ k (inr (rw (gone, new) refl))) in
        rw e
          (Since-deploy cfg bp cached sb σ (save c sb σ).1 (inl (ap shown g ∙ ap some new)) begun)
  ]

  pub sandboxes-check_quota :
      (team : String) (bp : Blueprint) (σ : System S M N W)
      → (check_quota c h team bp σ).1.sandboxes ≡ σ.sandboxes
  unfolding check_quota
  sandboxes-check_quota team bp σ = elim (Option-cases h.check_quota) [
    | inl e ↦ rw (e, check_quota)
    | inr (check, e) ↦ elim (Bool-cases (str_eq team "")) [
      | inl none_given ↦ rw (e, none_given, check_quota)
      | inr given ↦ rw (e, given, check_quota)
    ]
  ]

  Since-same : (σ σ1 τ : System S M N W) → σ1.sandboxes ≡ σ.sandboxes → Since c σ1 τ → Since c σ τ
  Since-same σ σ1 τ same since k =
      subst (λ (s : S). Reach (shown (c.store.get k s)) (state_of c k τ)) same (since k)

  Since-create_with :
      (o : CreateOptions) (bp : Blueprint) (σ : System S M N W)
      → state_of c o.name σ ≡ none
      → Since c σ (create_with c h o bp σ).1
  unfolding create_with
  Since-create_with o bp σ gone =
      let q = check_quota c h o.team bp σ in
      let same = sandboxes-check_quota o.team bp σ in
      let gone1 : state_of c o.name q.1 ≡ none =
        ap (λ (s : S). shown (c.store.get o.name s)) same ∙ gone in
      elim (Result-cases q.0) [
        | inr (x, e) ↦ rw (e, create_with) (Since-same σ q.1 q.1 same (λ k. here))
        | inl (u, e) ↦ elim (Bool-cases (workspace_refused c h o.workspace_dir)) [
          | inl bad ↦ rw (e, bad, create_with) (Since-same σ q.1 q.1 same (λ k. here))
          | inr good ↦
              let new = new_sandbox o bp (c.clock q.1.world) in
              let cached = h.cached_image q.1.world bp in
              let rest =
                wrapping "save state" (save c new)
                >> deploy c h (create_config c h o bp q.1) bp cached new in
              rw (e, good, create_with)
                (Since-same σ q.1 (rest q.1).1 same
                  (Since-save_new (create_config c h o bp q.1) bp cached new q.1 refl gone1))
        ]
      ]

  Since-create_from :
      (o : CreateOptions) (r : Result Blueprint × List Error) (σ : System S M N W)
      → state_of c o.name σ ≡ none
      → Since c σ (create_from c h o r σ).1
  Since-create_from o (r, e ∷ es) σ gone = λ k. here
  Since-create_from o (err e, []) σ gone = λ k. here
  Since-create_from o (ok bp, []) σ gone = Since-create_with o bp σ gone

  -- Over a store that keeps the store laws, a Create, whichever of its steps fails and whichever
  -- of its saves is lost, takes every sandbox through allowed changes of state only.
  pub create_reaches :
      (o : CreateOptions) (σ : System S M N W) (k : String)
      → Reach (state_of c k σ) (state_of c k (create c h o σ).1)
  unfolding create
  create_reaches o σ k = elim (Result-cases (c.store.get o.name σ.sandboxes)) [
    | inl (sb, e) ↦ rw (e, create) here
    | inr (x, e) ↦
        rw (e, create)
          (Since-create_from o (validate_file h.files o.blueprint_path) σ (ap shown e) k)
  ]
