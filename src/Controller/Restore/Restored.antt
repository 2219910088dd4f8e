-- ===== src/Controller/Restore/Restored.antt =====
-- What a Restore that succeeds has done.
use mathlib.Core.Path.{subst}
use sandboxmatrix.Base.Int.{pos}
use sandboxmatrix.Base.{String, ◌≡◌, sym, ap, ◌∙◌, inl, inr, false, arith, str_eq, eq_refl}
use sandboxmatrix.Base.Action.{Error, ok, err, Result-cases}
use sandboxmatrix.Api.{Sandbox, running, SandboxSpec}
use sandboxmatrix.State.{StoreLaws}
use sandboxmatrix.Runtime.{CreateConfig}
use sandboxmatrix.Controller.{System, Controller, save}
use sandboxmatrix.Controller.Lifecycle.{name_of}
use sandboxmatrix.Controller.Create.{Host}
use sandboxmatrix.Controller.Create.Run.{start_and_track}
use sandboxmatrix.Controller.Create.Frame.{Keeps, Keeps-save, Keeps-start_and_track}
use sandboxmatrix.Controller.Restore.{
  restored_sandbox, restore_config, track_restored, restore_with, restore,
}

module _ {S M N W B : Type 0} (c : Controller S M N W) (h : Host W B) where
  start_keeps_spec :
      (id : String) (sb sb1 : Sandbox) (σ : System S M N W)
      → (start_and_track c h id sb σ).0 ≡ ok sb1
      → (name_of sb1 ≡ name_of sb) × (sb1.status.state ≡ running) × (sb1.spec ≡ sb.spec)
  unfolding start_and_track
  start_keeps_spec id sb sb1 σ q = elim (Result-cases (c.runtime.start id σ.world).0) [
    | inl (u, e) ↦ (ground arith, ground arith, ground arith)
    | inr (x, e) ↦ absurd (ground arith)
  ]

module _ {S M N W B : Type 0} (c : Controller S M N W) (h : Host W B)
    (laws : StoreLaws c.store name_of) where
  -- The sandbox is stored under its name, running, with the specification given.
  abbrev pub RunsWith : String → SandboxSpec → Sandbox → System S M N W → Type 0
  RunsWith n spec sb σ =
      (sb.status.state ≡ running) × (sb.spec ≡ spec) × (c.store.get n σ.sandboxes ≡ ok sb)

  track_restored-RunsWith :
      (id : String) (sb out : Sandbox) (σ : System S M N W)
      → (track_restored c h id sb σ).0 ≡ ok out
      → RunsWith (name_of sb) sb.spec out (track_restored c h id sb σ).1
        × ((k : String)
            → str_eq (name_of sb) k ≡ false
            → Keeps c k σ (track_restored c h id sb σ).1)
  track_restored-RunsWith id sb out σ q =
      let a = start_and_track c h id sb σ in
      elim (Result-cases a.0) [
        | inr (x, e) ↦ absurd (ground arith)
        | inl (sb1, e) ↦
            let (n, r, s) = start_keeps_spec c h id sb sb1 σ e in
            elim (Result-cases (c.store.save sb1 a.1.sandboxes).0) [
              | inr (x, f) ↦ absurd (ground arith)
              | inl (u, f) ↦
                  let same : sb1 ≡ out = ground arith in
                  let stored : c.store.get (name_of sb1) (save c sb1 a.1).1.sandboxes ≡ ok sb1 =
                    ground (
                      arith,
                      laws.get-save sb1 a.1.sandboxes (name_of sb1) f,
                      eq_refl (name_of sb1),
                    ) in
                  let τ = (save c sb1 a.1).1 in
                  let end' : (track_restored c h id sb σ).1 ≡ τ = ground arith in
                  let there : c.store.get (name_of sb) τ.sandboxes ≡ ok sb1 =
                    ap (λ m. c.store.get m τ.sandboxes) (sym n) ∙ stored in
                  (
                    subst
                        (λ (x : Sandbox).
                          RunsWith (name_of sb) sb.spec x (track_restored c h id sb σ).1)
                        same
                        (subst (λ (s : System S M N W). RunsWith (name_of sb) sb.spec sb1 s)
                          (sym end') (r, s, there)),
                    λ k ne.
                        ap (λ (s : System S M N W). c.store.get k s.sandboxes) end'
                        ∙ Keeps-save c h laws k sb1 a.1 (ap (λ m. str_eq m k) n ∙ ne)
                        ∙ Keeps-start_and_track c h laws k id sb σ ne,
                  )
            ]
      ]

  restore_with-RunsWith :
      (cfg : CreateConfig) (snapshot_id : String) (sb out : Sandbox) (σ : System S M N W)
      → (restore_with c h cfg snapshot_id sb σ).0 ≡ ok out
      → RunsWith (name_of sb) sb.spec out (restore_with c h cfg snapshot_id sb σ).1
        × ((k : String)
            → str_eq (name_of sb) k ≡ false
            → Keeps c k σ (restore_with c h cfg snapshot_id sb σ).1)
  restore_with-RunsWith cfg snapshot_id sb out σ q =
      let saved = save c sb σ in
      let made = c.runtime.restore snapshot_id cfg saved.1.world in
      let σ1 = record saved.1 { world = made.1 } in
      elim (Result-cases (c.store.save sb σ.sandboxes).0) [
        | inr (x, e) ↦ absurd (ground arith)
        | inl (u, e) ↦ elim (Result-cases made.0) [
          | inr (x, f) ↦ absurd (ground arith)
          | inl (id, f) ↦
              let after : restore_with c h cfg snapshot_id sb σ ≡ track_restored c h id sb σ1 =
                ground arith in
              let (r, keeps) =
                track_restored-RunsWith id sb out σ1 (ap (λ r. r.0) (sym after) ∙ q) in
              (
                subst (λ (s : System S M N W). RunsWith (name_of sb) sb.spec out s)
                    (ap (λ r. r.1) (sym after)) r,
                λ k ne.
                    ap (λ r. c.store.get k r.1.sandboxes) after
                    ∙ keeps k ne
                    ∙ Keeps-save c h laws k sb σ ne,
              )
        ]
      ]

  -- Over a store that keeps the store laws, a Restore that succeeds found the source and nothing
  -- under the new name, and leaves the new name with the returned sandbox, running, with the
  -- blueprint, the resources and the workspace of the source, but no team and the priority 0, and
  -- what the store shows under any other name as it was.
  pub restore_succeeds :
      (name snapshot_id new_name : String) (sb : Sandbox) (σ : System S M N W) (k : String)
      → (restore c h name snapshot_id new_name σ).0 ≡ ok sb
      → str_eq new_name k ≡ false
      → (source : Sandbox) × (c.store.get name σ.sandboxes ≡ ok source)
        × ((x : Error) × (c.store.get new_name σ.sandboxes ≡ err x))
        × RunsWith new_name
            (record source.spec { team = ""; priority = pos 0 })
            sb
            (restore c h name snapshot_id new_name σ).1
        × Keeps c k σ (restore c h name snapshot_id new_name σ).1
  unfolding restore
  restore_succeeds name snapshot_id new_name sb σ k q ne =
      elim (Result-cases (c.store.get name σ.sandboxes)) [
        | inr (x, e) ↦ absurd (ground arith)
        | inl (source, e) ↦ elim (Result-cases (c.store.get new_name σ.sandboxes)) [
          | inl (old, f) ↦ absurd (ground arith)
          | inr (x, f) ↦
              let cfg = restore_config c h source new_name snapshot_id σ.world in
              let new = restored_sandbox source name new_name (c.clock σ.world) in
              let after : restore c h name snapshot_id new_name σ
                  ≡ restore_with c h cfg snapshot_id new σ =
                ground arith in
              let (r, keeps) =
                restore_with-RunsWith cfg snapshot_id new sb σ (ap (λ r. r.0) (sym after) ∙ q) in
              (
                source,
                e,
                (x, f),
                subst (λ (s : System S M N W). RunsWith new_name new.spec sb s)
                    (ap (λ r. r.1) (sym after)) r,
                ap (λ r. c.store.get k r.1.sandboxes) after ∙ keeps k ne,
              )
        ]
      ]
