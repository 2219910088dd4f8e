-- ===== src/Controller/Reconcile/Tracking.antt =====
-- What Reconcile leaves in the sandbox store.
use sandboxmatrix.Base.{
  String, ◌≡◌, refl, ◌∙◌, ◌≢◌, true, List, [], ◌∷◌, arith, str_eq, eq_iff, eq_refl, inl, inr,
  Bool-cases,
}
use sandboxmatrix.Base.Action.{ok, is_ok, Result-cases}
use sandboxmatrix.Api.{Sandbox}
use sandboxmatrix.State.{StoreLaws}
use sandboxmatrix.Runtime.{Info}
use sandboxmatrix.Controller.{System, Controller}
use sandboxmatrix.Controller.Lifecycle.{name_of}
use sandboxmatrix.Controller.Reconcile.{label_of, recovered, track, track_all, reconcile}

module _ {S M N W : Type 0} (c : Controller S M N W) where
  -- The store has a record under the name.
  abbrev pub IsKnown : String → System S M N W → Type 0
  IsKnown k σ = is_ok (c.store.get k σ.sandboxes) ≡ true

  -- Each container with a label has a record.
  abbrev pub AllKnown : List Info → System S M N W → Type 0
  AllKnown [] σ = Unit {0}
  AllKnown (info ∷ infos) σ = (label_of info ≢ "" → IsKnown (label_of info) σ) × AllKnown infos σ

  -- No record of `σ` is lost or changed in `σ'`.
  abbrev pub Extends : System S M N W → System S M N W → Type 0
  Extends σ σ' =
      (k : String) (sb : Sandbox)
      → c.store.get k σ.sandboxes ≡ ok sb
      → c.store.get k σ'.sandboxes ≡ ok sb

  Extends-IsKnown : (k : String) (σ σ' : System S M N W) → Extends σ σ' → IsKnown k σ → IsKnown k σ'
  Extends-IsKnown k σ σ' ext h = elim (Result-cases (c.store.get k σ.sandboxes)) [
    | inl (sb, e) ↦ ground (arith, ext k sb e)
    | inr (x, e) ↦ absurd (ground arith)
  ]

  track_known :
      (info : Info) (σ : System S M N W)
      → (label_of info ≢ "" → IsKnown (label_of info) σ)
      → track c info σ ≡ (ok tt, σ)
  unfolding track
  track_known info σ h = elim (Bool-cases (str_eq (label_of info) "")) [
    | inl e ↦ rw e
    | inr n ↦
        let k : IsKnown (label_of info) σ = h (λ e. ground (arith, eq_iff (label_of info) "")) in
        rw (n, k)
  ]

  track_all_known :
      (infos : List Info) (σ : System S M N W) → AllKnown infos σ → track_all c infos σ ≡ (ok tt, σ)
  unfolding track_all
  track_all_known [] σ h = refl
  track_all_known (info ∷ infos) σ h = rw (track_known info σ h.0) (track_all_known infos σ h.1)

  reconcile_lem :
      (σ : System S M N W) (infos : List Info) (w : W)
      → c.runtime.list σ.world ≡ (ok infos, w)
      → reconcile c σ ≡ track_all c infos (record σ { world = w })
  unfolding reconcile
  reconcile_lem σ infos w l = rw (l, reconcile)

module _ {S M N W : Type 0} (c : Controller S M N W) (laws : StoreLaws c.store name_of) where
  track_lem :
      (info : Info) (σ : System S M N W)
      → Extends c σ (track c info σ).1
        × ((track c info σ).1.world ≡ σ.world)
        × ((track c info σ).0 ≡ ok tt
            → label_of info ≢ ""
            → IsKnown c (label_of info) (track c info σ).1)
  unfolding track
  track_lem info σ =
      let new = recovered info (c.clock σ.world) in
      (
        λ k sb h. elim (Result-cases (c.store.save new σ.sandboxes).0) [
          | inl (u, e) ↦ ground (arith, laws.get-save new σ.sandboxes k, eq_iff (label_of info) k)
          | inr (x, e) ↦ ground (arith, laws.save_fails new σ.sandboxes k x)
        ],
        ground arith,
        λ h n. ground (
          arith,
          laws.get-save new σ.sandboxes (label_of info),
          eq_refl (label_of info),
          eq_iff (label_of info) "",
        ),
      )

  track_all_lem :
      (infos : List Info) (σ : System S M N W)
      → Extends c σ (track_all c infos σ).1
        × ((track_all c infos σ).1.world ≡ σ.world)
        × ((track_all c infos σ).0 ≡ ok tt → AllKnown c infos (track_all c infos σ).1)
  unfolding track_all
  track_all_lem [] σ = ((λ k sb h. h), refl, λ h. tt)
  track_all_lem (info ∷ infos) σ = elim (Result-cases (track c info σ).0) [
    | inl (u, e) ↦
        let (ext, world, known) = track_lem info σ in
        let σ1 = (track c info σ).1 in
        let (ext', world', known') = track_all_lem infos σ1 in
        rw e (
          (λ k sb h. ext' k sb (ext k sb h)),
          world' ∙ world,
          λ h. (
            (λ n. Extends-IsKnown c (label_of info) σ1 (track_all c infos σ1).1 ext' (known e n)),
            known' h,
          ),
        )
    | inr (x, e) ↦ let (ext, world, known) = track_lem info σ in rw e (ext, world, λ h. cc)
  ]

  -- Over a store that keeps the store laws, a Reconcile that succeeds loses and changes no
  -- record; each container of the runtime's list that has a sandbox label has a record under it;
  -- and if the runtime then lists the same containers, a second Reconcile succeeds and saves
  -- nothing.
  pub reconcile_tracks :
      (σ : System S M N W) (infos : List Info) (w : W)
      → c.runtime.list σ.world ≡ (ok infos, w)
      → (reconcile c σ).0 ≡ ok tt
      → let σ' = (reconcile c σ).1 in
        Extends c σ σ'
        × AllKnown c infos σ'
        × (c.runtime.list w ≡ (ok infos, w) → reconcile c σ' ≡ (ok tt, σ'))
  reconcile_tracks σ infos w l h =
      let first = reconcile_lem c σ infos w l in
      let (ext, world, known) = track_all_lem infos (record σ { world = w }) in
      let last : System S M N W = (track_all c infos (record σ { world = w })).1 in
      let all = known (rw first at h) in
      rw first (
        ext,
        all,
        λ again.
            reconcile_lem c last infos last.world (rw world again)
            ∙ track_all_known c infos last all,
      )
