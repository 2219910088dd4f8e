-- ===== src/Pool/Manager/Fill.antt =====
-- fillPool on a runtime that works, and on one that keeps failing.
use sandboxmatrix.Base.{
  ◌∙◌, ℕ, zero, suc, ◌+◌, ◌-◌, ◌≤◌, ◌<◌, String, ◌≡◌, refl, ◌⊎◌, inl, inr, false, none, some, ap,
  [], ◌∷◌, arith, length, length-append, Option-cases,
}
use sandboxmatrix.Base.Dict.{lookup, insert, lookup-insert_self}
use sandboxmatrix.Base.Action.{Error, wrap, ok, err}
use sandboxmatrix.Runtime.{CreateConfig}
use sandboxmatrix.Pool.{BlueprintPool, begin_fill, end_fill, count_created}
use sandboxmatrix.Pool.Manager.{
  Pool, Env, change, create_config, create_warm_container, fill_round, fill_pool,
}

-- The pool wants no more containers, or may have no more.
abbrev pub IsFilled : BlueprintPool → Type 0
IsFilled bp =
    (bp.min_ready ≤ length bp.ready + bp.creating)
    ⊎ ((0 < bp.max_size) × (bp.max_size ≤ length bp.ready + bp.in_use + bp.creating))

begin_fill-IsFilled : (bp : BlueprintPool) → begin_fill bp ≡ none → IsFilled bp
unfolding begin_fill
begin_fill-IsFilled bp h = ground arith

begin_fill-some :
    (bp bp' : BlueprintPool)
    → begin_fill bp ≡ some bp'
    → (bp' ≡ record bp { creating = bp.creating + 1 })
      × (length bp.ready + bp.creating < bp.min_ready)
unfolding begin_fill
begin_fill-some bp bp' h = (ground arith, ground arith)

change_lem :
    {W : Type 0} (path : String) (f : BlueprintPool → BlueprintPool) (p : Pool W)
    (bp : BlueprintPool)
    → lookup path p.pools ≡ some bp
    → change path f p ≡ (ok tt, record p { pools = insert path (f bp) p.pools })
unfolding change
change_lem path f p bp h = rw (h, change)

module _ {W B : Type 0} (env : Env W B) where
  -- Every Create and Start succeeds, and the context is never cancelled.
  pub record RuntimeWorks : Type 0 where
    pub creates :
        (cfg : CreateConfig) (w : W) → (id : String) × ((env.runtime.create cfg w).0 ≡ ok id)
    pub starts : (id : String) (w : W) → (env.runtime.start id w).0 ≡ ok tt
    pub not_cancelled : (w : W) → env.cancelled w ≡ false

  creation_works :
      (works : RuntimeWorks) (path : String) (cfg bp : BlueprintPool) (p : Pool W)
      → lookup path p.pools ≡ some bp
      → (id : String) × (w : W) × (create_warm_container env cfg path p
          ≡ (ok id, record { pools = insert path (count_created bp) p.pools; world = w }))
  unfolding create_warm_container
  creation_works works path cfg bp p h =
      let (id, c) = works.creates (create_config env cfg path (env.clock p.world)) p.world in
      let w = (env.runtime.create (create_config env cfg path (env.clock p.world)) p.world).1 in
      (id, (env.runtime.start id w).1, ground (arith, c, works.starts id w, h))

  abbrev grown : String → BlueprintPool → BlueprintPool
  grown id bp = end_fill (some id) (count_created bp)

  -- One round adds one warm container.
  fill_round_works :
      (works : RuntimeWorks) (path : String) (bp : BlueprintPool) (p : Pool W)
      → (id : String) × (lookup path (fill_round env bp path p).pools ≡ some (grown id bp))
  unfolding fill_round
  fill_round_works works path bp p =
      let (id, w, e) =
        creation_works works path bp bp (record p { pools = insert path bp p.pools })
          (lookup-insert_self path bp p.pools) in
      let q : Pool W = record p {
        pools = insert path (count_created bp) (insert path bp p.pools);
        world = w;
      } in
      (
        id,
        rw
            (
              e,
              change_lem path (end_fill (some id)) q (count_created bp)
                  (lookup-insert_self path (count_created bp) (insert path bp p.pools)),
              fill_round,
            )
            (lookup-insert_self path (grown id bp) q.pools),
      )

  -- If every Create and Start succeeds and the context is not cancelled, then with fuel above the
  -- number of missing containers fillPool returns, its pool then has min_ready containers ready
  -- or being made or is at its positive maximum size, and no ready container was lost.
  pub fill_ends :
      (works : RuntimeWorks) (fuel : ℕ) (path : String) (p : Pool W) (bp : BlueprintPool)
      → lookup path p.pools ≡ some bp
      → bp.min_ready - length bp.ready < fuel
      → (p' : Pool W) × (bp' : BlueprintPool) × (fill_pool env fuel path p ≡ some p')
        × (lookup path p'.pools ≡ some bp')
        × IsFilled bp'
        × (length bp.ready ≤ length bp'.ready)
  unfolding fill_pool end_fill count_created
  fill_ends works zero path p bp h enough = elim enough [ ]
  fill_ends works (suc fuel) path p bp h enough = elim (Option-cases (begin_fill bp)) [
    | inl e ↦ (
      p,
      bp,
      rw (works.not_cancelled p.world, h, e, fill_pool),
      h,
      begin_fill-IsFilled bp e,
      omega arith,
    )
    | inr (bp', e) ↦
        let (id, r) = fill_round_works works path bp' p in
        let (b, room) = begin_fill-some bp bp' e in
        let q = fill_round env bp' path p in
        let (p', last, f, l, filled, more) =
          fill_ends works fuel path q (grown id bp') r
            (ground (arith, b, room, length-append bp.ready (id ∷ []))) in
        (
          p',
          last,
          rw (works.not_cancelled p.world, h, e, fill_pool) f,
          l,
          filled,
          omega (
            arith,
            more,
            length-append bp'.ready (id ∷ []),
            ap (λ (x : BlueprintPool). length x.ready) b,
          ),
        )
  ]

module _ {W B : Type 0} (env : Env W B) where
  -- Every Create fails, and the context is never cancelled.
  pub record RuntimeFails : Type 0 where
    pub fails : (cfg : CreateConfig) (w : W) → (e : Error) × ((env.runtime.create cfg w).0 ≡ err e)
    pub not_cancelled : (w : W) → env.cancelled w ≡ false

  creation_fails :
      (broken : RuntimeFails) (path : String) (cfg : BlueprintPool) (p : Pool W)
      → (e : Error) × (w : W) × (create_warm_container env cfg path p
          ≡ (err e, record p { world = w }))
  unfolding create_warm_container
  creation_fails broken path cfg p =
      let (e, c) = broken.fails (create_config env cfg path (env.clock p.world)) p.world in
      let w = (env.runtime.create (create_config env cfg path (env.clock p.world)) p.world).1 in
      (wrap "create container" e, w, ground (arith, c))

  fill_round_fails :
      (broken : RuntimeFails) (path : String) (bp bp' : BlueprintPool) (p : Pool W)
      → begin_fill bp ≡ some bp'
      → lookup path (fill_round env bp' path p).pools ≡ some bp
  unfolding fill_round end_fill
  fill_round_fails broken path bp bp' p h =
      let q : Pool W = record p { pools = insert path bp' p.pools } in
      let (e, w, c) = creation_fails broken path bp' q in
      let (b, room) = begin_fill-some bp bp' h in
      let back : end_fill none bp' ≡ bp = ground (arith, b) in
      rw
        (
          c,
          change_lem path (end_fill none) (record q { world = w }) bp'
              (lookup-insert_self path bp' p.pools),
          fill_round,
        )
        (lookup-insert_self path (end_fill none bp') q.pools ∙ ap some back)

  -- If every Create fails, a fillPool that wants a container goes on without end until its
  -- context is cancelled: no amount of fuel is enough.
  pub fill_spins :
      (broken : RuntimeFails) (fuel : ℕ) (path : String) (p : Pool W) (bp bp' : BlueprintPool)
      → lookup path p.pools ≡ some bp
      → begin_fill bp ≡ some bp'
      → fill_pool env fuel path p ≡ none
  unfolding fill_pool
  fill_spins broken zero path p bp bp' h b = refl
  fill_spins broken (suc fuel) path p bp bp' h b =
      rw (broken.not_cancelled p.world, h, b, fill_pool)
        (fill_spins broken fuel path (fill_round env bp' path p) bp bp'
          (fill_round_fails broken path bp bp' p b) b)
