-- ===== src/Autoscale/Guard.antt =====
-- Every tracked sandbox under the calls that a program makes of the autoscaler, in any order.
use mathlib.Core.Path.{subst}
use sandboxmatrix.Base.{
  ℕ, zero, suc, String, ◌≡◌, refl, sym, ◌∙◌, Option, none, some, List, [], ◌∷◌, str_eq, inl, inr,
  arith, Bool-cases, Option-cases,
}
use sandboxmatrix.Base.Int.{ℤ}
use sandboxmatrix.Base.Dict.{Dict, insert, remove}
use sandboxmatrix.Base.Action.{Result-cases}
use sandboxmatrix.Autoscale.{
  Floats, Scaling, Config, SandboxState, Autoscaler, new_autoscaler, register_sandbox,
  unregister_sandbox,
}
use sandboxmatrix.Autoscale.Host.{pressure}
use sandboxmatrix.Autoscale.Loop.{expand, expand_all, reconcile, loop, start, stop}
use sandboxmatrix.Autoscale.Changes.{
  All, IsGuarded, each-All, floor-full, expand-IsGuarded, adjust-All,
}

pub data Call : Type 0 where
  registers : String → String → String → String → ℤ → Call
  unregisters : String → Call
  starts : Call
  ticks : ℕ → Call
  stops : Call

pub insert-All :
    (P : SandboxState → Type 0) (k : String) (s : SandboxState) (d : Dict SandboxState)
    → P s
    → All P d
    → All P (insert k s d)
unfolding insert
insert-All P k s [] p h = (p, tt)
insert-All P k s ((j, r) ∷ d) p (q, h) = elim (Bool-cases (str_eq j k)) [
  | inl e ↦ rw (insert, e) (p, h)
  | inr e ↦ rw (insert, e) (q, insert-All P k s d p h)
]

pub remove-All :
    (P : SandboxState → Type 0) (k : String) (d : Dict SandboxState) → All P d → All P (remove k d)
unfolding remove
remove-All P k [] h = tt
remove-All P k ((j, r) ∷ d) (q, h) = elim (Bool-cases (str_eq j k)) [
  | inl e ↦ rw (remove, e) (remove-All P k d h)
  | inr e ↦ rw (remove, e) (q, remove-All P k d h)
]

register-All :
    (name id cpu memory : String) (p : ℤ) (a : Autoscaler)
    → All IsGuarded a.sandboxes
    → All IsGuarded (register_sandbox name id cpu memory p a).sandboxes
unfolding register_sandbox
register-All name id cpu memory p a h =
    insert-All IsGuarded name _ a.sandboxes
      (record {
        paused_at_0 = λ e. absurd (ground arith);
        paused_low = λ e. absurd (ground arith);
        at_floor = floor-full p;
      })
      h

module _ {F W : Type 0} (num : Floats F) (rt : Scaling F W) (cfg : Config F) where
  abbrev pub perform : Call → Autoscaler → W → Option (Autoscaler × W)
  perform (Call.registers name id cpu memory p) a w =
      some (register_sandbox name id cpu memory p a, w)
  perform (Call.unregisters name) a w = some (unregister_sandbox name a, w)
  perform Call.starts a w = some (start num rt cfg a, w)
  perform (Call.ticks n) a w = elim (loop num rt cfg n a.sandboxes w) [
    | none ↦ none
    | some (d, w') ↦ some (record a { sandboxes = d }, w')
  ]
  perform Call.stops a w = stop num rt cfg a w

  abbrev pub perform_all : List Call → Autoscaler → W → Option (Autoscaler × W)
  perform_all [] a w = some (a, w)
  perform_all (c ∷ cs) a w = elim (perform c a w) [
    | none ↦ none
    | some (a', w') ↦ perform_all cs a' w'
  ]

  reconcile-All :
      (d d' : Dict SandboxState) (w w' : W)
      → All IsGuarded d
      → reconcile num rt cfg d w ≡ some (d', w')
      → All IsGuarded d'
  unfolding reconcile
  reconcile-All d d' w w' g h = elim (Result-cases (rt.host_info w).0) [
    | inr (x, e) ↦ let same : d ≡ d' = ground arith in subst (All IsGuarded) same g
    | inl (host, e) ↦
        adjust-All num rt cfg (pressure num cfg host) d d' (rt.host_info w).1 w' g
          (sym (rw (reconcile, e) refl) ∙ h)
  ]

  loop-All :
      (n : ℕ) (d d' : Dict SandboxState) (w w' : W)
      → All IsGuarded d
      → loop num rt cfg n d w ≡ some (d', w')
      → All IsGuarded d'
  unfolding loop
  loop-All zero d d' w w' g h = let same : d ≡ d' = ground arith in subst (All IsGuarded) same g
  loop-All (suc n) d d' w w' g h = elim (Option-cases (reconcile num rt cfg d w)) [
    | inl panics ↦ absurd (ground arith)
    | inr ((d1, w1), e) ↦
        loop-All n d1 d' w1 w' (reconcile-All d d1 w w1 g e) (sym (rw (loop, e) refl) ∙ h)
  ]

  perform-All :
      (c : Call) (a a' : Autoscaler) (w w' : W)
      → All IsGuarded a.sandboxes
      → perform c a w ≡ some (a', w')
      → All IsGuarded a'.sandboxes
  unfolding unregister_sandbox start stop expand_all
  perform-All (Call.registers name id cpu memory p) a a' w w' g h =
      let same : register_sandbox name id cpu memory p a ≡ a' = cc in
      subst (λ (x : Autoscaler). All IsGuarded x.sandboxes) same
        (register-All name id cpu memory p a g)
  perform-All (Call.unregisters name) a a' w w' g h =
      let same : unregister_sandbox name a ≡ a' = cc in
      subst (λ (x : Autoscaler). All IsGuarded x.sandboxes) same
        (remove-All IsGuarded name a.sandboxes g)
  perform-All Call.starts a a' w w' g h =
      let same : a.sandboxes ≡ a'.sandboxes = ground arith in subst (All IsGuarded) same g
  perform-All (Call.ticks n) a a' w w' g h = elim (Option-cases (loop num rt cfg n a.sandboxes w)) [
    | inl panics ↦ absurd (ground arith)
    | inr ((d, v), e) ↦
        let same : d ≡ a'.sandboxes = ground arith in
        subst (All IsGuarded) same (loop-All n a.sandboxes d w v g e)
  ]
  perform-All Call.stops a a' w w' g h = elim (Bool-cases a.running) [
    | inr e ↦ let same : a.sandboxes ≡ a'.sandboxes = ground arith in subst (All IsGuarded) same g
    | inl e ↦ elim (Option-cases (expand_all num rt cfg a.sandboxes w)) [
      | inl panics ↦ absurd (ground arith)
      | inr ((d, v), f) ↦
          let same : d ≡ a'.sandboxes = ground arith in
          subst (All IsGuarded) same (
            each-All IsGuarded (expand num rt cfg) (expand-IsGuarded num rt cfg) a.sandboxes d w v g
              f)
    ]
  ]

  perform_all-All :
      (cs : List Call) (a a' : Autoscaler) (w w' : W)
      → All IsGuarded a.sandboxes
      → perform_all cs a w ≡ some (a', w')
      → All IsGuarded a'.sandboxes
  perform_all-All [] a a' w w' g h =
      let same : a.sandboxes ≡ a'.sandboxes = ground arith in subst (All IsGuarded) same g
  perform_all-All (c ∷ cs) a a' w w' g h = elim (Option-cases (perform c a w)) [
    | inl panics ↦ absurd (ground arith)
    | inr ((b, v), e) ↦
        perform_all-All cs b a' v w' (perform-All c a b w v g e)
          (sym (rw (perform_all, e) refl) ∙ h)
  ]

  -- After any calls of a new autoscaler, changes of priority aside, and whichever calls of the
  -- runtime fail, only low sandboxes are recorded as paused, at scale 0, and the recorded scale
  -- of a normal, high or critical one is at least 1/4, 1/2 or 3/4, if no call panics.
  pub calls-IsGuarded :
      (cs : List Call) (a : Autoscaler) (w w' : W)
      → perform_all cs new_autoscaler w ≡ some (a, w')
      → All IsGuarded a.sandboxes
  unfolding new_autoscaler
  calls-IsGuarded cs a w w' h = perform_all-All cs new_autoscaler a w w' tt h
