-- ===== src/Fsm/Fire.antt =====
-- What one call of `Fire` does, against a relation with a case for each way it can end.
use go_utility.Base.{
  String, true, false, ◌≡◌, refl, ◌↔◌, ◌⊎◌, inl, inr, none, some, ◌++◌, arith, subst, sym, ◌∙◌, ◌≢◌,
  string_eq, Bool-cases, Option-cases,
}
use go_utility.Fsm.{
  Machine, TransitionRule, Fired, Error, unknown_event, invalid_transition, transition_aborted,
  pre_action_failed, post_action_failed, run_hooks, is_allowed, rule_of, fire,
}
use go_utility.Fsm.Hooks.{
  Passes, Stops, Passes-run_hooks, Stops-run_hooks, run_hooks_cases, run_hooks-append,
}

module _ {C X E : Type 0} (ctx : C) (m : Machine C X E) (event st : String) (x : X) where
  pub data Fires (res : Fired X E) : Type 0 where
    unknown : rule_of m event ≡ none → res ≡ (x, st, some (unknown_event event)) → Fires res
    refused :
        (r : TransitionRule C X E)
        → rule_of m event ≡ some r
        → is_allowed r st ≡ false
        → res ≡ (x, st, some (invalid_transition event st))
        → Fires res
    guarded :
        (r : TransitionRule C X E) (e : E) (y : X)
        → rule_of m event ≡ some r
        → is_allowed r st ≡ true
        → Stops ctx r.guards x e y
        → res ≡ (y, st, some (transition_aborted e))
        → Fires res
    pre_failed :
        (r : TransitionRule C X E) (e : E) (y z : X)
        → rule_of m event ≡ some r
        → is_allowed r st ≡ true
        → Passes ctx r.guards x y
        → Stops ctx r.pre_hooks y e z
        → res ≡ (z, st, some (pre_action_failed e))
        → Fires res
    post_failed :
        (r : TransitionRule C X E) (e : E) (y z w : X)
        → rule_of m event ≡ some r
        → is_allowed r st ≡ true
        → Passes ctx r.guards x y
        → Passes ctx r.pre_hooks y z
        → Stops ctx r.post_hooks z e w
        → res ≡ (w, r.to_state, some (post_action_failed e))
        → Fires res
    moved :
        (r : TransitionRule C X E) (y z w : X)
        → rule_of m event ≡ some r
        → is_allowed r st ≡ true
        → Passes ctx r.guards x y
        → Passes ctx r.pre_hooks y z
        → Passes ctx r.post_hooks z w
        → res ≡ (w, r.to_state, none)
        → Fires res

  Fires-fire : {res : Fired X E} → Fires res → fire ctx m event st x ≡ res
  unfolding fire
  Fires-fire (unknown a r) = ground arith
  Fires-fire (refused r a b e) = ground arith
  Fires-fire (guarded r e y a b g q) = ground (arith, Stops-run_hooks ctx g)
  Fires-fire (pre_failed r e y z a b g p q) =
      ground (arith, Passes-run_hooks ctx g, Stops-run_hooks ctx p)
  Fires-fire (post_failed r e y z w a b g p o q) =
      ground (arith, Passes-run_hooks ctx g, Passes-run_hooks ctx p, Stops-run_hooks ctx o)
  Fires-fire (moved r y z w a b g p o q) =
      ground (arith, Passes-run_hooks ctx g, Passes-run_hooks ctx p, Passes-run_hooks ctx o)

  -- Every call ends in one of the six ways.
  some_Fires : (res : Fired X E) × Fires res
  some_Fires = elim (Option-cases (rule_of m event)) [
    | inl a ↦ (_, unknown a refl)
    | inr (r, a) ↦ elim (Bool-cases (is_allowed r st)) [
      | inr b ↦ (_, refused r a b refl)
      | inl b ↦ elim (run_hooks_cases ctx r.guards x) [
        | inr (e, y, _, g) ↦ (_, guarded r e y a b g refl)
        | inl (y, _, g) ↦ elim (run_hooks_cases ctx r.pre_hooks y) [
          | inr (e, z, _, p) ↦ (_, pre_failed r e y z a b g p refl)
          | inl (z, _, p) ↦ elim (run_hooks_cases ctx r.post_hooks z) [
            | inr (e, w, _, o) ↦ (_, post_failed r e y z w a b g p o refl)
            | inl (w, _, o) ↦ (_, moved r y z w a b g p o refl)
          ]
        ]
      ]
    ]
  ]

  -- `Fire` gives a result exactly when the relation allows it: an unknown event, a state that the
  -- rule does not list, a guard that fails, a pre-action that fails, a post-action that fails, or
  -- all hooks passing; in each with the entity, the state and the error of that case.
  pub fire_iff : (res : Fired X E) → Fires res ↔ (fire ctx m event st x ≡ res)
  fire_iff res =
      (Fires-fire, λ e. let (res', f) = some_Fires in subst Fires (sym (Fires-fire f) ∙ e) f)

  -- The entity after a call from an allowed state is that of one loop over the guards, the
  -- pre-actions and the post-actions in this order, and the call reports no error exactly when
  -- that loop does.
  pub fire-run_hooks :
      (r : TransitionRule C X E)
      → rule_of m event ≡ some r
      → is_allowed r st ≡ true
      → ((fire ctx m event st x).0
          ≡ (run_hooks ctx (r.guards ++ (r.pre_hooks ++ r.post_hooks)) x).0)
        × (((fire ctx m event st x).2 ≡ none)
            ↔ ((run_hooks ctx (r.guards ++ (r.pre_hooks ++ r.post_hooks)) x).1 ≡ none))
  unfolding fire
  fire-run_hooks r a b = ground (
    arith,
    run_hooks-append ctx r.guards (r.pre_hooks ++ r.post_hooks) x,
    run_hooks-append ctx r.pre_hooks r.post_hooks (run_hooks ctx r.guards x).0,
  )

  -- The state that `Fire` returns is the target of a rule that allows the given state when the call
  -- reports no error or a failed post-action, and is the given state under every other error.
  pub fire-state :
      ((r : TransitionRule C X E) × (rule_of m event ≡ some r)
        × (is_allowed r st ≡ true)
        × ((fire ctx m event st x).1 ≡ r.to_state)
        × (((fire ctx m event st x).2 ≡ none)
            ⊎ ((e : E) × ((fire ctx m event st x).2 ≡ some (post_action_failed e)))))
      ⊎ ((e : Error E) × ((fire ctx m event st x).2 ≡ some e)
          × ((fire ctx m event st x).1 ≡ st)
          × ((c : E) → e ≢ post_action_failed c))
  fire-state =
      let (res, f) = some_Fires in
      let e = Fires-fire f in
      elim f [
        | unknown a q ↦ inr (unknown_event event, ground arith, ground arith, λ c p. cc)
        | refused r a b q ↦ inr (invalid_transition event st, ground arith, ground arith, λ c p. cc)
        | guarded r c y a b g q ↦ inr (transition_aborted c, ground arith, ground arith, λ d p. cc)
        | pre_failed r c y z a b g p q ↦
            inr (pre_action_failed c, ground arith, ground arith, λ d k. cc)
        | post_failed r c y z w a b g p o q ↦ inl (r, a, b, ground arith, inr (c, ground arith))
        | moved r y z w a b g p o q ↦ inl (r, a, b, ground arith, inl (ground arith))
      ]
