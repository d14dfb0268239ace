-- ===== src/Fsm.antt =====
-- v2/statemachinew/fsm.go: the rule engine. `On` allocates a rule that the map and the builder
-- both point to, so the rules stand in a store and a `TransitionBuilder` is an address of it.
pub mod Hooks
pub mod Fire
pub mod Builder
pub mod Drive
mod Tests
use go_utility.Base.{
  ℕ, ◌+◌, String, Bool, true, false, Option, none, some, List, [], ◌∷◌, ◌++◌, length, get_elem?,
  set, lookup, insert, if◌then◌else◌, string_eq,
}

-- `HookFunc`: it is given the context and the entity, which it may change, and returns its error.
abbrev pub HookFunc : Type 0 → Type 0 → Type 0 → Type 0
HookFunc C X E = C → X → X × Option E

-- The errors that `Fire` builds; `cause` is what a hook returned.
pub data Error (E : Type 0) : Type 0 where
  unknown_event : String → Error E
  invalid_transition : String → String → Error E
  transition_aborted : E → Error E
  pre_action_failed : E → Error E
  post_action_failed : E → Error E

-- What `errors.Is` finds: the two exported sentinels, or a hook's own error.
pub data Target (E : Type 0) : Type 0 where
  err_invalid_transition : Target E
  err_transition_aborted : Target E
  hook_error : E → Target E

-- The chain that `%w` builds: `%v` on line 139 leaves the guard's own error out of it.
unfoldable pub wrapped : {E : Type 0} → Error E → Option (Target E)
wrapped (unknown_event ev) = none
wrapped (invalid_transition ev st) = some err_invalid_transition
wrapped (transition_aborted e) = some err_transition_aborted
wrapped (pre_action_failed e) = some (hook_error e)
wrapped (post_action_failed e) = some (hook_error e)

pub record TransitionRule (C X E : Type 0) : Type 0 where
  pub from_states : List (String × Bool)
  pub to_state : String
  pub guards : List (HookFunc C X E)
  pub pre_hooks : List (HookFunc C X E)
  pub post_hooks : List (HookFunc C X E)

-- `fsm`, with the store of the rules that `On` has allocated.
pub record Machine (C X E : Type 0) : Type 0 where
  pub store : List (TransitionRule C X E)
  pub rules : List (String × ℕ)

-- The loop of `From`.
abbrev pub allow : List String → List (String × Bool) → List (String × Bool)
allow [] m = m
allow (s ∷ states) m = allow states (insert s true m)

-- The entity that is left, the state and the error that are returned.
abbrev pub Fired : Type 0 → Type 0 → Type 0
Fired X E = X × String × Option (Error E)

module _ {C X E : Type 0} where
  unfoldable pub new : Machine C X E
  new = record { store = []; rules = [] }

  -- `&transitionRule{fromStates: make(map[State]bool)}`
  abbrev pub blank : TransitionRule C X E
  blank = record { from_states = []; to_state = ""; guards = []; pre_hooks = []; post_hooks = [] }

  unfoldable pub on : String → Machine C X E → Machine C X E × ℕ
  on event m = (
    record { store = m.store ++ blank ∷ []; rules = insert event (length m.store) m.rules },
    length m.store,
  )

  -- A write through the builder's pointer.
  abbrev pub update :
      ℕ → (TransitionRule C X E → TransitionRule C X E) → Machine C X E → Machine C X E
  update b f m = elim (get_elem? m.store b) [
    | none ↦ m
    | some r ↦ record m { store = set m.store b (f r) }
  ]

  unfoldable pub from : List String → TransitionRule C X E → TransitionRule C X E
  from states r = record r { from_states = allow states r.from_states }

  unfoldable pub to : String → TransitionRule C X E → TransitionRule C X E
  to state r = record r { to_state = state }

  unfoldable pub guard : List (HookFunc C X E) → TransitionRule C X E → TransitionRule C X E
  guard guards r = record r { guards = r.guards ++ guards }

  unfoldable pub pre : List (HookFunc C X E) → TransitionRule C X E → TransitionRule C X E
  pre actions r = record r { pre_hooks = r.pre_hooks ++ actions }

  unfoldable pub post : List (HookFunc C X E) → TransitionRule C X E → TransitionRule C X E
  post actions r = record r { post_hooks = r.post_hooks ++ actions }

  -- One of the three loops of `Fire`: it stops at the first error.
  unfoldable pub run_hooks : C → List (HookFunc C X E) → X → X × Option E
  run_hooks ctx [] x = (x, none)
  run_hooks ctx (h ∷ hooks) x =
      let (x', err) = h ctx x in elim err [ none ↦ run_hooks ctx hooks x' | some e ↦ (x', some e) ]

  -- `rule.fromStates[currentState]`, false where the key is missing.
  unfoldable pub is_allowed : TransitionRule C X E → String → Bool
  is_allowed r st = elim (lookup st r.from_states) [ none ↦ false | some b ↦ b ]

  run_post : C → TransitionRule C X E → X → Fired X E
  unfolding run_hooks
  run_post ctx r x =
      let (x', err) = run_hooks ctx r.post_hooks x in
      elim err [
        | none ↦ (x', r.to_state, none)
        | some e ↦ (x', r.to_state, some (post_action_failed e))
      ]

  run_pre : C → TransitionRule C X E → String → X → Fired X E
  unfolding run_post
  run_pre ctx r st x =
      let (x', err) = run_hooks ctx r.pre_hooks x in
      elim err [ none ↦ run_post ctx r x' | some e ↦ (x', st, some (pre_action_failed e)) ]

  run_guards : C → TransitionRule C X E → String → X → Fired X E
  unfolding run_pre
  run_guards ctx r st x =
      let (x', err) = run_hooks ctx r.guards x in
      elim err [ none ↦ run_pre ctx r st x' | some e ↦ (x', st, some (transition_aborted e)) ]

  fire_rule : C → String → TransitionRule C X E → String → X → Fired X E
  unfolding run_guards is_allowed
  fire_rule ctx event r st x =
      if is_allowed r st then run_guards ctx r st x else (x, st, some (invalid_transition event st))

  -- `f.rules[event]`, followed to the rule.
  unfoldable pub rule_of : Machine C X E → String → Option (TransitionRule C X E)
  rule_of m event = elim (lookup event m.rules) [ none ↦ none | some a ↦ get_elem? m.store a ]

  unfoldable pub fire : C → Machine C X E → String → String → X → Fired X E
  unfolding fire_rule rule_of
  fire ctx m event st x = elim (rule_of m event) [
    | none ↦ (x, st, some (unknown_event event))
    | some r ↦ fire_rule ctx event r st x
  ]
