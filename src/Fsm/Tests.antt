-- ===== src/Fsm/Tests.antt =====
-- An order's life: runs of the engine, and the theorems at concrete machines.
use go_utility.Base.{
  ℕ, ◌+◌, String, true, ◌≡◌, refl, ◌↔◌, none, some, [], ◌∷◌, ltb, if◌then◌else◌, string_eq,
}
use go_utility.Fsm.{
  HookFunc, TransitionRule, Machine, invalid_transition, transition_aborted, unknown_event,
  pre_action_failed, post_action_failed, new, on, from, to, guard, pre, post, run_hooks, fire,
  wrapped, hook_error, err_transition_aborted,
}
use go_utility.Fsm.Fire.{Fires, fire_iff}
use go_utility.Fsm.Builder.{declare}
use go_utility.Fsm.Drive.{Reach, drive, drive-Reach}

-- The entity counts its items, and the context is a limit.
abbrev Hook : Type 0
Hook = HookFunc ℕ ℕ String

abbrev has_room : Hook
has_room limit items = if ltb items limit then (items, none) else (items, some "full")

abbrev add_item : Hook
add_item limit items = (items + 1, none)

abbrev broken : Hook
broken limit items = (items + 10, some "broken")

abbrev pay : TransitionRule ℕ ℕ String
pay = record {
  from_states = ("new", true) ∷ ("retry", true) ∷ [];
  to_state = "paid";
  guards = has_room ∷ [];
  pre_hooks = add_item ∷ [];
  post_hooks = add_item ∷ [];
}

abbrev shop : Machine ℕ ℕ String
shop = record {
  store = pay ∷ record pay { to_state = "sent"; post_hooks = broken ∷ add_item ∷ [] } ∷ [];
  rules = ("pay", 0) ∷ ("send", 1) ∷ [];
}

runs :
    (fire 3 shop "pay" "new" 1 ≡ (3, "paid", none))
    × (fire 3 shop "pay" "new" 3 ≡ (3, "new", some (transition_aborted "full")))
    × (fire 3 shop "pay" "paid" 1 ≡ (1, "paid", some (invalid_transition "pay" "paid")))
    × (fire 3 shop "cancel" "new" 1 ≡ (1, "new", some (unknown_event "cancel")))
    × (fire 3 shop "send" "retry" 1 ≡ (12, "sent", some (post_action_failed "broken")))
unfolding fire run_hooks
runs = (refl, refl, refl, refl, refl)

wraps :
    (wrapped {E = String} (pre_action_failed "x") ≡ some (hook_error "x"))
    × (wrapped {E = String} (transition_aborted "x") ≡ some err_transition_aborted)
unfolding wrapped
wraps = (refl, refl)

abbrev built : Machine ℕ ℕ String
built = declare "pay" ("new" ∷ "retry" ∷ []) "paid" (has_room ∷ []) (add_item ∷ []) [] new

built_runs : fire 3 built "pay" "retry" 1 ≡ (2, "paid", none)
unfolding fire run_hooks declare on from to guard pre post new
built_runs = refl

fire_iff_example :
    Fires 3 shop "pay" "new" 1 (3, "paid", none) ↔ (fire 3 shop "pay" "new" 1 ≡ (3, "paid", none))
fire_iff_example = fire_iff 3 shop "pay" "new" 1 (3, "paid", none)

drive-Reach_example : Reach 9 shop "new" (drive 9 shop ("pay" ∷ "pay" ∷ "send" ∷ []) "new" 0).1
drive-Reach_example = drive-Reach 9 shop ("pay" ∷ "pay" ∷ "send" ∷ []) "new" 0
