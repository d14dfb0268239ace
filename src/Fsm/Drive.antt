-- ===== src/Fsm/Drive.antt =====
-- An entity that is driven by a sequence of events, each fired from the state that the call
-- before has returned.
use go_utility.Base.{String, true, ◌≡◌, inl, inr, some, List, [], ◌∷◌}
use go_utility.Fsm.{Machine, TransitionRule, is_allowed, rule_of, fire}
use go_utility.Fsm.Fire.{fire-state}

module _ {C X E : Type 0} (ctx : C) (m : Machine C X E) where
  -- A rule that allows the first state and leads to the second.
  pub record Edge (s t : String) : Type 0 where
    pub event : String
    pub rule : TransitionRule C X E
    pub known : rule_of m event ≡ some rule
    pub allowed : is_allowed rule s ≡ true
    pub target : t ≡ rule.to_state

  pub data Reach (s : String) : String → Type 0 where
    here : Reach s s
    then : {t u : String} → Reach s t → Edge t u → Reach s u

  pub drive : List String → String → X → X × String
  drive [] st x = (x, st)
  drive (ev ∷ events) st x = let (x', st', err) = fire ctx m ev st x in drive events st' x'

  fire-Reach : (s ev st : String) (x : X) → Reach s st → Reach s (fire ctx m ev st x).1
  fire-Reach s ev st x p = elim (fire-state ctx m ev st x) [
    | inl (r, a, b, e, _) ↦
        then p (record { event = ev; rule = r; known = a; allowed = b; target = e })
    | inr (_, _, e, _) ↦ rw e p
  ]

  drive-Reach_from :
      (s : String) (events : List String) (st : String) (x : X)
      → Reach s st
      → Reach s (drive events st x).1
  unfolding drive
  drive-Reach_from s [] st x p = p
  drive-Reach_from s (ev ∷ events) st x p =
      let (x', st', err) = fire ctx m ev st x in
      drive-Reach_from s events st' x' (fire-Reach s ev st x p)

  -- Whatever the events, the hooks and their errors, the entity ends in a state that its first
  -- state reaches along the declared rules.
  pub drive-Reach : (events : List String) (st : String) (x : X) → Reach st (drive events st x).1
  drive-Reach events st x = drive-Reach_from st events st x here
