-- ===== src/Fsm/Builder.antt =====
-- `On` and the builder's methods: what they make of the rules, and of which.
use go_utility.Base.{
  ℕ, ◌+◌, ◌<◌, String, ◌≡◌, ◌≢◌, refl, some, List, [], ◌∷◌, ◌++◌, arith, length, get_elem?, lookup,
  if◌then◌else◌, string_eq, Bool-cases, Option-cases, eq_of_beq, lookup-insert, length-append,
  length-set, get_elem?-set_self, get_elem?-set_ne, get_elem?-append_left, get_elem?-append_end,
  inl, inr, ap, sym, subst, beq_refl, ◌∙◌,
}
use mathlib.Core.Option
use go_utility.Fsm.{
  HookFunc, TransitionRule, Machine, new, blank, on, update, allow, from, to, guard, pre, post,
  rule_of, fire,
}

module _ {C X E : Type 0} where
  -- Every event's rule exists, and no two events share one.
  pub record IsWf (m : Machine C X E) : Type 0 where
    pub bounded : (ev : String) (a : ℕ) → lookup ev m.rules ≡ some a → a < length m.store
    pub distinct :
        (ev ev' : String) (a : ℕ)
        → lookup ev m.rules ≡ some a
        → lookup ev' m.rules ≡ some a
        → ev ≡ ev'

  pub new-IsWf : IsWf new
  unfolding new
  new-IsWf = record { bounded = λ ev a h. cc; distinct = λ ev ev' a h k. cc }

  lookup-on :
      (e ev : String) (m : Machine C X E)
      → lookup ev (on e m).0.rules
        ≡ (if string_eq.beq e ev then some (length m.store) else lookup ev m.rules)
  unfolding on
  lookup-on e ev m = lookup-insert e ev (length m.store) m.rules

  store-on : (e : String) (m : Machine C X E) → (on e m).0.store ≡ m.store ++ blank ∷ []
  unfolding on
  store-on e m = refl

  length-on : (e : String) (m : Machine C X E) → length (on e m).0.store ≡ length m.store + 1
  unfolding on
  length-on e m = length-append m.store (blank ∷ [])

  pub on-IsWf : (e : String) (m : Machine C X E) → IsWf m → IsWf (on e m).0
  on-IsWf e m wf = record {
    bounded = λ ev a h. ground (arith, lookup-on e ev m, length-on e m, wf.bounded ev a);
    distinct = λ ev ev' a h k. ground (
      arith,
      lookup-on e ev m,
      lookup-on e ev' m,
      wf.bounded ev a,
      wf.bounded ev' a,
      wf.distinct ev ev' a,
      eq_of_beq e ev,
      eq_of_beq e ev',
    );
  }

  rules-update :
      (b : ℕ) (f : TransitionRule C X E → TransitionRule C X E) (m : Machine C X E)
      → (update b f m).rules ≡ m.rules
  rules-update b f m = ground arith

  get_elem?-update_self :
      (b : ℕ) (f : TransitionRule C X E → TransitionRule C X E) (m : Machine C X E)
      → b < length m.store
      → get_elem? (update b f m).store b ≡ Option.map f (get_elem? m.store b)
  get_elem?-update_self b f m h = elim (Option-cases (get_elem? m.store b)) [
    | inl e ↦ ground arith
    | inr (r, e) ↦ ground (arith, get_elem?-set_self m.store b (f r) h)
  ]

  get_elem?-update_ne :
      (b a : ℕ) (f : TransitionRule C X E → TransitionRule C X E) (m : Machine C X E)
      → b ≢ a
      → get_elem? (update b f m).store a ≡ get_elem? m.store a
  get_elem?-update_ne b a f m h = elim (Option-cases (get_elem? m.store b)) [
    | inl e ↦ ground arith
    | inr (r, e) ↦ ground (arith, get_elem?-set_ne m.store b a (f r) h)
  ]

  length-update :
      (b : ℕ) (f : TransitionRule C X E → TransitionRule C X E) (m : Machine C X E)
      → length (update b f m).store ≡ length m.store
  length-update b f m = elim (Option-cases (get_elem? m.store b)) [
    | inl e ↦ ground arith
    | inr (r, e) ↦ ground (arith, length-set m.store b (f r))
  ]

  pub update-IsWf :
      (b : ℕ) (f : TransitionRule C X E → TransitionRule C X E) (m : Machine C X E)
      → IsWf m
      → IsWf (update b f m)
  update-IsWf b f m wf = record {
    bounded = λ ev a h. ground (arith, length-update b f m, rules-update b f m, wf.bounded ev a);
    distinct = λ ev ev' a h k. ground (arith, rules-update b f m, wf.distinct ev ev' a);
  }

  -- `On` gives its event a blank rule, whatever rule it had, and leaves the other events' rules.
  pub rule_of-on :
      (e ev : String) (m : Machine C X E)
      → IsWf m
      → rule_of (on e m).0 ev ≡ (if string_eq.beq e ev then some blank else rule_of m ev)
  unfolding rule_of
  rule_of-on e ev m wf = elim (Bool-cases (string_eq.beq e ev)) [
    | inl same ↦ ground (arith, lookup-on e ev m, store-on e m, get_elem?-append_end m.store blank)
    | inr other ↦ elim (Option-cases (lookup ev m.rules)) [
      | inl missing ↦ ground (arith, lookup-on e ev m)
      | inr (a, h) ↦ ground (
        arith,
        lookup-on e ev m,
        store-on e m,
        get_elem?-append_left m.store (blank ∷ []) a (wf.bounded ev a h),
      )
    ]
  ]

  -- A builder's method changes the rule that its pointer names, and no other.
  rule_of-update_self :
      (b : ℕ) (f : TransitionRule C X E → TransitionRule C X E) (m : Machine C X E) (ev : String)
      → IsWf m
      → lookup ev m.rules ≡ some b
      → rule_of (update b f m) ev ≡ Option.map f (rule_of m ev)
  unfolding rule_of
  rule_of-update_self b f m ev wf h =
      ground (arith, rules-update b f m, get_elem?-update_self b f m (wf.bounded ev b h))

  rule_of-update_ne :
      (b : ℕ) (f : TransitionRule C X E → TransitionRule C X E) (m : Machine C X E) (ev : String)
      → lookup ev m.rules ≢ some b
      → rule_of (update b f m) ev ≡ rule_of m ev
  unfolding rule_of
  rule_of-update_ne b f m ev h = elim (Option-cases (lookup ev m.rules)) [
    | inl missing ↦ ground (arith, rules-update b f m)
    | inr (a, found) ↦ ground (
      arith,
      rules-update b f m,
      get_elem?-update_ne b a f m (λ same. h (found ∙ ap some (sym same))),
    )
  ]

  -- `On(e).From(states).To(target).Guard(gs).Pre(ps).Post(qs)`.
  unfoldable pub declare :
      String
      → List String
      → String
      → List (HookFunc C X E)
      → List (HookFunc C X E)
      → List (HookFunc C X E)
      → Machine C X E
      → Machine C X E
  declare e states target gs ps qs m =
      let (m₀, b) = on e m in
      let m₁ = update b (from states) m₀ in
      let m₂ = update b (to target) m₁ in
      let m₃ = update b (guard gs) m₂ in let m₄ = update b (pre ps) m₃ in update b (post qs) m₄

  lookup-on_self : (e : String) (m : Machine C X E) → lookup e (on e m).0.rules ≡ some (on e m).1
  unfolding on
  lookup-on_self e m = ground (arith, lookup-insert e e (length m.store) m.rules, beq_refl e)

  -- The builder that points to the event's rule.
  record Owns (e : String) (b : ℕ) (m : Machine C X E) : Type 0 where
    wf : IsWf m
    held : lookup e m.rules ≡ some b

  Owns-update :
      (e : String) (b : ℕ) (f : TransitionRule C X E → TransitionRule C X E) (m : Machine C X E)
      → Owns e b m
      → Owns e b (update b f m)
  Owns-update e b f m o = record {
    wf = update-IsWf b f m o.wf;
    held = ap (lookup e) (rules-update b f m) ∙ o.held;
  }

  -- A builder's method, as every event sees it.
  rule_of-update :
      (e ev : String) (b : ℕ) (f : TransitionRule C X E → TransitionRule C X E) (m : Machine C X E)
      → Owns e b m
      → rule_of (update b f m) ev
        ≡ (if string_eq.beq e ev then Option.map f (rule_of m ev) else rule_of m ev)
  rule_of-update e ev b f m o = elim (Bool-cases (string_eq.beq e ev)) [
    | inl same ↦ rw same (
        rule_of-update_self b f m ev o.wf
          (subst (λ k. lookup k m.rules ≡ some b) (eq_of_beq e ev same) o.held))
    | inr other ↦ rw other (
        rule_of-update_ne b f m ev
          (λ found. cc (o.wf.distinct e ev b o.held found, other, beq_refl ev)))
  ]

  -- A declaration through the builder's chain gives its event the rule with just these states,
  -- target and hooks, whatever rule the event had, and leaves every other event's rule.
  pub rule_of-declare :
      (e ev : String) (states : List String) (target : String) (gs ps qs : List (HookFunc C X E))
      (m : Machine C X E)
      → IsWf m
      → rule_of (declare e states target gs ps qs m) ev ≡ (
          if string_eq.beq e ev
          then some (record {
            from_states = allow states [];
            to_state = target;
            guards = gs;
            pre_hooks = ps;
            post_hooks = qs;
          })
          else rule_of m ev)
  unfolding declare from to guard pre post
  rule_of-declare e ev states target gs ps qs m wf =
      let (m₀, b) = on e m in
      let m₁ = update b (from states) m₀ in
      let m₂ = update b (to target) m₁ in
      let m₃ = update b (guard gs) m₂ in
      let m₄ = update b (pre ps) m₃ in
      let o₀ : Owns e b m₀ = record { wf = on-IsWf e m wf; held = lookup-on_self e m } in
      let o₁ = Owns-update e b (from states) m₀ o₀ in
      let o₂ = Owns-update e b (to target) m₁ o₁ in
      let o₃ = Owns-update e b (guard gs) m₂ o₂ in
      let o₄ = Owns-update e b (pre ps) m₃ o₃ in
      ground (
        arith,
        rule_of-on e ev m wf,
        rule_of-update e ev b (from states) m₀ o₀,
        rule_of-update e ev b (to target) m₁ o₁,
        rule_of-update e ev b (guard gs) m₂ o₂,
        rule_of-update e ev b (pre ps) m₃ o₃,
        rule_of-update e ev b (post qs) m₄ o₄,
      )

  not_stale :
      (e : String) (m : Machine C X E)
      → IsWf m
      → (ev : String) → lookup ev (on e (on e m).0).0.rules ≢ some (on e m).1
  unfolding on
  not_stale e m wf ev h = ground (
    arith,
    lookup-on e ev m,
    lookup-on e ev (on e m).0,
    length-on e m,
    wf.bounded ev (length m.store),
  )

  -- A builder whose event has been declared anew no longer changes what any call of `Fire` does.
  pub fire-update_stale :
      (e : String) (f : TransitionRule C X E → TransitionRule C X E) (m : Machine C X E)
      → IsWf m
      → (ctx : C) (ev st : String) (x : X)
      → let (m₁, stale) = on e m in
        let (m₂, b) = on e m₁ in fire ctx (update stale f m₂) ev st x ≡ fire ctx m₂ ev st x
  unfolding fire
  fire-update_stale e f m wf ctx ev st x =
      let (m₁, stale) = on e m in
      let (m₂, b) = on e m₁ in rw (rule_of-update_ne stale f m₂ ev (not_stale e m wf ev), fire)
