-- ===== src/Spans/Chains.antt =====
-- spanw.go: what nested spans leave in their contexts, and what the metrics see of them.
use go_utility.Base.{
  ℕ, ◌-◌, String, false, ◌≡◌, refl, ap, sym, ◌∙◌, List, [], ◌∷◌, ◌++◌, append-nil, append_assoc,
  map, All, if◌then◌else◌, Bool-cases, inl, inr,
}
use go_utility.Spans.{
  Context, Globals, is_disabled, get_chain, get_total_process_time, last_or_empty, get_current_func,
  Call, start, call_of, finish,
}

module _ {M : Type 0} (g : Globals M) where
  -- Each span is started in the context of the one before.
  unfoldable pub descend : List String → Context → Context
  descend [] ctx = ctx
  descend (f ∷ fs) ctx = descend fs (start g ctx f)

  get_chain-start :
      (f : String) (ctx : Context)
      → is_disabled g ≡ false
      → get_chain (start g ctx f) ≡ get_chain ctx ++ f ∷ []
  unfolding get_chain start
  get_chain-start f ctx on = rw (start, on) refl

  -- Spans that are started one within the other extend the chain by their names, in the order in
  -- which they were started, when spans are not switched off.
  pub get_chain-descend :
      (fs : List String) (ctx : Context)
      → is_disabled g ≡ false
      → get_chain (descend fs ctx) ≡ get_chain ctx ++ fs
  unfolding descend
  get_chain-descend [] ctx on = sym (append-nil (get_chain ctx))
  get_chain-descend (f ∷ fs) ctx on =
      get_chain-descend fs (start g ctx f) on
      ∙ ap (λ c. c ++ fs) (get_chain-start f ctx on)
      ∙ append_assoc (get_chain ctx) (f ∷ []) fs

  last-append : (xs : List String) (x : String) → last_or_empty (xs ++ x ∷ []) ≡ x
  last-append [] x = refl
  last-append (y ∷ []) x = refl
  last-append (y ∷ z ∷ xs) x = last-append (z ∷ xs) x

  -- What the metrics are told of a span: its name, also as the current function of their context,
  -- the chain up to it, and the time it took, also in their context.
  abbrev pub Told : Context → String → ℕ → Call M → Type 0
  Told ctx f d c =
      (c.func_name ≡ f)
      × (get_current_func c.ctx ≡ f)
      × (get_chain c.ctx ≡ get_chain ctx ++ f ∷ [])
      × (c.duration ≡ d)
      × (get_total_process_time c.ctx ≡ d)

  All-Told :
      (ctx : Context) (f : String) (d : ℕ) (call : M → Call M)
      → ((m : M) → Told ctx f d (call m))
      → (ms : List M) → All (Told ctx f d) (map call ms)
  All-Told ctx f d call h [] = tt
  All-Told ctx f d call h (m ∷ ms) = (h m, All-Told ctx f d call h ms)

  map-metrics :
      (call : M → Call M)
      → ((m : M) → (call m).metric ≡ m)
      → (ms : List M) → map (λ c. c.metric) (map call ms) ≡ ms
  map-metrics call h [] = refl
  map-metrics call h (m ∷ ms) =
      ap (λ l. (call m).metric ∷ l) (map-metrics call h ms) ∙ ap (λ n. n ∷ ms) (h m)

  told :
      (ctx : Context) (f : String) (d : ℕ)
      → is_disabled g ≡ false
      → (m : M) → Told ctx f d (call_of g ctx f d m)
  unfolding call_of get_current_func get_chain get_total_process_time
  told ctx f d on m = (
    refl,
    ap last_or_empty (get_chain-start f ctx on) ∙ last-append (get_chain ctx) f,
    get_chain-start f ctx on,
    refl,
    refl,
  )

  -- At the end of a span every metric is called once, in the order of their registration, with what
  -- `Told` lists; no metric is called when spans are switched off.
  pub finish_lem :
      (ctx : Context) (f : String) (started now : ℕ)
      → (map (λ c. c.metric) (finish g ctx f started now)
          ≡ (if is_disabled g then [] else g.metrics))
        × All (Told ctx f (now - started)) (finish g ctx f started now)
  unfolding finish call_of
  finish_lem ctx f started now = elim (Bool-cases (is_disabled g)) [
    | inl h ↦ rw (finish, h) (refl, tt)
    | inr h ↦
        rw (finish, h)
          (
            map-metrics (call_of g ctx f (now - started)) (λ m. refl) g.metrics,
            All-Told ctx f (now - started) (call_of g ctx f (now - started))
                (told ctx f (now - started) h) g.metrics,
          )
  ]
