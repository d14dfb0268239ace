-- ===== src/LocalCache/State.antt =====
-- The package's state: its invariant, and each operation's effect on the items.
use go_utility.Base.{
  String, true, false, ◌≡◌, refl, ◌⊎◌, inl, inr, none, some, List, [], ◌∷◌, arith, lookup, insert,
  delete, string_eq, IsMap, insert-IsMap, delete-IsMap, Bool-cases, subst,
}
use go_utility.Base.Int.{ℤ, pos, ◌≤ℤ◌}
use go_utility.LocalCache.{
  Item, SetOption, LocalCache, Globals, empty_cache, get_cache, default_freq, is_expired, sweep,
  configure, expiration_of, set_kv, fetch, get, delete_key, clear, tick, on_cache,
}

-- `Init` has run exactly if the cache exists, and its items are a map.
pub record IsWf {V : Type 0} (g : Globals V) : Type 0 where
  pub idle : g.once ≡ false → g.cache ≡ none
  pub started : g.once ≡ true → (c : LocalCache V) × (g.cache ≡ some c)
  pub unique : (c : LocalCache V) → g.cache ≡ some c → IsMap c.items

-- The items, empty before `Init`.
abbrev pub items_of : {V : Type 0} → Globals V → List (String × Item V)
items_of g = elim (g.cache) [ none ↦ [] | some c ↦ c.items ]

module _ {V : Type 0} where
  -- Before `Init`, or after it with a cache.
  pub IsWf-cases :
      (g : Globals V)
      → IsWf g
      → ((g.once ≡ false) × (g.cache ≡ none))
        ⊎ ((c : LocalCache V) × (g.once ≡ true) × (g.cache ≡ some c) × IsMap c.items)
  IsWf-cases g wf = elim (Bool-cases g.once) [
    | inl t ↦ let (c, e) = wf.started t in inr (c, t, e, wf.unique c e)
    | inr f ↦ inl (f, wf.idle f)
  ]

  pub items_of-IsMap : (g : Globals V) → IsWf g → IsMap (items_of g)
  items_of-IsMap g wf = elim (IsWf-cases g wf) [
    | inl (f, e) ↦ ground arith
    | inr (c, t, e, u) ↦ ground arith
  ]

  IsWf-of_cache :
      (g : Globals V) (c : LocalCache V) → g.once ≡ true → g.cache ≡ some c → IsMap c.items → IsWf g
  IsWf-of_cache g c t e u = record {
    idle = λ f. cc;
    started = λ _. (c, e);
    unique = λ d q. let same : c ≡ d = cc in subst (λ x. IsMap x.items) same u;
  }

  pub get_cache-items : (g : Globals V) → IsWf g → items_of (get_cache g) ≡ items_of g
  unfolding get_cache
  get_cache-items g wf = elim (IsWf-cases g wf) [
    | inl (f, e) ↦ ground arith
    | inr (c, t, e, u) ↦ ground arith
  ]

  pub get_cache-IsWf : (g : Globals V) → IsWf g → IsWf (get_cache g)
  unfolding get_cache
  get_cache-IsWf g wf = elim (IsWf-cases g wf) [
    | inl (f, e) ↦ IsWf-of_cache _ (empty_cache default_freq) (ground arith) (ground arith) tt
    | inr (c, t, e, u) ↦ IsWf-of_cache _ c (ground arith) (ground arith) u
  ]

  -- A change of the cache that keeps its items a map.
  on_cache-IsWf :
      (f : LocalCache V → LocalCache V) (g : Globals V)
      → ((c : LocalCache V) → IsMap c.items → IsMap (f c).items)
      → IsWf g
      → IsWf (on_cache f g)
  on_cache-IsWf f g keep wf = elim (IsWf-cases g wf) [
    | inl (z, e) ↦ record {
      idle = λ _. ground arith;
      started = λ t. absurd (ground arith);
      unique = λ c q. absurd (ground arith);
    }
    | inr (c, t, e, u) ↦ IsWf-of_cache _ (f c) (ground arith) (ground arith) (keep c u)
  ]

  sweep-lookup :
      (now : ℤ) (k : String) (m : List (String × Item V))
      → lookup k m ≡ none
      → lookup k (sweep now m) ≡ none
  unfolding sweep
  sweep-lookup now k [] h = refl
  sweep-lookup now k ((j, item) ∷ m) h = ground (arith, sweep-lookup now k m)

  sweep-IsMap : (now : ℤ) (m : List (String × Item V)) → IsMap m → IsMap (sweep now m)
  unfolding sweep
  sweep-IsMap now [] h = tt
  sweep-IsMap now ((j, item) ∷ m) h =
      ground (arith, sweep-IsMap now m h.1, sweep-lookup now j m h.0)

  pub is_expired_mono :
      (now later : ℤ) (item : Item V)
      → now ≤ℤ later
      → is_expired now item ≡ true
      → is_expired later item ≡ true
  unfolding is_expired
  is_expired_mono now later item h e = ground arith

  -- A sweep removes nothing that a read at that time or later could return.
  pub fetch-sweep :
      (now later : ℤ) (k : String) (m : List (String × Item V))
      → IsMap m
      → now ≤ℤ later
      → fetch later k (sweep now m) ≡ fetch later k m
  unfolding sweep fetch
  fetch-sweep now later k [] u h = refl
  fetch-sweep now later k ((j, item) ∷ m) u h = ground (
    arith,
    fetch-sweep now later k m u.1 h,
    string_eq.beq_iff j k,
    sweep-lookup now k m,
    is_expired_mono now later item h,
  )

  pub set_kv-items :
      (now : ℤ) (key : String) (v : V) (opts : List SetOption) (g : Globals V)
      → IsWf g
      → items_of (set_kv now key v opts g)
        ≡ insert key
            (record {
              value = v;
              expiration = expiration_of now (configure opts (record { ttl = pos 0 }));
            })
            (items_of g)
  unfolding set_kv
  set_kv-items now key v opts g wf = elim (IsWf-cases g wf) [
    | inl (f, e) ↦ ground arith
    | inr (c, t, e, u) ↦ ground arith
  ]

  pub delete_key-items :
      (key : String) (g : Globals V)
      → IsWf g
      → items_of (delete_key key g) ≡ delete key (items_of g)
  unfolding delete_key
  delete_key-items key g wf = elim (IsWf-cases g wf) [
    | inl (f, e) ↦ ground arith
    | inr (c, t, e, u) ↦ ground arith
  ]

  pub clear-items : (g : Globals V) → IsWf g → items_of (clear g) ≡ []
  unfolding clear
  clear-items g wf = elim (IsWf-cases g wf) [
    | inl (f, e) ↦ ground arith
    | inr (c, t, e, u) ↦ ground arith
  ]

  pub get-items :
      (now : ℤ) (k : String) (g : Globals V) → IsWf g → (get now k g).1 ≡ fetch now k (items_of g)
  unfolding get
  get-items now k g wf = elim (IsWf-cases g wf) [
    | inl (f, e) ↦ ground arith
    | inr (c, t, e, u) ↦ ground arith
  ]

  -- Every operation keeps the package's state well formed.
  pub set_kv-IsWf :
      (now : ℤ) (key : String) (v : V) (opts : List SetOption) (g : Globals V)
      → IsWf g
      → IsWf (set_kv now key v opts g)
  unfolding set_kv
  set_kv-IsWf now key v opts g wf =
      on_cache-IsWf _ (get_cache g) (λ c u. insert-IsMap key _ c.items u) (get_cache-IsWf g wf)

  pub delete_key-IsWf : (key : String) (g : Globals V) → IsWf g → IsWf (delete_key key g)
  unfolding delete_key
  delete_key-IsWf key g wf =
      on_cache-IsWf _ (get_cache g) (λ c u. delete-IsMap key c.items u) (get_cache-IsWf g wf)

  pub clear-IsWf : (g : Globals V) → IsWf g → IsWf (clear g)
  unfolding clear
  clear-IsWf g wf = on_cache-IsWf _ (get_cache g) (λ c u. tt) (get_cache-IsWf g wf)

  pub get-IsWf : (now : ℤ) (k : String) (g : Globals V) → IsWf g → IsWf (get now k g).0
  unfolding get
  get-IsWf now k g wf = get_cache-IsWf g wf

  pub tick-IsWf : (now : ℤ) (g : Globals V) → IsWf g → IsWf (tick now g)
  unfolding tick
  tick-IsWf now g wf = on_cache-IsWf _ g (λ c u. ground (arith, sweep-IsMap now c.items u)) wf
