-- ===== src/LocalCache/Cleanup.antt =====
-- cache.go: the calls whose answers do not depend on when the background sweeps run, which are all but
-- Length.
use go_utility.Base.{
  Bool, true, false, some, String, ◌≡◌, refl, Option, none, List, [], ◌∷◌, arith, string_eq, ap,
  ◌∙◌, sym,
}
use go_utility.Base.Int.{ℤ, ◌≤ℤ◌}
use go_utility.LocalCache.{
  SetOption, Globals, set_kv, fetch, get, is_key_exists, length_of, delete_key, clear, tick,
  get_cache,
}
use go_utility.LocalCache.State.{
  IsWf, items_of, fetch-sweep, get-items, get_cache-items, get_cache-IsWf, set_kv-IsWf,
  delete_key-IsWf, clear-IsWf, get-IsWf, tick-IsWf, items_of-IsMap,
}
use go_utility.LocalCache.Expiry.{get-set_kv, get-delete_key}

-- What reaches the cache, the rounds of the cleanup goroutine among it.
pub data Call (V : Type 0) : Type 0 where
  set : String → V → List SetOption → Call V
  read : String → Call V
  exists : String → Call V
  count : Call V
  remove : String → Call V
  wipe : Call V
  sweep : Call V

-- The answers of Get and IsKeyExists. That of Length is left out, since a sweep changes it.
pub data Answer (V : Type 0) : Type 0 where
  found : Option V → Answer V
  present : Bool → Answer V
  nothing : Answer V

module _ {V : Type 0} where
  perform : ℤ → Call V → Globals V → Globals V × Answer V
  perform now (set k v opts) g = (set_kv now k v opts g, nothing)
  perform now (read k) g = let (g', r) = get now k g in (g', found r)
  perform now (exists k) g = let (g', b) = is_key_exists now k g in (g', present b)
  perform now count g = ((length_of g).0, nothing)
  perform now (remove k) g = (delete_key k g, nothing)
  perform now wipe g = (clear g, nothing)
  perform now sweep g = (tick now g, nothing)

  -- The answers of the calls, the sweeps left out.
  unfoldable pub answers : List (ℤ × Call V) → Globals V → List (Answer V)
  unfolding perform
  answers [] g = []
  answers ((now, sweep) ∷ calls) g = answers calls (perform now sweep g).0
  answers ((now, c) ∷ calls) g = let (g', r) = perform now c g in r ∷ answers calls g'

  unfoldable pub without_sweeps : List (ℤ × Call V) → List (ℤ × Call V)
  without_sweeps [] = []
  without_sweeps ((now, sweep) ∷ calls) = without_sweeps calls
  without_sweeps ((now, c) ∷ calls) = (now, c) ∷ without_sweeps calls

  -- The clock does not go back.
  abbrev pub IsOrdered : ℤ → List (ℤ × Call V) → Type 0
  IsOrdered t [] = Unit
  IsOrdered t ((now, c) ∷ calls) = (t ≤ℤ now) × IsOrdered now calls

  -- Two states that every read from now on finds alike.
  record Agree (t : ℤ) (g g' : Globals V) : Type 0 where
    wf : IsWf g
    wf' : IsWf g'
    alike : (later : ℤ) (k : String) → t ≤ℤ later → (get later k g).1 ≡ (get later k g').1

  get-tick :
      (now later : ℤ) (k : String) (g : Globals V)
      → IsWf g
      → now ≤ℤ later
      → (get later k (tick now g)).1 ≡ (get later k g).1
  unfolding tick
  get-tick now later k g wf h = ground (
    arith,
    get-items later k (tick now g) (tick-IsWf now g wf),
    get-items later k g wf,
    fetch-sweep now later k (items_of g) (items_of-IsMap g wf) h,
  )

  get-get :
      (now later : ℤ) (key k : String) (g : Globals V)
      → IsWf g
      → (get later k (get now key g).0).1 ≡ (get later k g).1
  unfolding get
  get-get now later key k g wf =
      get-items later k (get_cache g) (get_cache-IsWf g wf)
      ∙ ap (fetch later k) (get_cache-items g wf)
      ∙ sym (get-items later k g wf)

  Agree-sweep : (t now : ℤ) (g g' : Globals V) → t ≤ℤ now → Agree t g g' → Agree now (tick now g) g'
  Agree-sweep t now g g' h a = record {
    wf = tick-IsWf now g a.wf;
    wf' = a.wf';
    alike = λ later k p. get-tick now later k g a.wf p ∙ a.alike later k (omega arith);
  }

  Agree-get_cache :
      (t now : ℤ) (g g' : Globals V)
      → t ≤ℤ now
      → Agree t g g'
      → Agree now (get_cache g) (get_cache g')
  unfolding get
  Agree-get_cache t now g g' h a = record {
    wf = get_cache-IsWf g a.wf;
    wf' = get_cache-IsWf g' a.wf';
    alike = λ later k p.
        get-get now later k k g a.wf
        ∙ a.alike later k (omega arith)
        ∙ sym (get-get now later k k g' a.wf');
  }

  Agree-perform :
      (t now : ℤ) (c : Call V) (g g' : Globals V)
      → t ≤ℤ now
      → Agree t g g'
      → Agree now (perform now c g).0 (perform now c g').0
        × ((perform now c g).1 ≡ (perform now c g').1)
  unfolding perform is_key_exists length_of get
  Agree-perform t now (set key v opts) g g' h a = (
    record {
      wf = set_kv-IsWf now key v opts g a.wf;
      wf' = set_kv-IsWf now key v opts g' a.wf';
      alike = λ later k p. ground (
        arith,
        get-set_kv now later key k v opts g a.wf,
        get-set_kv now later key k v opts g' a.wf',
        a.alike later k (omega arith),
      );
    },
    refl,
  )
  Agree-perform t now (read key) g g' h a = (
    record {
      wf = get-IsWf now key g a.wf;
      wf' = get-IsWf now key g' a.wf';
      alike = λ later k p. ground (
        arith,
        get-get now later key k g a.wf,
        get-get now later key k g' a.wf',
        a.alike later k (omega arith),
      );
    },
    ap found (a.alike now key h),
  )
  Agree-perform t now (exists key) g g' h a = (
    Agree-get_cache t now g g' h a,
    ap (λ o. present (elim o [ none ↦ false | some v ↦ true ])) (a.alike now key h),
  )
  Agree-perform t now count g g' h a = (Agree-get_cache t now g g' h a, refl)
  Agree-perform t now (remove key) g g' h a = (
    record {
      wf = delete_key-IsWf key g a.wf;
      wf' = delete_key-IsWf key g' a.wf';
      alike = λ later k p. ground (
        arith,
        get-delete_key later key k g a.wf,
        get-delete_key later key k g' a.wf',
        a.alike later k (omega arith),
      );
    },
    refl,
  )
  Agree-perform t now wipe g g' h a = (
    record {
      wf = clear-IsWf g a.wf;
      wf' = clear-IsWf g' a.wf';
      alike = λ later k p.
          (get-delete_key later k k g a.wf).1 ∙ sym (get-delete_key later k k g' a.wf').1;
    },
    refl,
  )
  Agree-perform t now sweep g g' h a = (
    record {
      wf = tick-IsWf now g a.wf;
      wf' = tick-IsWf now g' a.wf';
      alike = λ later k p.
          get-tick now later k g a.wf p
          ∙ a.alike later k (omega arith)
          ∙ sym (get-tick now later k g' a.wf' p);
    },
    refl,
  )

  answers-Agree :
      (calls : List (ℤ × Call V)) (t : ℤ) (g g' : Globals V)
      → IsOrdered t calls
      → Agree t g g'
      → answers calls g ≡ answers (without_sweeps calls) g'
  unfolding answers without_sweeps
  answers-Agree [] t g g' o a = refl
  answers-Agree ((now, sweep) ∷ calls) t g g' (h, o) a =
      answers-Agree calls now _ g' o (Agree-sweep t now g g' h a)
  answers-Agree ((now, c) ∷ calls) t g g' (h, o) a =
      let (next, same) = Agree-perform t now c g g' h a in
      cc (same, answers-Agree calls now _ _ o next)

  -- However the sweeps of the cleanup goroutine fall between calls of SetKV, Get, IsKeyExists, Length,
  -- DeleteKey and Clear, every Get and every IsKeyExists answers as it would with no sweep at all,
  -- provided that the clock does not go back. What Length answers is not part of this.
  pub answers-without_sweeps :
      (calls : List (ℤ × Call V)) (t : ℤ) (g : Globals V)
      → IsWf g
      → IsOrdered t calls
      → answers calls g ≡ answers (without_sweeps calls) g
  answers-without_sweeps calls t g wf o =
      answers-Agree calls t g g o (record { wf = wf; wf' = wf; alike = λ later k p. refl })
