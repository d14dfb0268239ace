-- ===== src/NoSql/Transparent.antt =====
-- no-sql: what a program gets from calls that are logged, and from those that are not.
use go_utility.Base.{
  ℕ, ◌≡◌, refl, sym, ap, Bool, true, false, Option, none, some, List, [], ◌∷◌, map, Bool-cases, inl,
  inr, leb, if◌then◌else◌,
}
use go_utility.Logw.{Level, error, info, warn}
use go_utility.NoSql.{redisw, elasticw, Context, logs, Line}
use go_utility.NoSql.Elastic.{
  Body, restored, Request, Outcome, responded, broken, Text, exchange_line, logged, unlogged,
  round_trip,
}
use go_utility.NoSql.Redis.{
  RedisError, redis_nil, failure, line_of, process_hook, process_pipeline_hook, pipeline_text,
}

-- A body that can be read to its end, or none.
abbrev pub IsWhole : {E : Type 0} → Option (Body E) → Type 0
IsWhole {E} none = Path (Option E) none none
IsWhole (some b) = b.read_error ≡ none

abbrev pub Answers : {E : Type 0} → Outcome E → Type 0
Answers {E} (broken e) = Path (Option E) none none
Answers (responded res) = IsWhole res.body

restored_whole : {E : Type 0} (b : Option (Body E)) → IsWhole b → restored b ≡ b
restored_whole none h = refl
restored_whole (some b) h = ap (λ e. some (record { content = b.content; read_error = e })) (sym h)

-- The level of the line for an outcome.
abbrev pub level_for : {E : Type 0} → Outcome E → Level
level_for (broken e) = error
level_for (responded res) = if leb 400 res.status_code then warn else info

module _ {S E : Type 0} where
  logged_same :
      (req : Request E) (o : Outcome E) (s : S)
      → Answers o
      → ((logged req (o, s)).0 ≡ o)
        × (map (λ l. l.level) (logged req (o, s)).1 ≡ level_for o ∷ [])
        × ((logged req (o, s)).2 ≡ s)
  unfolding logged exchange_line
  logged_same req (broken e) s h = (refl, refl, refl)
  logged_same req (responded res) s h = (
    ap (λ b. responded (record { status_code = res.status_code; body = b }))
        (restored_whole res.body h),
    refl,
    refl,
  )

  -- The transport, by whether the call is logged.
  abbrev by_logging : Bool → Request E → Outcome E × S → Outcome E × List (Line (Text E)) × S
  by_logging true req p = logged req p
  by_logging false req p = unlogged p

  by_logging_lem :
      (on global_debug : Bool) (base : Request E → S → Outcome E × S) (ctx : Context)
      (req : Request E) (s : S)
      → IsWhole req.body
      → logs elasticw global_debug ctx ≡ on
      → round_trip global_debug base ctx req s ≡ by_logging on req (base req s)
  unfolding round_trip
  by_logging_lem true global_debug base ctx req s whole h =
      rw (round_trip, h)
        (ap (λ b. logged req (base (record { target = req.target; body = b }) s))
          (restored_whole req.body whole))
  by_logging_lem false global_debug base ctx req s whole h = rw (round_trip, h) refl

  by_logging_same :
      (on : Bool) (req : Request E) (o : Outcome E) (s : S)
      → Answers o
      → let (o', lines, s') = by_logging on req (o, s) in
        (o' ≡ o) × (s' ≡ s) × (map (λ l. l.level) lines ≡ (if on then level_for o ∷ [] else []))
  by_logging_same true req o s h =
      let (same, level, state) = logged_same req o s h in (same, state, level)
  by_logging_same false req o s h = (refl, refl, refl)

  -- The transport of elasticw, for a request whose body can be read and a base transport that answers it
  -- with a body that can be read: with and without debugging the outcome and the state of the program
  -- are those of the base transport. With debugging there is one line, a warning from status 400 on and
  -- an error when the base transport fails; without, there is none.
  pub round_trip-base :
      (global_debug : Bool) (base : Request E → S → Outcome E × S) (ctx : Context) (req : Request E)
      (s : S)
      → IsWhole req.body
      → Answers (base req s).0
      → let (o, lines, s') = round_trip global_debug base ctx req s in
        (o ≡ (base req s).0)
        × (s' ≡ (base req s).1)
        × (map (λ l. l.level) lines
            ≡ (if logs elasticw global_debug ctx then level_for (base req s).0 ∷ [] else []))
  round_trip-base global_debug base ctx req s whole answers =
      rw (by_logging_lem (logs elasticw global_debug ctx) global_debug base ctx req s whole refl)
        (by_logging_same (logs elasticw global_debug ctx) req (base req s).0 (base req s).1 answers)

-- A missing key is no failure.
abbrev pub redis_level : {E : Type 0} → Option (RedisError E) → Level
redis_level (some (failure e)) = error
redis_level _ = info

line_level :
    {E : Type 0} (cmd : List ℕ) (err : Option (RedisError E))
    → (line_of cmd err).level ≡ redis_level err
line_level cmd none = refl
line_level cmd (some redis_nil) = refl
line_level cmd (some (failure e)) = refl

-- Both hooks of redisw return the error of the command or the pipeline, whether they log or not, and
-- leave the program in the state in which it leaves it. They log at most one line, when debugging is on
-- in the configuration or in the context: an error for an error other than `redis.Nil`, else an info.
pub process_hook-next :
    {S E C : Type 0} (text : C → List ℕ) (global_debug : Bool) (ctx : Context)
    (next : C → S → Option (RedisError E) × S) (next_all : List C → S → Option (RedisError E) × S)
    (cmd : C) (cmds : List C) (s : S)
    → let (err, lines, s') = process_hook text global_debug next ctx cmd s in
      let (err_all, lines_all, s_all) =
        process_pipeline_hook text global_debug next_all ctx cmds s in
      ((err, s') ≡ next cmd s)
      × (map (λ l. l.level) lines
          ≡ (if logs redisw global_debug ctx then redis_level (next cmd s).0 ∷ [] else []))
      × ((err_all, s_all) ≡ next_all cmds s)
      × (map (λ l. l.level) lines_all
          ≡ (if logs redisw global_debug ctx then redis_level (next_all cmds s).0 ∷ [] else []))
unfolding process_hook process_pipeline_hook
process_hook-next text global_debug ctx next next_all cmd cmds s =
    elim (Bool-cases (logs redisw global_debug ctx)) [
      | inl on ↦
          rw (process_hook, process_pipeline_hook, on)
            (
              refl,
              ap (λ l. l ∷ []) (line_level (text cmd) (next cmd s).0),
              refl,
              ap (λ l. l ∷ []) (line_level (pipeline_text text cmds) (next_all cmds s).0),
            )
      | inr off ↦ rw (process_hook, process_pipeline_hook, off) (refl, refl, refl, refl)
    ]
