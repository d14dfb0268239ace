-- ===== src/NoSql/Redis.antt =====
-- v2/no-sql/redisw/redis.go: the hooks around Redis commands.
use go_utility.Base.{Bool, true, false, Option, none, some, List, [], ◌∷◌, ◌++◌, if◌then◌else◌}
use go_utility.Base.Text.{codes}
use go_utility.Base.{ℕ}
use go_utility.Logw.{error, info}
use go_utility.NoSql.{Context, redisw, logs, Line}

-- `redis.Nil` says that a key is missing; other errors are failures.
pub data RedisError (E : Type 0) : Type 0 where
  redis_nil : RedisError E
  failure : E → RedisError E

pub data Text (E : Type 0) : Type 0 where
  ran : List ℕ → Text E
  failed : List ℕ → E → Text E

module _ {E : Type 0} where
  -- The line for commands, whose text is given, and their error.
  abbrev pub line_of : List ℕ → Option (RedisError E) → Line (Text E)
  line_of cmd none = record { level = info; text = ran cmd }
  line_of cmd (some redis_nil) = record { level = info; text = ran cmd }
  line_of cmd (some (failure e)) = record { level = error; text = failed cmd e }

-- The loop that writes the commands of a pipeline one after the other.
unfoldable pub join_from : {C : Type 0} → (C → List ℕ) → Bool → List C → List ℕ
join_from text first [] = []
join_from text true (c ∷ cmds) = text c ++ join_from text false cmds
join_from text false (c ∷ cmds) = codes ", " ++ text c ++ join_from text false cmds

unfoldable pub pipeline_text : {C : Type 0} → (C → List ℕ) → List C → List ℕ
unfolding join_from
pipeline_text text cmds = codes "[" ++ join_from text true cmds ++ codes "]"

module _ {S E : Type 0} where
  -- `ProcessHook`, for a command `C` with its `String()`: the error, the lines, and the state.
  unfoldable pub process_hook :
      {C : Type 0}
      → (C → List ℕ)
      → Bool
      → (C → S → Option (RedisError E) × S)
      → Context
      → C
      → S
      → Option (RedisError E) × List (Line (Text E)) × S
  unfolding logs
  process_hook text global_debug next ctx cmd s =
      let (err, s') = next cmd s in
      if logs redisw global_debug ctx then (err, line_of (text cmd) err ∷ [], s') else (err, [], s')

  -- `ProcessPipelineHook`
  unfoldable pub process_pipeline_hook :
      {C : Type 0}
      → (C → List ℕ)
      → Bool
      → (List C → S → Option (RedisError E) × S)
      → Context
      → List C
      → S
      → Option (RedisError E) × List (Line (Text E)) × S
  unfolding logs pipeline_text
  process_pipeline_hook text global_debug next ctx cmds s =
      let (err, s') = next cmds s in
      if logs redisw global_debug ctx
      then (err, line_of (pipeline_text text cmds) err ∷ [], s')
      else (err, [], s')
