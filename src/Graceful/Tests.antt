-- ===== src/Graceful/Tests.antt =====
-- Runs of graceful.go, and an example of each result about it.
use mathlib.Core.List.{Perm}
use go_utility.Base.{ℕ, String, false, Option, none, some, List, [], ◌∷◌, map, refl, inl}
use go_utility.Graceful.{Task, Execution, launch, answer, finish, Reach, here, next}
use go_utility.Graceful.Once.{Call, registers, executes, Returns-answers}

abbrev closes : ℕ → Option String
closes ctx = none

abbrev fails : ℕ → Option String
fails ctx = some "busy"

abbrev calls : List (Call ℕ String)
calls = registers "db" closes ∷ executes ∷ executes ∷ registers "cache" fails ∷ []

abbrev db : Task ℕ String
db = record { name = "db"; cleanup = closes }

abbrev cache : Task ℕ String
cache = record { name = "cache"; cleanup = fails }

abbrev stopped : Execution ℕ String
stopped = record {
  running = [];
  ended = ("cache", some "busy") ∷ ("db", none) ∷ [];
  expired = false;
}

-- The second task ends first.
stops : Reach 0 (launch (db ∷ cache ∷ [])).1 stopped
unfolding launch
stops = next (next here (finish cache (db ∷ []) [] refl refl)) (finish db [] [] refl refl)

Returns-answers_example : Perm stopped.ended (map (answer 0) (db ∷ cache ∷ []))
Returns-answers_example = Returns-answers 0 (db ∷ cache ∷ []) stops (inl refl) refl
