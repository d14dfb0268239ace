-- ===== src/Cron/Tests.antt =====
-- Runs of the scheduler, and an example of each result about it.
use go_utility.Base.{
  ℕ, suc, String, ◌≡◌, refl, Option, none, some, List, [], ◌∷◌, string_eq, ◌==◌, if◌then◌else◌,
  arith,
}
use go_utility.Cron.{Handler, execute_handlers, Slice, elements, starting, failed, run_job}
use go_utility.Cron.Chains.{IsSlice, register_all, chains, register_all-asked}
use go_utility.Cron.Shared.{call, register_shared}

abbrev add_func : String → ℕ × Option String
add_func p = if p == "bad" then (0, some "expected 5 fields") else (1, none)

-- Handlers are told by numbers: one array of two middlewares with room for a third handler.
abbrev arrays : List (List ℕ)
arrays = (1 ∷ 2 ∷ []) ∷ []

abbrev roomy : Slice
roomy = record { array = 0; offset = 0; len = 2; capacity = 3 }

abbrev tight : Slice
tight = record { array = 0; offset = 0; len = 2; capacity = 2 }

-- A handler that fails ends the chain, and its job is logged as failed.
abbrev count : Handler ℕ String
count s = (none, suc s)

abbrev fails : Handler ℕ String
fails s = (some "no", s)

run_fails :
    run_job
      (record { store = (count ∷ fails ∷ count ∷ []) ∷ []; jobs = [] })
      (record {
        pattern = "* * * * *";
        all_handlers = record { array = 0; offset = 0; len = 3; capacity = 3 };
      })
      0
    ≡ (starting "* * * * *" ∷ failed "* * * * *" "no" ∷ [], 1)
unfolding run_job execute_handlers elements
run_fails = refl

register_all-asked_example :
    (let s =
        register_all add_func
          ((1, call "a" 10 tight) ∷ (0, call "bad" 20 tight) ∷ (0, call "b" 30 tight) ∷ [])
          (record { store = arrays; jobs = [] }) in
      chains s.store s.jobs)
    ≡ ("a", 1 ∷ 2 ∷ 10 ∷ []) ∷ ("b", 1 ∷ 2 ∷ 30 ∷ []) ∷ []
unfolding elements IsSlice
register_all-asked_example =
    register_all-asked add_func arrays
      ((1, call "a" 10 tight) ∷ (0, call "bad" 20 tight) ∷ (0, call "b" 30 tight) ∷ [])
      ((refl, refl), ((refl, refl), ((refl, refl), tt)))

register_shared_example :
    (let s =
        register_all add_func
          ((1, call "a" 10 roomy) ∷ (0, call "b" 30 roomy) ∷ [])
          (record { store = arrays; jobs = [] }) in
      chains s.store s.jobs)
    ≡ ("a", 1 ∷ 2 ∷ 30 ∷ []) ∷ ("b", 1 ∷ 2 ∷ 30 ∷ []) ∷ []
unfolding elements
register_shared_example =
    register_shared add_func arrays 1 0 roomy "a" "b" 10 30 (omega arith, omega arith, omega arith)
      refl refl
