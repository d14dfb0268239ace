-- ===== src/Cron.antt =====
-- v2/cronw/cron.go: the chains of handlers of scheduled jobs. A slice of Go is a view of an array, which
-- other slices may share, so the arrays of handlers are a store.
pub mod Chains
pub mod Shared
mod Tests
use go_utility.Base.{
  ℕ, zero, suc, ◌+◌, String, Bool, true, false, Option, none, some, List, [], ◌∷◌, ◌++◌, length,
  get_elem?, set, ltb, if◌then◌else◌,
}
use go_utility.Base.Text.{take, drop}

-- A handler changes the state `S` of the program; its context is the empty one.
abbrev pub Handler : Type 0 → Type 0 → Type 0
Handler S E = S → Option E × S

module _ {S E : Type 0} where
  abbrev pub then_run : (S → Option E × S) → Option E × S → Option E × S
  then_run rest (some e, s) = (some e, s)
  then_run rest (none, s) = rest s

  -- `ExecuteHandlers`: the first error ends the chain.
  unfoldable pub execute_handlers : List (Handler S E) → Handler S E
  execute_handlers [] s = (none, s)
  execute_handlers (h ∷ hs) s = then_run (execute_handlers hs) (h s)

-- A slice: its array in the store, where it begins there, its length and its capacity.
pub record Slice : Type 0 where
  pub array : ℕ
  pub offset : ℕ
  pub len : ℕ
  pub capacity : ℕ

module _ {ℓ} {H : Type ℓ} where
  -- The elements of an array that is told by a number; there is no such array past the end.
  abbrev pub cells : List (List H) → ℕ → List H
  cells store a = elim (get_elem? store a) [ none ↦ [] | some c ↦ c ]

  unfoldable pub elements : List (List H) → Slice → List H
  elements store s = take s.len (drop s.offset (cells store s.array))

  -- Writes to a cell of an array, or to the first one that nothing was written to.
  abbrev pub put : ℕ → H → List H → List H
  put i h [] = h ∷ []
  put zero h (c ∷ cs) = h ∷ cs
  put (suc i) h (c ∷ cs) = c ∷ put i h cs

  -- `append` of one element: it writes to the array of the slice where there is room, and else makes
  -- an array with `spare` free cells, which is up to Go.
  unfoldable pub append : ℕ → Slice → H → List (List H) → Slice × List (List H)
  unfolding elements
  append spare s h store =
      if ltb s.len s.capacity
      then (
        record { array = s.array; offset = s.offset; len = suc s.len; capacity = s.capacity },
        set store s.array (put (s.offset + s.len) h (cells store s.array)),
      )
      else (
        record {
          array = length store;
          offset = 0;
          len = suc s.len;
          capacity = suc (s.len + spare);
        },
        store ++ (elements store s ++ h ∷ []) ∷ [],
      )

-- A job of the cron engine: its pattern, and the slice that its closure has captured.
pub record Job : Type 0 where
  pub pattern : String
  pub all_handlers : Slice

-- The arrays, and the jobs of the engine, the first one first.
pub record Scheduler (H : Type 0) : Type 0 where
  pub store : List (List H)
  pub jobs : List Job

-- A call of `Register`.
pub record Call (H : Type 0) : Type 0 where
  pub pattern : String
  pub handler : H
  pub middlewares : Slice

module _ {H E : Type 0} where
  -- `Register`. `add_func` is what the engine's `AddFunc` answers for a pattern, an identifier or an error.
  unfoldable pub register :
      (String → ℕ × Option E) → ℕ → Call H → Scheduler H → (ℕ × Option E) × Scheduler H
  unfolding append
  register add_func spare c s =
      let (all_handlers, store) = append spare c.middlewares c.handler s.store in
      let (id, err) = add_func c.pattern in
      elim err [
        | some e ↦ ((0, some e), record { store = store; jobs = s.jobs })
        | none ↦ (
          (id, none),
          record {
            store = store;
            jobs = s.jobs ++ record { pattern = c.pattern; all_handlers = all_handlers } ∷ [];
          },
        )
      ]

pub data Log (E : Type 0) : Type 0 where
  starting completed : String → Log E
  failed : String → E → Log E

module _ {S E : Type 0} where
  -- What the engine runs for a job: the chain is read from the array when it runs.
  unfoldable pub run_job : Scheduler (Handler S E) → Job → S → List (Log E) × S
  unfolding execute_handlers elements
  run_job s j st =
      let (err, st') = execute_handlers (elements s.store j.all_handlers) st in
      (
        starting j.pattern
            ∷ (elim err [ none ↦ completed j.pattern | some e ↦ failed j.pattern e ])
            ∷ [],
        st',
      )
