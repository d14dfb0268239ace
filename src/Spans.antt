-- ===== src/Spans.antt =====
-- v2/spanw/spanw.go: the chain of the functions that a context has been through, and the metrics
-- of each. The names of functions come from `runtime`.
pub mod Chains
mod Tests
use go_utility.Base.{
  ℕ, ◌-◌, String, Bool, true, false, not, ◌&&◌, Option, none, some, List, [], ◌∷◌, ◌++◌, map,
  if◌then◌else◌,
}

-- The values put into a context, the last one first.
pub data Entry : Type 0 where
  chain : List String → Entry
  process_time : ℕ → Entry
  other : Entry

abbrev pub Context : Type 0
Context = List Entry

-- `globalConfig`, of which only the switch matters, and `globalMetrics`.
pub record Globals (M : Type 0) : Type 0 where
  pub enabled : Option Bool
  pub metrics : List M

module _ {M : Type 0} where
  -- `Init`: no configuration is one that is switched on.
  abbrev pub init : Option Bool → List M → Globals M
  init none metrics = record { enabled = some true; metrics = metrics }
  init (some b) metrics = record { enabled = some b; metrics = metrics }

  -- Without `Init`, spans are on and there are no metrics.
  abbrev pub uninitialized : Globals M
  uninitialized = record { enabled = none; metrics = [] }

  abbrev pub is_disabled : Globals M → Bool
  is_disabled g = elim g.enabled [ none ↦ false | some b ↦ not b ]

-- `GetChain`; a nil context, or one without a chain, has none.
unfoldable pub get_chain : Context → List String
get_chain [] = []
get_chain (Entry.chain names ∷ ctx) = names
get_chain (_ ∷ ctx) = get_chain ctx

unfoldable pub get_total_process_time : Context → ℕ
get_total_process_time [] = 0
get_total_process_time (Entry.process_time d ∷ ctx) = d
get_total_process_time (_ ∷ ctx) = get_total_process_time ctx

abbrev pub last_or_empty : List String → String
last_or_empty [] = ""
last_or_empty (x ∷ []) = x
last_or_empty (x ∷ xs) = last_or_empty xs

unfoldable pub get_current_func : Context → String
unfolding get_chain
get_current_func ctx = last_or_empty (get_chain ctx)

-- What a metric is called with.
pub record Call (M : Type 0) : Type 0 where
  pub metric : M
  pub ctx : Context
  pub func_name : String
  pub duration : ℕ

module _ {M : Type 0} where
  -- The context of `Start`.
  unfoldable pub start : Globals M → Context → String → Context
  unfolding get_chain
  start g ctx func_name =
      if is_disabled g then ctx else Entry.chain (get_chain ctx ++ func_name ∷ []) ∷ ctx

  -- The call of a metric at the end of a span that took some time.
  unfoldable pub call_of : Globals M → Context → String → ℕ → M → Call M
  unfolding start
  call_of g ctx func_name duration m = record {
    metric = m;
    ctx = Entry.process_time duration ∷ start g ctx func_name;
    func_name = func_name;
    duration = duration;
  }

  -- The closure of `Start`, given the clock at the start and at the end, which is monotonic: the
  -- calls of the metrics, in their order.
  unfoldable pub finish : Globals M → Context → String → ℕ → ℕ → List (Call M)
  finish g ctx func_name started now =
      if is_disabled g then [] else map (call_of g ctx func_name (now - started)) g.metrics
