-- ===== src/LocalCache/Lifecycle.antt =====
-- `Init`, `getCache`, `StopCleanup` and the cleanup goroutine's life; the number of items.
use go_utility.Base.{
  ℕ, ◌+◌, ◌≤◌, String, true, false, ◌≡◌, refl, none, some, List, [], ◌∷◌, arith, inl, inr, length,
  if◌then◌else◌, string_eq,
}
use go_utility.Base.Int.{ℤ}
use go_utility.LocalCache.{
  Item, LocalCache, Globals, init, get_cache, is_expired, sweep, stop_cleanup, tick, halt,
}
use go_utility.LocalCache.State.{IsWf, IsWf-cases}

module _ {V : Type 0} where
  -- The first `Init` decides: a second one changes nothing, and neither does an `Init` after a call
  -- that has made the default cache.
  pub init_once :
      (freq later : ℤ) (g : Globals V)
      → IsWf g
      → (init later (init freq g) ≡ init freq g) × (init later (get_cache g) ≡ get_cache g)
  unfolding init get_cache
  init_once freq later g wf = elim (IsWf-cases g wf) [
    | inl (f, e) ↦ ground arith
    | inr (c, t, e, u) ↦ ground arith
  ]

  -- Once the cache exists, `StopCleanup` succeeds the first time, after which the goroutine ends at
  -- its next round and no tick changes anything; a second `StopCleanup` panics. With no cache it
  -- does nothing.
  pub stop_cleanup_lem :
      (g : Globals V) (c : LocalCache V)
      → g.cache ≡ some c
      → c.stop_closed ≡ false
      → (g' : Globals V) × (stop_cleanup g ≡ some g')
        × (stop_cleanup g' ≡ none)
        × ((now : ℤ) → tick now (halt g') ≡ halt g')
  unfolding stop_cleanup tick halt
  stop_cleanup_lem g c e s = (
    record { cache = some (record c { stop_closed = true }); once = g.once },
    ground arith,
    refl,
    λ now. refl,
  )

  -- The number of the items that a read at that time would return.
  unfoldable pub live : ℤ → List (String × Item V) → ℕ
  live now [] = 0
  live now ((k, item) ∷ m) = if is_expired now item then live now m else live now m + 1

  -- A sweep leaves just the items that have not expired, so `Length` then counts those; before it
  -- `Length` may count more.
  pub length-sweep :
      (now : ℤ) (m : List (String × Item V))
      → (length (sweep now m) ≡ live now m) × (live now m ≤ length m)
  unfolding sweep live
  length-sweep now [] = (refl, omega arith)
  length-sweep now ((k, item) ∷ m) = ground (arith, (length-sweep now m).0, (length-sweep now m).1)
