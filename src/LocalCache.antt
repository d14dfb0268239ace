-- ===== src/LocalCache.antt =====
-- v2/localcachew/cache.go: the process-wide cache with expiring items. A call takes the clock's
-- reading, `time.Now().UnixNano()`, as its argument `now`.
pub mod State
pub mod Expiry
pub mod Cleanup
pub mod Lifecycle
mod Tests
use go_utility.Base.{
  ℕ, zero, suc, String, Bool, true, false, ◌&&◌, Option, none, some, List, [], ◌∷◌, length, lookup,
  insert, delete, if◌then◌else◌, string_eq,
}
use go_utility.Base.Int.{ℤ, pos, ◌+ℤ◌, ltb_ℤ, to_int64}

pub record Item (V : Type 0) : Type 0 where
  pub value : V
  pub expiration : ℤ  -- int64 nanoseconds; 0 means that the item never expires

pub record SetConfig : Type 0 where
  pub ttl : ℤ

-- `Option`, a change of the configuration.
abbrev pub SetOption : Type 0
SetOption = SetConfig → SetConfig

unfoldable pub with_ttl : ℤ → SetOption
with_ttl ttl c = record c { ttl = ttl }

-- `localCache`. `cleaning` says that the goroutine of `startBackgroundCleanup` runs, and
-- `stop_closed` that the channel `stopCleanup` is closed.
pub record LocalCache (V : Type 0) : Type 0 where
  pub items : List (String × Item V)
  pub cleanup_freq : ℤ
  pub cleaning : Bool
  pub stop_closed : Bool

-- The package's variables `globalCache` and `initOnce`.
pub record Globals (V : Type 0) : Type 0 where
  pub cache : Option (LocalCache V)
  pub once : Bool

abbrev pub empty_cache : {V : Type 0} → ℤ → LocalCache V
empty_cache freq = record {
  items = [];
  cleanup_freq = freq;
  cleaning = ltb_ℤ (pos 0) freq;
  stop_closed = false;
}

-- `Init`: only the first call does anything.
unfoldable pub init : {V : Type 0} → ℤ → Globals V → Globals V
init freq g = if g.once then g else record { cache = some (empty_cache freq); once = true }

-- 5 * time.Minute
abbrev pub default_freq : ℤ
default_freq = pos 300000000000

-- `getCache` returns `globalCache` after the check; `none` would be a nil pointer.
unfoldable pub get_cache : {V : Type 0} → Globals V → Globals V
unfolding init
get_cache g = elim (g.cache) [ none ↦ init default_freq g | some c ↦ g ]

-- `item.Expiration > 0 && now > item.Expiration`
unfoldable pub is_expired : {V : Type 0} → ℤ → Item V → Bool
is_expired now item = ltb_ℤ (pos 0) item.expiration && ltb_ℤ item.expiration now

-- The loop of `deleteExpired`.
unfoldable pub sweep : {V : Type 0} → ℤ → List (String × Item V) → List (String × Item V)
sweep now [] = []
sweep now ((k, item) ∷ m) = if is_expired now item then sweep now m else (k, item) ∷ sweep now m

unfoldable pub delete_expired : {V : Type 0} → ℤ → LocalCache V → LocalCache V
unfolding sweep
delete_expired now c = record c { items = sweep now c.items }

unfoldable pub configure : List SetOption → SetConfig → SetConfig
configure [] c = c
configure (opt ∷ opts) c = configure opts (opt c)

-- The expiration that `SetKV` computes: UnixNano of the reading plus the TTL, an int64.
unfoldable pub expiration_of : ℤ → SetConfig → ℤ
expiration_of now c = if ltb_ℤ (pos 0) c.ttl then to_int64 (now +ℤ c.ttl) else pos 0

abbrev pub on_cache : {V : Type 0} → (LocalCache V → LocalCache V) → Globals V → Globals V
on_cache f g = elim (g.cache) [ none ↦ g | some c ↦ record g { cache = some (f c) } ]

unfoldable pub set_kv : {V : Type 0} → ℤ → String → V → List SetOption → Globals V → Globals V
unfolding get_cache configure expiration_of
set_kv now key value opts g =
    let exp = expiration_of now (configure opts (record { ttl = pos 0 })) in
    on_cache
      (λ c. record c { items = insert key (record { value = value; expiration = exp }) c.items })
      (get_cache g)

-- The read of `Get` on the items; `none` is `ErrKeyNotFound`.
unfoldable pub fetch : {V : Type 0} → ℤ → String → List (String × Item V) → Option V
unfolding is_expired
fetch now key m = elim (lookup key m) [
  | none ↦ none
  | some item ↦ if is_expired now item then none else some item.value
]

unfoldable pub get : {V : Type 0} → ℤ → String → Globals V → Globals V × Option V
unfolding get_cache fetch
get now key g =
    let g' = get_cache g in (g', elim (g'.cache) [ none ↦ none | some c ↦ fetch now key c.items ])

unfoldable pub is_key_exists : {V : Type 0} → ℤ → String → Globals V → Globals V × Bool
unfolding get
is_key_exists now key g =
    let (g', r) = get now key g in (g', elim r [ none ↦ false | some v ↦ true ])

unfoldable pub delete_key : {V : Type 0} → String → Globals V → Globals V
unfolding get_cache
delete_key key g = on_cache (λ c. record c { items = delete key c.items }) (get_cache g)

unfoldable pub length_of : {V : Type 0} → Globals V → Globals V × ℕ
unfolding get_cache
length_of g = let g' = get_cache g in (g', elim (g'.cache) [ none ↦ 0 | some c ↦ length c.items ])

unfoldable pub clear : {V : Type 0} → Globals V → Globals V
unfolding get_cache
clear g = on_cache (λ c. record c { items = [] }) (get_cache g)

-- `StopCleanup`; `none` is the panic of closing a closed channel.
unfoldable pub stop_cleanup : {V : Type 0} → Globals V → Option (Globals V)
stop_cleanup g = elim (g.cache) [
  | none ↦ some g
  | some c ↦
      if c.stop_closed
      then none
      else some (record g { cache = some (record c { stop_closed = true }) })
]

-- One round of `startBackgroundCleanup`: a tick sweeps; a closed channel ends the goroutine. Where
-- both are ready `select` takes either, which the caller of `tick` and `halt` decides.
unfoldable pub tick : {V : Type 0} → ℤ → Globals V → Globals V
unfolding delete_expired
tick now = on_cache (λ c. if c.cleaning then delete_expired now c else c)

unfoldable pub halt : {V : Type 0} → Globals V → Globals V
halt = on_cache (λ c. if c.stop_closed then record c { cleaning = false } else c)
