-- ===== src/LocalCache/Tests.antt =====
-- Runs of the cache, and the theorems at concrete states.
use go_utility.Base.{ℕ, String, true, false, ◌≡◌, refl, none, some, List, [], ◌∷◌, arith, string_eq}
use go_utility.Base.Int.{ℤ, pos, ◌+ℤ◌, to_int64}
use go_utility.LocalCache.{
  Item, Globals, with_ttl, empty_cache, init, set_kv, get, is_key_exists, delete_key, length_of,
  clear, stop_cleanup, tick, halt, default_freq,
}
use go_utility.LocalCache.State.{IsWf}
use go_utility.LocalCache.Cleanup.{
  Call, found, nothing, answers, without_sweeps, answers-without_sweeps,
}

program : Unit {0}
unfolding set_kv get is_key_exists delete_key length_of clear stop_cleanup tick halt with_ttl
    to_int64 ◌+ℤ◌ answers without_sweeps init
program = tt

abbrev fresh : Globals ℕ
fresh = record { cache = none; once = false }

fresh-IsWf : IsWf fresh
fresh-IsWf = record {
  idle = λ _. refl;
  started = λ t. absurd (ground arith);
  unique = λ c e. absurd (ground arith);
}

abbrev kept : Globals ℕ
kept = record {
  cache = some (record {
    items =
        ("a", record { value = 1; expiration = pos 15 })
        ∷ ("b", record { value = 2; expiration = pos 0 })
        ∷ [];
    cleanup_freq = pos 5;
    cleaning = true;
    stop_closed = false;
  });
  once = true;
}

kept_made :
    set_kv (pos 11) "b" 2 [] (set_kv (pos 10) "a" 1 (with_ttl (pos 5) ∷ []) (init (pos 5) fresh))
    ≡ kept
unfolding program
kept_made = refl

reads :
    ((get (pos 15) "a" kept).1 ≡ some 1)
    × ((get (pos 16) "a" kept).1 ≡ none)
    × ((get (pos 99) "b" kept).1 ≡ some 2)
    × ((length_of (tick (pos 15) kept)).1 ≡ 2)
    × ((length_of (tick (pos 16) kept)).1 ≡ 1)
    × ((get (pos 1) "c" fresh).0.cache ≡ some (empty_cache default_freq))
unfolding program
reads = (refl, refl, refl, refl, refl, refl)

-- A TTL that runs past the largest int64 gives a negative expiration, which never expires.
ttl_overflow :
    (get
      (pos 9223372036854775807)
      "a"
      (set_kv (pos 10) "a" 1 (with_ttl (pos 9223372036854775800) ∷ []) fresh)).1
    ≡ some 1
unfolding program
ttl_overflow = refl

abbrev calls : List (ℤ × Call ℕ)
calls =
    (pos 10, Call.set "a" 1 (with_ttl (pos 5) ∷ []))
    ∷ (pos 12, Call.sweep)
    ∷ (pos 15, Call.read "a")
    ∷ (pos 16, Call.sweep)
    ∷ (pos 17, Call.read "a")
    ∷ []

answers_run : answers calls (init (pos 1) fresh) ≡ nothing ∷ found (some 1) ∷ found none ∷ []
unfolding program
answers_run = refl

answers-without_sweeps_example : answers calls fresh ≡ answers (without_sweeps calls) fresh
answers-without_sweeps_example =
    answers-without_sweeps calls (pos 10) fresh fresh-IsWf (omega arith)

abbrev old : List (String × Item ℕ)
old = ("a", record { value = 1; expiration = pos 15 }) ∷ []
