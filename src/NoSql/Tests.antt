-- ===== src/NoSql/Tests.antt =====
-- Runs of the debug hooks, and an example of each result about them.
use go_utility.Base.{
  ℕ, suc, ◌≡◌, refl, true, false, String, none, some, [], ◌∷◌, ◌++◌, map, replicate, length,
}
use go_utility.Base.Text.{codes}
use go_utility.Logw.{info, warn}
use go_utility.NoSql.{redisw, mongow, elasticw, debug_context, logs}
use go_utility.NoSql.Redis.{pipeline_text}
use go_utility.NoSql.Mongo.{
  started, succeeded, monitor, transaction, with_transaction, end_session, transaction_failed,
  success,
}
use go_utility.NoSql.Elastic.{Request, Outcome, responded, shown, round_trip}
use go_utility.NoSql.Transparent.{round_trip-base}

-- The flag of one package does not switch on the lines of another.
own_flag : logs redisw false (debug_context mongow []) ≡ false
unfolding logs debug_context
own_flag = refl

-- The monitor of MongoDB skips the start of an internal command, and logs its success.
ping_logged :
    monitor {E = String} true [] (started "ping") ++ monitor true [] (succeeded "ping")
    ≡ record { level = info; text = success "ping" } ∷ []
unfolding monitor
ping_logged = refl

-- A session is ended after a transaction that fails.
failed_transaction :
    transaction {E = String} none (λ fn s. fn s) (λ s. (some "no", suc s)) 0
    ≡ (some (transaction_failed "no"), with_transaction ∷ end_session ∷ [], 1)
unfolding transaction
failed_transaction = refl

pipeline : pipeline_text codes ("get a" ∷ "del b" ∷ []) ≡ codes "[get a, del b]"
unfolding pipeline_text
pipeline = refl

long_body : length (shown (replicate 1200 65)) ≡ 1003
unfolding shown
long_body = refl

abbrev search : Request String
search = record {
  target = codes "GET /users";
  body = some (record { content = codes "{}"; read_error = none });
}

-- A server that counts the requests and does not find anything.
abbrev not_found : Request String → ℕ → Outcome String × ℕ
not_found req n = (
  responded (record {
    status_code = 404;
    body = some (record { content = codes "no"; read_error = none });
  }),
  suc n,
)

-- With debugging, a response that breaks off reaches the program as a whole one.
abbrev breaks_off : Request String → ℕ → Outcome String × ℕ
breaks_off req n = (
  responded (record {
    status_code = 200;
    body = some (record { content = codes "["; read_error = some "reset" });
  }),
  n,
)

error_lost :
    (round_trip false breaks_off (debug_context elasticw []) search 0).0
    ≡ responded (record {
      status_code = 200;
      body = some (record { content = codes "["; read_error = none });
    })
unfolding round_trip debug_context
error_lost = refl

round_trip-base_example :
    let (o, lines, s') = round_trip false not_found (debug_context elasticw []) search 0 in
    (o ≡ (not_found search 0).0) × (s' ≡ 1) × (map (λ l. l.level) lines ≡ warn ∷ [])
unfolding debug_context logs
round_trip-base_example =
    round_trip-base false not_found (debug_context elasticw []) search 0 refl refl
