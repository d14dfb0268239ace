-- ===== src/Broker/Tests.antt =====
-- Runs of the brokers, and an example of each result about them.
use go_utility.Base.{
  ℕ, suc, ◌≤◌, ◌<◌, ◌≡◌, ◌↔◌, refl, ◌⊎◌, inl, String, true, false, Option, none, some, List, [],
  ◌∷◌, arith,
}
use go_utility.Base.Text.{codes}
use go_utility.Broker.{Message, Handler, execute_handlers}
use go_utility.Broker.Consumers.{
  Delivery, RabbitEvent, delivered, canceled, RabbitCall, ack, nack, consume_rabbit, Fetched,
  KafkaEvent, fetched, fetch_failed, consume_kafka, Pushed, consume_rocket,
}
use go_utility.Broker.Producers.{different_lengths, at_index, pairs, same_length, bulk_send_rabbit}
use go_utility.Broker.Contract.{process, successes, Amqp}
use go_utility.Broker.Contract as contract
use go_utility.Broker.Offsets.{
  Group, In, offsets, committed, message_of, taken, consume_kafka-position,
}
use go_utility.Broker.Batches.{SentUpTo, bulk_send_rabbit_lem, BatchOf, consume_rocket-BatchOf}

-- A handler that counts, and refuses empty payloads.
abbrev refuse_empty : Handler ℕ String
refuse_empty m n = elim (m.payload) [ [] ↦ (some "empty", m, suc n) | b ∷ bs ↦ (none, m, suc n) ]

abbrev chain : List (Handler ℕ String)
chain = refuse_empty ∷ []

abbrev again : List RabbitCall → List Delivery
again [] = []
again (ack d multiple ∷ calls) = again calls
again (nack d multiple true ∷ calls) = d ∷ again calls
again (nack d multiple false ∷ calls) = again calls

abbrev amqp : Amqp
amqp = record {
  redelivered = again;
  nothing = refl;
  acked = λ d calls. refl;
  requeued = λ d calls. refl;
}

abbrev delivery : ℕ → List ℕ → Delivery
delivery tag body = record { tag = tag; routing_key = []; body = body }

abbrev rabbit_events : List RabbitEvent
rabbit_events =
    delivered (delivery 1 [])
    ∷ delivered (delivery 2 (codes "x"))
    ∷ canceled
    ∷ delivered (delivery 3 [])
    ∷ []

rabbit_calls :
    consume_rabbit chain "jobs" rabbit_events 0
    ≡ (nack (delivery 1 []) false true ∷ ack (delivery 2 (codes "x")) false ∷ [], 2)
unfolding consume_rabbit execute_handlers
rabbit_calls = refl

abbrev last_or : ℕ → List ℕ → ℕ
last_or start [] = start
last_or start (o ∷ os) = last_or (suc o) os

abbrev group : Group
group = record { position = last_or; kept = λ start. refl; moved = λ start o os. refl }

abbrev at : ℕ → List ℕ → Fetched
at offset value = record { topic = "jobs"; offset = offset; key = []; value = value }

-- The message at offset 4 fails, the one at offset 5 succeeds and is committed, and the commit of the
-- one at offset 6 fails.
abbrev kafka_events : List KafkaEvent
kafka_events =
    fetched (at 4 []) true
    ∷ fetch_failed
    ∷ fetched (at 5 (codes "x")) true
    ∷ fetched (at 6 (codes "y")) false
    ∷ []

consume_kafka-position_example :
    (4 < last_or 4 (offsets (committed (consume_kafka chain kafka_events 0).0))) ↔ (
      (n : Fetched) × In n
        (committed (successes (process chain message_of (taken kafka_events) 0).0))
      × (4 ≤ n.offset))
consume_kafka-position_example =
    consume_kafka-position chain group 4 kafka_events 0 (at 4 [])
      (omega arith, (omega arith, (omega arith, tt))) (inl refl)

abbrev short_only : Message → Option String
short_only m = elim (m.payload) [ [] ↦ none | b ∷ bs ↦ some "too long" ]

partial : bulk_send_rabbit short_only "ex" ([] ∷ [] ∷ []) ([] ∷ codes "x" ∷ []) ≡ (
  (record { topic = "ex"; key = []; payload = [] } ∷ [])
      ∷ (record { topic = "ex"; key = []; payload = codes "x" } ∷ [])
      ∷ [],
  some (at_index 1 "too long"),
)
unfolding bulk_send_rabbit
partial = refl

bulk_send_rabbit_lem_example :
    ((same_length ([] ∷ []) (codes "x" ∷ []) ≡ false)
      × (bulk_send_rabbit short_only "ex" ([] ∷ []) (codes "x" ∷ [])
          ≡ ([], some different_lengths)))
    ⊎ ((same_length ([] ∷ []) (codes "x" ∷ []) ≡ true)
        × SentUpTo short_only 0
            (pairs "ex" ([] ∷ []) (codes "x" ∷ []))
            (bulk_send_rabbit short_only "ex" ([] ∷ []) (codes "x" ∷ [])))
bulk_send_rabbit_lem_example = bulk_send_rabbit_lem short_only "ex" ([] ∷ []) (codes "x" ∷ [])

abbrev pushed : List ℕ → Pushed
pushed body = record { topic = "jobs"; keys = []; body = body }

consume_rocket-BatchOf_example :
    BatchOf chain
      (pushed (codes "x") ∷ pushed [] ∷ [])
      0
      (consume_rocket chain (pushed (codes "x") ∷ pushed [] ∷ []) 0)
consume_rocket-BatchOf_example =
    consume_rocket-BatchOf chain (pushed (codes "x") ∷ pushed [] ∷ []) 0
