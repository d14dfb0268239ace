-- ===== src/Broker/Consumers.antt =====
-- The consumers of v2/brokerw: rabbitmqw, nsqw, kafkaw and rocketmqw. What the client library hands
-- to the consumer is a list of events, in the order in which the loop takes them; what the consumer
-- asks of the library is a list of calls.
use go_utility.Base.{ℕ, String, Bool, true, false, Option, none, some, List, [], ◌∷◌}
use go_utility.Broker.{Message, Handler, execute_handlers}

-- A delivery of RabbitMQ, told by its tag.
pub record Delivery : Type 0 where
  pub tag : ℕ
  pub routing_key : List ℕ
  pub body : List ℕ

-- What the `select` of the loop takes: a delivery, the closing of the channel, or the end of the
-- context.
pub data RabbitEvent : Type 0 where
  delivered : Delivery → RabbitEvent
  closed canceled : RabbitEvent

-- `Ack(multiple)` and `Nack(multiple, requeue)` of a delivery.
pub data RabbitCall : Type 0 where
  ack : Delivery → Bool → RabbitCall
  nack : Delivery → Bool → Bool → RabbitCall

abbrev pub rabbit_message : String → Delivery → Message
rabbit_message queue d = record { topic = queue; key = d.routing_key; payload = d.body }

-- A message of Kafka in its partition.
pub record Fetched : Type 0 where
  pub topic : String
  pub offset : ℕ
  pub key : List ℕ
  pub value : List ℕ

-- How `FetchMessage` answers; with a message comes whether `CommitMessages` succeeds, if it is asked to
-- commit it.
pub data KafkaEvent : Type 0 where
  fetched : Fetched → Bool → KafkaEvent
  fetch_failed context_canceled : KafkaEvent

abbrev pub kafka_message : Fetched → Message
kafka_message m = record { topic = m.topic; key = m.key; payload = m.value }

-- A message that RocketMQ pushes.
pub record Pushed : Type 0 where
  pub topic : String
  pub keys : List ℕ
  pub body : List ℕ

pub data ConsumeResult : Type 0 where
  consume_success consume_retry_later : ConsumeResult

abbrev pub rocket_message : Pushed → Message
rocket_message m = record { topic = m.topic; key = m.keys; payload = m.body }

abbrev pub nsq_message : String → List ℕ → Message
nsq_message topic body = record { topic = topic; key = []; payload = body }

module _ {S E : Type 0} (handlers : List (Handler S E)) where
  abbrev pub answer_rabbit : Delivery → Option E → RabbitCall
  answer_rabbit d none = ack d false
  answer_rabbit d (some e) = nack d false true

  -- The goroutine of `rabbitConsumer.Consume`.
  unfoldable pub consume_rabbit : String → List RabbitEvent → S → List RabbitCall × S
  unfolding execute_handlers
  consume_rabbit queue [] s = ([], s)
  consume_rabbit queue (closed ∷ events) s = ([], s)
  consume_rabbit queue (canceled ∷ events) s = ([], s)
  consume_rabbit queue (delivered d ∷ events) s =
      let (e, _, s₁) = execute_handlers handlers (rabbit_message queue d) s in
      let (calls, s₂) = consume_rabbit queue events s₁ in (answer_rabbit d e ∷ calls, s₂)

  abbrev pub commit_if : Fetched → Bool → Option E → List (Fetched × Bool) → List (Fetched × Bool)
  commit_if m made none calls = (m, made) ∷ calls
  commit_if m made (some e) calls = calls

  -- The goroutine of `kafkaConsumer.Consume`: the messages that it asks to commit, each with whether that
  -- succeeds. The error of a commit is logged, and the loop goes on.
  unfoldable pub consume_kafka : List KafkaEvent → S → List (Fetched × Bool) × S
  unfolding execute_handlers
  consume_kafka [] s = ([], s)
  consume_kafka (context_canceled ∷ events) s = ([], s)
  consume_kafka (fetch_failed ∷ events) s = consume_kafka events s
  consume_kafka (fetched m made ∷ events) s =
      let (e, _, s₁) = execute_handlers handlers (kafka_message m) s in
      let (calls, s₂) = consume_kafka events s₁ in (commit_if m made e calls, s₂)

  -- The callback of `rocketConsumer.Consume` on a batch.
  abbrev pub consume_rest :
      (S → ConsumeResult × Option E × S) → Option E × Message × S → ConsumeResult × Option E × S
  consume_rest rest (some e, m, s) = (consume_retry_later, some e, s)
  consume_rest rest (none, m, s) = rest s

  unfoldable pub consume_rocket : List Pushed → S → ConsumeResult × Option E × S
  unfolding execute_handlers
  consume_rocket [] s = (consume_success, none, s)
  consume_rocket (m ∷ msgs) s =
      consume_rest (consume_rocket msgs) (execute_handlers handlers (rocket_message m) s)

  -- The handler that `nsqConsumer.Consume` registers: an error tells NSQ to requeue the message.
  unfoldable pub consume_nsq : String → List ℕ → S → Option E × S
  unfolding execute_handlers
  consume_nsq topic body s =
      let (e, _, s₁) = execute_handlers handlers (nsq_message topic body) s in (e, s₁)
