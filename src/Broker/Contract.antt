-- ===== src/Broker/Contract.antt =====
-- brokerw: the contract for a message whose handlers fail or succeed, and the consumer of rabbitmqw.
use go_utility.Base.{true, false, ◌≡◌, Option, none, some, List, [], ◌∷◌}
use go_utility.Broker.{Message, Handler, execute_handlers}
use go_utility.Broker.Consumers.{
  Delivery, RabbitEvent, delivered, closed, canceled, RabbitCall, ack, nack,
}

module _ {S E : Type 0} (handlers : List (Handler S E)) {D : Type 0} (message : D → Message) where
  -- The abstract consumer: it runs the chain on one message after the other and keeps the verdicts.
  abbrev pub process : List D → S → List (D × Option E) × S
  process [] s = ([], s)
  process (d ∷ ds) s =
      let (e, _, s₁) = execute_handlers handlers (message d) s in
      let (verdicts, s₂) = process ds s₁ in ((d, e) ∷ verdicts, s₂)

module _ {D E : Type 0} where
  -- What the contract has retried: the messages whose chain has failed.
  abbrev pub failures : List (D × Option E) → List D
  failures [] = []
  failures ((d, none) ∷ vs) = failures vs
  failures ((d, some e) ∷ vs) = d ∷ failures vs

  abbrev pub successes : List (D × Option E) → List D
  successes [] = []
  successes ((d, none) ∷ vs) = d ∷ successes vs
  successes ((d, some e) ∷ vs) = successes vs

-- What RabbitMQ documents of the calls on a delivery: one that is acknowledged is done with, one
-- that is rejected with the wish to requeue it is delivered again.
pub record Amqp : Type 0 where
  pub redelivered : List RabbitCall → List Delivery
  pub nothing : redelivered [] ≡ []
  pub acked :
      (d : Delivery) (calls : List RabbitCall)
      → redelivered (ack d false ∷ calls) ≡ redelivered calls
  pub requeued :
      (d : Delivery) (calls : List RabbitCall)
      → redelivered (nack d false true ∷ calls) ≡ d ∷ redelivered calls

-- The deliveries that the loop takes before it stops.
abbrev pub taken : List RabbitEvent → List Delivery
taken [] = []
taken (delivered d ∷ events) = d ∷ taken events
taken (closed ∷ events) = []
taken (canceled ∷ events) = []

abbrev pub delivery_of : RabbitCall → Delivery
delivery_of (ack d multiple) = d
delivery_of (nack d multiple requeue) = d
