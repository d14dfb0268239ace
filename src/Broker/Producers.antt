-- ===== src/Broker/Producers.antt =====
-- The producers of v2/brokerw: what each sends for `Send` and `BulkSend`. The broker answers a
-- request by an error or nil.
use go_utility.Base.{
  ℕ, suc, String, Bool, true, false, Option, none, some, List, [], ◌∷◌, map, length, nat_beq,
  if◌then◌else◌,
}
use go_utility.Broker.{Message}

pub data Failure (E : Type 0) : Type 0 where
  different_lengths : Failure E
  at_index : ℕ → E → Failure E
  refused : E → Failure E
  bad_status : Failure E

abbrev pub message : String → List ℕ → List ℕ → Message
message topic key payload = record { topic = topic; key = key; payload = payload }

-- The messages of a batch; `keys[i]` is in range, since the lengths are compared first.
abbrev pub pairs : String → List (List ℕ) → List (List ℕ) → List Message
pairs topic (k ∷ ks) (p ∷ ps) = message topic k p ∷ pairs topic ks ps
pairs topic _ _ = []

abbrev pub same_length : List (List ℕ) → List (List ℕ) → Bool
same_length keys payloads = nat_beq (length keys) (length payloads)

-- The answer of RocketMQ: an error, or a status that may not be `SendOK`.
pub data SendResult (E : Type 0) : Type 0 where
  send_error : E → SendResult E
  send_status : Bool → SendResult E

abbrev pub without_keys : String → List (List ℕ) → List Message
without_keys topic payloads = map (message topic []) payloads

module _ {E : Type 0} where
  abbrev refusal : Option E → Option (Failure E)
  refusal none = none
  refusal (some e) = some (refused e)

  -- `kafkaProducer.BulkSend`: the requests it makes, each with its messages, and its error.
  unfoldable pub bulk_send_kafka :
      (List Message → Option E)
      → String
      → List (List ℕ)
      → List (List ℕ)
      → List (List Message) × Option (Failure E)
  bulk_send_kafka write topic keys payloads =
      if same_length keys payloads
      then (pairs topic keys payloads ∷ [], refusal (write (pairs topic keys payloads)))
      else ([], some different_lengths)

  -- The loop of `rabbitProducer.BulkSend`, from an index on, with one request for each message.
  unfoldable pub send_each :
      (Message → Option E) → ℕ → List Message → List (List Message) × Option (Failure E)
  send_each publish i [] = ([], none)
  send_each publish i (m ∷ ms) =
      let rest = send_each publish (suc i) ms in
      elim (publish m) [
        | some e ↦ ((m ∷ []) ∷ [], some (at_index i e))
        | none ↦ ((m ∷ []) ∷ rest.0, rest.1)
      ]

  unfoldable pub bulk_send_rabbit :
      (Message → Option E)
      → String
      → List (List ℕ)
      → List (List ℕ)
      → List (List Message) × Option (Failure E)
  unfolding send_each
  bulk_send_rabbit publish exchange keys payloads =
      if same_length keys payloads
      then send_each publish 0 (pairs exchange keys payloads)
      else ([], some different_lengths)

  abbrev rocket_failure : SendResult E → Option (Failure E)
  rocket_failure (send_error e) = some (refused e)
  rocket_failure (send_status true) = none
  rocket_failure (send_status false) = some bad_status

  unfoldable pub bulk_send_rocket :
      (List Message → SendResult E)
      → String
      → List (List ℕ)
      → List (List ℕ)
      → List (List Message) × Option (Failure E)
  bulk_send_rocket send_sync topic keys payloads =
      if same_length keys payloads
      then (pairs topic keys payloads ∷ [], rocket_failure (send_sync (pairs topic keys payloads)))
      else ([], some different_lengths)

  -- `nsqProducer.BulkSend` does not look at the keys.
  unfoldable pub bulk_send_nsq :
      (List Message → Option E)
      → String
      → List (List ℕ)
      → List (List ℕ)
      → List (List Message) × Option (Failure E)
  bulk_send_nsq publish topic keys payloads =
      (without_keys topic payloads ∷ [], refusal (publish (without_keys topic payloads)))
