-- ===== src/Broker/Offsets.antt =====
-- Kafka keeps one position for a group in place of a mark for each message, so that skipping a commit
-- does not have the message retried once a later one is committed.
use go_utility.Base.{
  Bool, true, false, ℕ, suc, ◌≤◌, ◌<◌, ◌≡◌, refl, ap, sym, subst, ◌↔◌, ◌⊎◌, inl, inr, Option, none,
  some, List, [], ◌∷◌, map, arith,
}
use go_utility.Broker.{Message, Handler, execute_handlers}
use go_utility.Broker.Consumers.{
  Fetched, KafkaEvent, fetched, fetch_failed, context_canceled, kafka_message, commit_if,
  consume_kafka,
}
use go_utility.Broker.Contract.{process, successes}

-- What Kafka documents of a group: it fetches from a position on, and a commit of an offset that
-- succeeds moves the position behind it.
pub record Group : Type 0 where
  pub position : ℕ → List ℕ → ℕ
  pub kept : (start : ℕ) → position start [] ≡ start
  pub moved : (start o : ℕ) (os : List ℕ) → position start (o ∷ os) ≡ position (suc o) os

-- The messages that the loop takes before it stops, with whether a commit would succeed.
abbrev pub taken : List KafkaEvent → List (Fetched × Bool)
taken [] = []
taken (fetched m made ∷ events) = (m, made) ∷ taken events
taken (fetch_failed ∷ events) = taken events
taken (context_canceled ∷ events) = []

-- A partition is fetched in ascending order of the offsets.
abbrev pub Ascends : ℕ → List Fetched → Type 0
Ascends o [] = Unit
Ascends o (m ∷ ms) = (o ≤ m.offset) × Ascends (suc m.offset) ms

abbrev pub In : Fetched → List Fetched → Type 0
In m [] = ⊥
In m (n ∷ ns) = (m ≡ n) ⊎ In m ns

abbrev pub message_of : Fetched × Bool → Message
message_of d = kafka_message d.0

abbrev pub messages : List (Fetched × Bool) → List Fetched
messages = map (λ d. d.0)

-- The messages whose commit has succeeded.
abbrev pub committed : List (Fetched × Bool) → List Fetched
committed [] = []
committed ((m, true) ∷ calls) = m ∷ committed calls
committed ((m, false) ∷ calls) = committed calls

abbrev pub offsets : List Fetched → List ℕ
offsets = map (λ m. m.offset)

Ascends-weaken : (o p : ℕ) (ms : List Fetched) → o ≤ p → Ascends p ms → Ascends o ms
Ascends-weaken o p [] le h = tt
Ascends-weaken o p (m ∷ ms) le h = (omega (arith, h.0), h.1)

module _ (group : Group) where
  le_position :
      (start : ℕ) (ms : List Fetched) → Ascends start ms → start ≤ group.position start (offsets ms)
  le_position start [] h = omega (arith, group.kept start)
  le_position start (m ∷ ms) h =
      omega (arith, h.0, group.moved start m.offset (offsets ms), le_position (suc m.offset) ms h.1)

  lt_position :
      (start : ℕ) (ms : List Fetched) (n : Fetched)
      → Ascends start ms
      → In n ms
      → n.offset < group.position start (offsets ms)
  lt_position start [] n h i = elim i [ ]
  lt_position start (m ∷ ms) n h (inl e) = omega (
    arith,
    ap (λ x. x.offset) e,
    group.moved start m.offset (offsets ms),
    le_position (suc m.offset) ms h.1,
  )
  lt_position start (m ∷ ms) n h (inr i) =
      omega (arith, group.moved start m.offset (offsets ms), lt_position (suc m.offset) ms n h.1 i)

  position_from :
      (start p : ℕ) (ms : List Fetched)
      → p < group.position start (offsets ms)
      → (p < start) ⊎ ((n : Fetched) × In n ms × (p ≤ n.offset))
  position_from start p [] lt = inl (omega (arith, group.kept start))
  position_from start p (m ∷ ms) lt =
      elim (position_from (suc m.offset) p ms
        (omega (arith, group.moved start m.offset (offsets ms)))) [
          | inl before ↦ inr (m, inl refl, omega (arith, before))
          | inr (n, i, le) ↦ inr (n, inr i, le)
        ]

Ascends-In : (o : ℕ) (ms : List Fetched) (m : Fetched) → Ascends o ms → In m ms → o ≤ m.offset
Ascends-In o [] m h i = elim i [ ]
Ascends-In o (n ∷ ns) m h (inl e) = omega (arith, h.0, ap (λ x. x.offset) e)
Ascends-In o (n ∷ ns) m h (inr i) = omega (arith, h.0, Ascends-In (suc n.offset) ns m h.1 i)

module _ {E : Type 0} where
  committed-Ascends :
      (o : ℕ) (vs : List ((Fetched × Bool) × Option E))
      → Ascends o (map (λ v. v.0.0) vs)
      → Ascends o (committed (successes vs))
  committed-Ascends o [] h = tt
  committed-Ascends o (((m, true), none) ∷ vs) h = (h.0, committed-Ascends (suc m.offset) vs h.1)
  committed-Ascends o (((m, false), none) ∷ vs) h =
      committed-Ascends o vs
        (Ascends-weaken o (suc m.offset) (map (λ v. v.0.0) vs) (omega (arith, h.0)) h.1)
  committed-Ascends o (((m, made), some e) ∷ vs) h =
      committed-Ascends o vs
        (Ascends-weaken o (suc m.offset) (map (λ v. v.0.0) vs) (omega (arith, h.0)) h.1)

module _ {S E : Type 0} (handlers : List (Handler S E)) where
  map-process :
      (ds : List (Fetched × Bool)) (s : S)
      → map (λ v. v.0.0) (process handlers message_of ds s).0 ≡ messages ds
  map-process [] s = refl
  map-process ((m, made) ∷ ds) s =
      ap (λ l. m ∷ l) (map-process ds (execute_handlers handlers (kafka_message m) s).2)

  commits_step :
      (m : Fetched) (made : Bool) (e : Option E) (calls : List (Fetched × Bool))
      (vs : List ((Fetched × Bool) × Option E))
      → calls ≡ successes vs
      → commit_if handlers m made e calls ≡ successes (((m, made), e) ∷ vs)
  commits_step m made none calls vs h = ap (λ l. (m, made) ∷ l) h
  commits_step m made (some e) calls vs h = h

  consume_kafka-process :
      (events : List KafkaEvent) (s : S)
      → (consume_kafka handlers events s).0
        ≡ successes (process handlers message_of (taken events) s).0
  unfolding consume_kafka
  consume_kafka-process [] s = refl
  consume_kafka-process (context_canceled ∷ events) s = refl
  consume_kafka-process (fetch_failed ∷ events) s = consume_kafka-process events s
  consume_kafka-process (fetched m made ∷ events) s =
      let (e, _, s₁) = execute_handlers handlers (kafka_message m) s in
      commits_step m made e (consume_kafka handlers events s₁).0
        (process handlers message_of (taken events) s₁).0 (consume_kafka-process events s₁)

  -- The messages are those of one partition, fetched in ascending order from the position of the group,
  -- and a commit that fails leaves the position. Then Kafka does not give a message to the group again
  -- exactly when it, or a later one that the loop took, has passed its handlers and was committed
  -- without an error. So a message whose own handlers have failed is lost as soon as a later one is
  -- committed, though the contract has it retried.
  pub consume_kafka-position :
      (group : Group) (start : ℕ) (events : List KafkaEvent) (s : S) (m : Fetched)
      → Ascends start (messages (taken events))
      → In m (messages (taken events))
      → (m.offset < group.position start (offsets (committed (consume_kafka handlers events s).0)))
        ↔ ((n : Fetched) × In n
              (committed (successes (process handlers message_of (taken events) s).0))
            × (m.offset ≤ n.offset))
  consume_kafka-position group start events s m up i =
      let vs = (process handlers message_of (taken events) s).0 in
      let done = committed (successes vs) in
      let sorted =
        committed-Ascends start vs
          (subst (Ascends start) (sym (map-process (taken events) s)) up) in
      rw (consume_kafka-process events s) (
        (λ lt. elim (position_from group start m.offset done lt) [
          | inl before ↦
              absurd (omega (arith, before, Ascends-In start (messages (taken events)) m up i))
          | inr found ↦ found
        ]),
        (λ (n, ok, le). omega (arith, le, lt_position group start done n sorted ok)),
      )
