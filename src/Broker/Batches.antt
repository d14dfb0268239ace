-- ===== src/Broker/Batches.antt =====
-- Batches of v2/brokerw: what `BulkSend` sends with each broker, and how RocketMQ's batches fail.
use go_utility.Base.{
  ℕ, suc, ◌+◌, String, true, false, ◌≡◌, refl, ap, sym, subst, ◌∙◌, ◌⊎◌, inl, inr, Option, none,
  some, List, [], ◌∷◌, ◌++◌, length, All, Bool-cases, arith,
}
use go_utility.Broker.{Message, Handler, execute_handlers}
use go_utility.Broker.Consumers.{
  Pushed, ConsumeResult, consume_success, consume_retry_later, rocket_message, consume_rest,
  consume_rocket,
}
use go_utility.Broker.Contract.{process}
use go_utility.Broker.Producers.{
  Failure, different_lengths, at_index, pairs, same_length, send_each, bulk_send_rabbit,
}

abbrev pub singles : List Message → List (List Message)
singles [] = []
singles (m ∷ ms) = (m ∷ []) ∷ singles ms

module _ {E : Type 0} (publish : Message → Option E) where
  abbrev pub Accepted : Message → Type 0
  Accepted m = publish m ≡ none

  -- Either every message is accepted, each in its own request, or the first one that is refused ends
  -- the batch, with its index, after the requests of those before it.
  abbrev pub SentUpTo : ℕ → List Message → List (List Message) × Option (Failure E) → Type 0
  SentUpTo i ms r =
      (All Accepted ms × (r ≡ (singles ms, none)))
      ⊎ ((before : List Message) × (m : Message) × (after : List Message) × (e : E) × (ms
            ≡ before ++ m ∷ after)
          × All Accepted before
          × (publish m ≡ some e)
          × (r ≡ (singles (before ++ m ∷ []), some (at_index (i + length before) e))))

  after_publish :
      (i : ℕ) (m : Message) (ms : List Message) (o : Option E)
      (rest : List (List Message) × Option (Failure E))
      → publish m ≡ o
      → SentUpTo (suc i) ms rest
      → SentUpTo i (m ∷ ms) (elim o [
        | some e ↦ ((m ∷ []) ∷ [], some (at_index i e))
        | none ↦ ((m ∷ []) ∷ rest.0, rest.1)
      ])
  after_publish i m ms (some e) rest h r =
      inr ([], m, ms, e, refl, tt, h, ap (λ j. ((m ∷ []) ∷ [], some (at_index j e))) (omega arith))
  after_publish i m ms none rest h (inl (all, q)) =
      inl ((h, all), ap (λ x. ((m ∷ []) ∷ x.0, x.1)) q)
  after_publish i m ms none rest h (inr (before, n, after, e, split, all, bad, q)) = inr (
    m ∷ before,
    n,
    after,
    e,
    ap (λ l. m ∷ l) split,
    (h, all),
    bad,
    ap (λ x. ((m ∷ []) ∷ x.0, x.1)) q
        ∙ ap (λ j. ((m ∷ []) ∷ singles (before ++ n ∷ []), some (at_index j e))) (omega arith),
  )

  send_each-SentUpTo : (i : ℕ) (ms : List Message) → SentUpTo i ms (send_each publish i ms)
  unfolding send_each
  send_each-SentUpTo i [] = inl (tt, refl)
  send_each-SentUpTo i (m ∷ ms) =
      after_publish i m ms (publish m) (send_each publish (suc i) ms) refl
        (send_each-SentUpTo (suc i) ms)

  -- `BulkSend` of RabbitMQ is not one request: it refuses slices of different lengths and sends
  -- nothing, and otherwise sends the messages one by one; when one is refused, those before it have
  -- been sent, and the error tells its index.
  pub bulk_send_rabbit_lem :
      (exchange : String) (keys payloads : List (List ℕ))
      → ((same_length keys payloads ≡ false)
          × (bulk_send_rabbit publish exchange keys payloads ≡ ([], some different_lengths)))
        ⊎ ((same_length keys payloads ≡ true)
            × SentUpTo 0
                (pairs exchange keys payloads)
                (bulk_send_rabbit publish exchange keys payloads))
  unfolding bulk_send_rabbit
  bulk_send_rabbit_lem exchange keys payloads = elim (Bool-cases (same_length keys payloads)) [
    | inl h ↦
        inr (h, rw (bulk_send_rabbit, h) (send_each-SentUpTo 0 (pairs exchange keys payloads)))
    | inr h ↦ inl (h, rw (bulk_send_rabbit, h) refl)
  ]

module _ {S E : Type 0} (handlers : List (Handler S E)) where
  abbrev pub Succeeded : Pushed × Option E → Type 0
  Succeeded v = v.1 ≡ none

  -- The two courses of a batch.
  abbrev pub BatchOf : List Pushed → S → ConsumeResult × Option E × S → Type 0
  BatchOf ms s r =
      (All Succeeded (process handlers rocket_message ms s).0
        × (r ≡ (consume_success, none, (process handlers rocket_message ms s).1)))
      ⊎ ((before : List Pushed) × (m : Pushed) × (after : List Pushed) × (e : E) × (ms
            ≡ before ++ m ∷ after)
          × All Succeeded (process handlers rocket_message before s).0
          × ((execute_handlers handlers (rocket_message m)
                (process handlers rocket_message before s).1).0
              ≡ some e)
          × (r.0 ≡ consume_retry_later)
          × (r.1 ≡ some e)
          × (r.2 ≡ (process handlers rocket_message (before ++ m ∷ []) s).1))

  after_chain :
      (m : Pushed) (ms : List Pushed) (s : S) (x : Option E × Message × S)
      → execute_handlers handlers (rocket_message m) s ≡ x
      → BatchOf ms x.2 (consume_rocket handlers ms x.2)
      → BatchOf (m ∷ ms) s (consume_rest handlers (consume_rocket handlers ms) x)
  after_chain m ms s (some e, msg, s₁) h rest =
      inr ([], m, ms, e, refl, tt, ap (λ x. x.0) h, refl, refl, sym (ap (λ x. x.2) h))
  after_chain m ms s (none, msg, s₁) h (inl (all, q)) =
      let back = sym (ap (λ x. x.2) h) in
      inl (
        (
          ap (λ x. x.0) h,
          subst (λ t. All Succeeded (process handlers rocket_message ms t).0) back all,
        ),
        q ∙ ap (λ t. (consume_success, none, (process handlers rocket_message ms t).1)) back,
      )
  after_chain m ms s (none, msg, s₁) h (inr (before, n, after, e, split, all, bad, r₀, r₁, r₂)) =
      let back = sym (ap (λ x. x.2) h) in
      inr (
        m ∷ before,
        n,
        after,
        e,
        ap (λ l. m ∷ l) split,
        (
          ap (λ x. x.0) h,
          subst (λ t. All Succeeded (process handlers rocket_message before t).0) back all,
        ),
        subst
            (λ t.
              (execute_handlers handlers (rocket_message n)
                (process handlers rocket_message before t).1).0
              ≡ some e)
            back bad,
        r₀,
        r₁,
        r₂ ∙ ap (λ t. (process handlers rocket_message (before ++ n ∷ []) t).1) back,
      )

  -- Either the chain succeeds on each message of a batch, and RocketMQ is told that the batch is done
  -- with; or it fails on a first one, and RocketMQ is told to retry the batch, of which the messages
  -- before that one have already been processed with success and those after it not at all.
  pub consume_rocket-BatchOf :
      (ms : List Pushed) (s : S) → BatchOf ms s (consume_rocket handlers ms s)
  unfolding consume_rocket
  consume_rocket-BatchOf [] s = inl (tt, refl)
  consume_rocket-BatchOf (m ∷ ms) s =
      after_chain m ms s (execute_handlers handlers (rocket_message m) s) refl
        (consume_rocket-BatchOf ms (execute_handlers handlers (rocket_message m) s).2)
