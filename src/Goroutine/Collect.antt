-- ===== src/Goroutine/Collect.antt =====
-- `applyBatchCollectors`: the responses of a step's batches merged into one.
use go_utility.Base.{
  ℕ, true, false, ◌≡◌, ◌≢◌, refl, inl, inr, none, some, List, [], ◌∷◌, ◌++◌, map, arith, lookup,
  insert, delete, if◌then◌else◌, bytes_eq, ◌==◌, IsMap, lookup-insert, lookup-delete, Bool-cases,
  List-cases, eq_of_beq, beq_refl, All, ap, sym, ◌∙◌, subst, append_assoc,
}
use mathlib.Core.Option
use mathlib.Core.List.{Memᴰ}
use go_utility.Base.Text.{has_prefix, index, has_prefix-append, index_of_prefix, itoa, codes}
use go_utility.Goroutine.{Key, Response, step_error, BatchCollector, Goroutine, slice_at}
use go_utility.Goroutine.Keys.{sep, batch_key}

-- The deletions of the keys, as they were before any collector ran, that begin with the prefix.
unfoldable pub delete_prefixed {ℓ} : {A : Type ℓ} → Key → List Key → List (Key × A) → List (Key × A)
delete_prefixed prefix [] out = out
delete_prefixed prefix (k ∷ keys) out =
    delete_prefixed prefix keys (if has_prefix prefix k then delete k out else out)

module _ {C V E P : Type 0} (ctx : C) where
  abbrev pub merged : Key → BatchCollector C V E P → List (Response V E P) → Response V E P
  merged k c results =
      let (out, err) = c ctx k results in
      record { output = some out; err = Option.map step_error err; is_execute = true }

  unfoldable pub collect_one :
      List (Key × List (Response V E P))
      → List Key
      → Key
      → BatchCollector C V E P
      → List (Key × Response V E P)
      → List (Key × Response V E P)
  unfolding delete_prefixed
  collect_one batch_results keys k c out = elim (slice_at k batch_results) [
    | [] ↦ insert k (merged k c []) out
    | r ∷ rs ↦ delete_prefixed (k ++ sep) keys (insert k (merged k c (r ∷ rs)) out)
  ]

  unfoldable pub collect_each :
      List (Key × List (Response V E P))
      → List Key
      → List (Key × BatchCollector C V E P)
      → List (Key × Response V E P)
      → List (Key × Response V E P)
  unfolding collect_one
  collect_each batch_results keys [] out = out
  collect_each batch_results keys ((k, c) ∷ collectors) out =
      collect_each batch_results keys collectors (collect_one batch_results keys k c out)

  unfoldable pub apply_batch_collectors : Goroutine C V E P → Goroutine C V E P
  unfolding collect_each
  apply_batch_collectors g = record g {
    output_resp =
        collect_each g.batch_results (map (λ e. e.0) g.output_resp) g.batch_collectors
          g.output_resp;
  }

lookup-delete_prefixed {ℓ} :
    {A : Type ℓ} (prefix k : Key) (keys : List Key) (out : List (Key × A))
    → has_prefix prefix k ≡ false
    → lookup k (delete_prefixed prefix keys out) ≡ lookup k out
unfolding delete_prefixed
lookup-delete_prefixed prefix k [] out h = refl
lookup-delete_prefixed prefix k (j ∷ keys) out h =
    lookup-delete_prefixed prefix k keys (if has_prefix prefix j then delete j out else out) h
    ∙ ground (arith, lookup-delete j k out, bytes_eq.beq_iff j k)

delete_prefixed-none {ℓ} :
    {A : Type ℓ} (prefix k : Key) (keys : List Key) (out : List (Key × A))
    → lookup k out ≡ none
    → lookup k (delete_prefixed prefix keys out) ≡ none
unfolding delete_prefixed
delete_prefixed-none prefix k [] out h = h
delete_prefixed-none prefix k (j ∷ keys) out h =
    delete_prefixed-none prefix k keys (if has_prefix prefix j then delete j out else out)
      (ground (arith, lookup-delete j k out))

delete_prefixed_mem {ℓ} :
    {A : Type ℓ} (prefix k : Key) (keys : List Key) (out : List (Key × A))
    → has_prefix prefix k ≡ true
    → Memᴰ k keys
    → lookup k (delete_prefixed prefix keys out) ≡ none
unfolding delete_prefixed
delete_prefixed_mem prefix k [] out h m = elim m [ ]
delete_prefixed_mem prefix k (j ∷ keys) out h (Memᴰ.head e) =
    delete_prefixed-none prefix k keys (if has_prefix prefix j then delete j out else out)
      (ground (arith, lookup-delete j k out, beq_refl k))
delete_prefixed_mem prefix k (j ∷ keys) out h (Memᴰ.tail m) =
    delete_prefixed_mem prefix k keys (if has_prefix prefix j then delete j out else out) h m

-- No collector's key holds "#batch_".
abbrev pub IsClean {ℓ} : {A : Type ℓ} → List (Key × A) → Type 0
IsClean m = All (λ e. index sep e.0 ≡ none) m

module _ {C V E P : Type 0} (ctx : C) (results : List (Key × List (Response V E P)))
    (keys : List Key) where
  not_prefixed : (j k : Key) → index sep k ≡ none → has_prefix (j ++ sep) k ≡ false
  not_prefixed j k clean = elim (Bool-cases (has_prefix (j ++ sep) k)) [
    | inr h ↦ h
    | inl h ↦ absurd (index_of_prefix b'#' (codes "batch_") j k h clean)
  ]

  -- A collector's call changes a clean key only if it is its own.
  collect_one-lookup :
      (k j : Key) (c : BatchCollector C V E P) (out : List (Key × Response V E P))
      → index sep k ≡ none
      → lookup k (collect_one ctx results keys j c out)
        ≡ (if j == k then some (merged ctx j c (slice_at j results)) else lookup k out)
  unfolding collect_one
  collect_one-lookup k j c out clean = elim (List-cases (slice_at j results)) [
    | inl e ↦ rw (e, collect_one) (lookup-insert j k (merged ctx j c []) out)
    | inr (r, rs, e) ↦
        rw (e, collect_one)
          (lookup-delete_prefixed (j ++ sep) k keys (insert j (merged ctx j c (r ∷ rs)) out)
              (not_prefixed j k clean)
            ∙ lookup-insert j k (merged ctx j c (r ∷ rs)) out)
  ]

  -- A key that "#batch_" stands in is put by no clean collector.
  collect_one-none :
      (k j : Key) (c : BatchCollector C V E P) (out : List (Key × Response V E P))
      → j ≢ k
      → lookup k out ≡ none
      → lookup k (collect_one ctx results keys j c out) ≡ none
  unfolding collect_one
  collect_one-none k j c out ne h = elim (List-cases (slice_at j results)) [
    | inl e ↦
        rw (e, collect_one)
          (ground (arith, lookup-insert j k (merged ctx j c []) out, bytes_eq.beq_iff j k))
    | inr (r, rs, e) ↦
        rw (e, collect_one)
          (delete_prefixed-none (j ++ sep) k keys (insert j (merged ctx j c (r ∷ rs)) out)
            (ground (arith, lookup-insert j k (merged ctx j c (r ∷ rs)) out, bytes_eq.beq_iff j k)))
  ]

  batch_key_prefixed :
      (k : Key) (n : ℕ)
      → (has_prefix (k ++ sep) (batch_key k n) ≡ true) × (index sep (batch_key k n) ≢ none)
  unfolding batch_key
  batch_key_prefixed k n =
      let p : has_prefix (k ++ sep) (k ++ (sep ++ itoa n)) ≡ true =
        ap (has_prefix (k ++ sep)) (sym (append_assoc k sep (itoa n)))
        ∙ has_prefix-append (k ++ sep) (itoa n) in
      (p, index_of_prefix b'#' (codes "batch_") k (k ++ (sep ++ itoa n)) p)

  collect_one_removes :
      (k : Key) (n : ℕ) (c : BatchCollector C V E P) (out : List (Key × Response V E P))
      → slice_at k results ≢ []
      → Memᴰ (batch_key k n) keys
      → lookup (batch_key k n) (collect_one ctx results keys k c out) ≡ none
  unfolding collect_one
  collect_one_removes k n c out ne m = elim (List-cases (slice_at k results)) [
    | inl e ↦ absurd (ne e)
    | inr (r, rs, e) ↦
        rw (e, collect_one)
          (delete_prefixed_mem (k ++ sep) (batch_key k n) keys
            (insert k (merged ctx k c (r ∷ rs)) out) (batch_key_prefixed k n).0 m)
  ]

  collect_each-none :
      (k : Key) (collectors : List (Key × BatchCollector C V E P))
      (out : List (Key × Response V E P))
      → index sep k ≢ none
      → IsClean collectors
      → lookup k out ≡ none
      → lookup k (collect_each ctx results keys collectors out) ≡ none
  unfolding collect_each
  collect_each-none k [] out ne clean h = h
  collect_each-none k ((j, c) ∷ collectors) out ne clean h =
      collect_each-none k collectors (collect_one ctx results keys j c out) ne clean.1
        (collect_one-none k j c out (λ e. ne (ap (index sep) (sym e) ∙ clean.0)) h)

  -- After the collectors a step with a collector has the collector's merged response of the step's
  -- batch results, and every other key without "#batch_" the response that it had.
  pub collect_each-lookup :
      (k : Key) (collectors : List (Key × BatchCollector C V E P))
      (out : List (Key × Response V E P))
      → index sep k ≡ none
      → IsMap collectors
      → lookup k (collect_each ctx results keys collectors out) ≡ (elim (lookup k collectors) [
        | none ↦ lookup k out
        | some c ↦ some (merged ctx k c (slice_at k results))
      ])
  unfolding collect_each
  collect_each-lookup k [] out clean m = refl
  collect_each-lookup k ((j, c) ∷ collectors) out clean m = elim (Bool-cases (j == k)) [
    | inl same ↦
        let e = eq_of_beq j k same in
        ground (
          arith,
          collect_each-lookup k collectors (collect_one ctx results keys j c out) clean m.1,
          collect_one-lookup k j c out clean,
          m.0,
        )
    | inr other ↦ ground (
      arith,
      collect_each-lookup k collectors (collect_one ctx results keys j c out) clean m.1,
      collect_one-lookup k j c out clean,
    )
  ]

  -- The response of a batch that a collector has merged is no longer there under its own key.
  pub collect_each_removes :
      (k : Key) (n : ℕ) (collectors : List (Key × BatchCollector C V E P))
      {d : BatchCollector C V E P} (out : List (Key × Response V E P))
      → lookup k collectors ≡ some d
      → slice_at k results ≢ []
      → Memᴰ (batch_key k n) keys
      → IsClean collectors
      → lookup (batch_key k n) (collect_each ctx results keys collectors out) ≡ none
  unfolding collect_each
  collect_each_removes k n [] out found some_results m clean = absurd (ground arith)
  collect_each_removes k n ((j, c) ∷ collectors) {d} out found some_results m clean =
      elim (Bool-cases (j == k)) [
        | inl same ↦
            collect_each-none (batch_key k n) collectors (collect_one ctx results keys j c out)
              (batch_key_prefixed k n).1 clean.1
              (subst (λ x. lookup (batch_key k n) (collect_one ctx results keys x c out) ≡ none)
                (sym (eq_of_beq j k same)) (collect_one_removes k n c out some_results m))
        | inr other ↦
            collect_each_removes k n collectors {d = d} (collect_one ctx results keys j c out)
              (ground arith) some_results m clean.1
      ]
