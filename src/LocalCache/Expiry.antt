-- ===== src/LocalCache/Expiry.antt =====
-- What `Get` finds after a write, and for how long.
use go_utility.Base.{
  String, true, ◌≡◌, inl, inr, ◌↔◌, none, some, List, [], ◌∷◌, arith, if◌then◌else◌, string_eq,
  lookup-insert, lookup-delete, beq_refl, Option-cases,
}
use go_utility.Base.Int.{ℤ, pos, ◌+ℤ◌, ◌≤ℤ◌, ◌<ℤ◌, FitsInt64, to_int64_id, +ℤ_parts}
use go_utility.LocalCache.{
  SetOption, with_ttl, Globals, is_expired, configure, expiration_of, set_kv, fetch, get,
  is_key_exists, delete_key, clear,
}
use go_utility.LocalCache.State.{
  IsWf, items_of, set_kv-items, delete_key-items, clear-items, get-items, set_kv-IsWf,
  delete_key-IsWf, clear-IsWf,
}

module _ {V : Type 0} where
  -- A read after `SetKV` of a key finds the new value unless it has expired, and a read of another
  -- key finds what it would have found before.
  pub get-set_kv :
      (now later : ℤ) (key k : String) (v : V) (opts : List SetOption) (g : Globals V)
      → IsWf g
      → let exp = expiration_of now (configure opts (record { ttl = pos 0 })) in
        (get later k (set_kv now key v opts g)).1 ≡ (
          if string_eq.beq key k
          then (if is_expired later (record { value = v; expiration = exp }) then none else some v)
          else (get later k g).1)
  unfolding fetch
  get-set_kv now later key k v opts g wf =
      let exp = expiration_of now (configure opts (record { ttl = pos 0 })) in
      ground (
        arith,
        get-items later k (set_kv now key v opts g) (set_kv-IsWf now key v opts g wf),
        get-items later k g wf,
        set_kv-items now key v opts g wf,
        lookup-insert key k (record { value = v; expiration = exp }) (items_of g),
      )

  -- With a positive TTL whose end an int64 can hold, a key that was set is found up to and
  -- including the end of its TTL, and not after it.
  pub get-set_kv_ttl :
      (now later ttl : ℤ) (key : String) (v : V) (g : Globals V)
      → IsWf g
      → pos 0 <ℤ ttl
      → pos 0 <ℤ now
      → FitsInt64 (now +ℤ ttl)
      → (later ≤ℤ now +ℤ ttl → (get later key (set_kv now key v (with_ttl ttl ∷ []) g)).1 ≡ some v)
        × (now +ℤ ttl <ℤ later → (get later key (set_kv now key v (with_ttl ttl ∷ []) g)).1 ≡ none)
  unfolding with_ttl configure expiration_of is_expired
  get-set_kv_ttl now later ttl key v g wf p q fits =
      let set = get-set_kv now later key key v (with_ttl ttl ∷ []) g wf in
      (
        λ h. ground (arith, set, beq_refl key, to_int64_id (now +ℤ ttl) fits, +ℤ_parts now ttl),
        λ h. ground (arith, set, beq_refl key, to_int64_id (now +ℤ ttl) fits, +ℤ_parts now ttl),
      )

  -- Without a TTL, or with one that is not positive, a key that was set never expires.
  pub get-set_kv_forever :
      (now later ttl : ℤ) (key : String) (v : V) (g : Globals V)
      → IsWf g
      → ttl ≤ℤ pos 0
      → ((get later key (set_kv now key v (with_ttl ttl ∷ []) g)).1 ≡ some v)
        × ((get later key (set_kv now key v [] g)).1 ≡ some v)
  unfolding with_ttl configure expiration_of is_expired
  get-set_kv_forever now later ttl key v g wf h = ground (
    arith,
    get-set_kv now later key key v (with_ttl ttl ∷ []) g wf,
    get-set_kv now later key key v [] g wf,
    beq_refl key,
  )

  -- `Delete` removes its key and no other, and `Clear` removes all.
  pub get-delete_key :
      (later : ℤ) (key k : String) (g : Globals V)
      → IsWf g
      → ((get later k (delete_key key g)).1
          ≡ (if string_eq.beq key k then none else (get later k g).1))
        × ((get later k (clear g)).1 ≡ none)
  unfolding fetch
  get-delete_key later key k g wf = ground (
    arith,
    get-items later k (delete_key key g) (delete_key-IsWf key g wf),
    get-items later k g wf,
    delete_key-items key g wf,
    lookup-delete key k (items_of g),
    get-items later k (clear g) (clear-IsWf g wf),
    clear-items g wf,
  )

  -- `IsKeyExists` answers whether `Get` returns a value at that time.
  pub is_key_exists_iff :
      (now : ℤ) (k : String) (g : Globals V)
      → ((is_key_exists now k g).1 ≡ true) ↔ ((v : V) × ((get now k g).1 ≡ some v))
  unfolding is_key_exists
  is_key_exists_iff now k g = elim (Option-cases (get now k g).1) [
    | inl e ↦ ((λ h. absurd (ground arith)), λ (v, h). absurd (ground arith))
    | inr (v, e) ↦ ((λ h. (v, e)), λ h. ground arith)
  ]
