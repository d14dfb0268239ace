-- ===== src/Response/Convert.antt =====
-- echo_error.go, `ConvertError` over every map of handlers, and the handler over the default map.
use go_utility.Base.{
  ℕ, String, true, false, none, some, [], ◌∷◌, ◌≡◌, refl, sym, subst, ◌∙◌, ◌⊎◌, inl, inr,
  Bool-cases, Option-cases, if◌then◌else◌, arith,
}
use go_utility.Base.Int.{ℤ, pos, ◌≤ℤ◌, ◌<ℤ◌, leb_ℤ}
use go_utility.Base.Codes.{int_eq, lookup_code}
use go_utility.Response.{
  GoError, error_w, with_stack, ErrorResponse, as_error, as_error_w, as_response, is_not_found,
  is_validation, ErrorMap, keys, sort_desc, pick, convert_error, default_map, respond,
  err_internal_server_error, err_unauthorized, err_forbidden, err_session_expired, err_not_found,
  err_bad_request, http_error, handle_error,
}
use go_utility.Response.Order.{elem, IsGreatest, Picked, pick-sort_desc, Picked-unique, Picked-same}

elem-keys-none : (k : ℤ) (m : ErrorMap) → lookup_code k m ≡ none → elem k (keys m) ≡ false
elem-keys-none k [] h = refl
elem-keys-none k ((j, f) ∷ m) h = ground (arith, elem-keys-none k m)

elem-keys-some :
    (k : ℤ) (m : ErrorMap) (f : GoError → ErrorResponse)
    → lookup_code k m ≡ some f
    → elem k (keys m) ≡ true
elem-keys-some k [] f h = absurd (ground arith)
elem-keys-some k ((j, g) ∷ m) f h = ground (arith, elem-keys-some k m f)

elem-keys_held :
    (k : ℤ) (m : ErrorMap)
    → elem k (keys m) ≡ true
    → (f : GoError → ErrorResponse) × (lookup_code k m ≡ some f)
elem-keys_held k m h = elim (Option-cases (lookup_code k m)) [
  | inl absent ↦ absurd (ground (arith, elem-keys-none k m absent))
  | inr held ↦ held
]

-- The maps agree on which keys they have.
elem-keys_same :
    (m m' : ErrorMap)
    → ((k : ℤ) → lookup_code k m ≡ lookup_code k m')
    → (k : ℤ) → elem k (keys m) ≡ elem k (keys m')
elem-keys_same m m' same k = elim (Option-cases (lookup_code k m)) [
  | inl absent ↦ elem-keys-none k m absent ∙ sym (elem-keys-none k m' (sym (same k) ∙ absent))
  | inr (f, present) ↦
      elem-keys-some k m f present ∙ sym (elem-keys-some k m' f (sym (same k) ∙ present))
]

pick_same :
    (m m' : ErrorMap)
    → ((k : ℤ) → lookup_code k m ≡ lookup_code k m')
    → (c : ℤ) → pick c (sort_desc (keys m)) ≡ pick c (sort_desc (keys m'))
pick_same m m' same c =
    Picked-unique c (keys m') (pick c (sort_desc (keys m))) (pick c (sort_desc (keys m')))
      (Picked-same c (keys m) (keys m') (pick c (sort_desc (keys m))) (elem-keys_same m m' same)
        (pick-sort_desc c (keys m)))
      (pick-sort_desc c (keys m'))

-- `ConvertError` depends on what the map holds, and not on the order in which Go iterates over it.
pub convert_error_same :
    (err : GoError) (m m' : ErrorMap)
    → ((k : ℤ) → lookup_code k m ≡ lookup_code k m')
    → convert_error err m ≡ convert_error err m'
unfolding convert_error
convert_error_same err m m' same = elim (Option-cases (as_error_w err)) [
  | inl absent ↦ rw (absent, convert_error) refl
  | inr ((c, msg), present) ↦ elim (Option-cases (pick c (sort_desc (keys m')))) [
    | inl none_left ↦ rw (present, convert_error, pick_same m m' same c, none_left) refl
    | inr (k, picked) ↦ rw (present, convert_error, pick_same m m' same c, picked, same k) refl
  ]
]

-- An error without an `ErrorW` in its chain is left alone. One with code `c` is left alone when
-- every key of the map is above `c`; else it becomes the response of the handler that the map
-- holds under its greatest key that is not above `c`.
pub convert_error_lem :
    (err : GoError) (m : ErrorMap)
    → ((as_error_w err ≡ none) × (convert_error err m ≡ err))
      ⊎ ((c : ℤ) × (msg : String) × (as_error_w err ≡ some (c, msg))
          × ((((j : ℤ) → elem j (keys m) ≡ true → c <ℤ j) × (convert_error err m ≡ err))
              ⊎ ((k : ℤ) × (f : GoError → ErrorResponse) × IsGreatest c (keys m) k
                  × (lookup_code k m ≡ some f)
                  × (convert_error err m ≡ as_error (f (error_w c msg))))))
unfolding convert_error
convert_error_lem err m = elim (Option-cases (as_error_w err)) [
  | inl absent ↦ inl (absent, rw (absent, convert_error) refl)
  | inr ((c, msg), present) ↦ elim (Option-cases (pick c (sort_desc (keys m)))) [
    | inl none_left ↦
        let above = subst (Picked c (keys m)) none_left (pick-sort_desc c (keys m)) in
        inr (c, msg, present, inl (above, rw (present, convert_error, none_left) refl))
    | inr (k, picked) ↦
        let best = subst (Picked c (keys m)) picked (pick-sort_desc c (keys m)) in
        let (f, held) = elem-keys_held k m best.found in
        inr
          (c, msg, present, inr (k, f, best, held, rw (present, convert_error, picked, held) refl))
  ]
]

-- The status that the package documents for a code: the thresholds of the default map.
unfoldable pub status_of : ℤ → ℕ
status_of c =
    if leb_ℤ (pos 500000) c
    then 500
    else (if leb_ℤ (pos 440000) c
        then 440
        else (if leb_ℤ (pos 404000) c
            then 404
            else (if leb_ℤ (pos 403000) c
                then 403
                else (if leb_ℤ (pos 401000) c
                    then 401
                    else (if leb_ℤ (pos 400000) c then 400 else 500)))))

-- The response of an error with code `c` and text `msg` under the default map.
unfoldable pub default_response : GoError → ℤ → String → ErrorResponse
unfolding status_of
default_response e c msg = record {
  http_code = status_of c;
  message = msg;
  error_code = c;
  internal = e;
}

convert_default :
    (err : GoError) (c : ℤ) (msg : String)
    → as_error_w err ≡ some (c, msg)
    → pos 400000 ≤ℤ c
    → convert_error err default_map ≡ as_error (default_response (with_stack (error_w c msg)) c msg)
unfolding convert_error sort_desc pick default_map default_response respond status_of
    err_internal_server_error err_unauthorized err_forbidden err_session_expired err_not_found
    err_bad_request
convert_default err c msg e h = ground arith

convert_low :
    (err : GoError) (c : ℤ) (msg : String)
    → as_error_w err ≡ some (c, msg)
    → c <ℤ pos 400000
    → convert_error err default_map ≡ err
unfolding convert_error sort_desc pick default_map
convert_low err c msg e h = ground arith

-- The `ErrorResponse` of an error, else that of an internal server error.
unfoldable pub found_in : GoError → ErrorResponse
found_in err = elim (as_response err) [
  | some r ↦ r
  | none ↦ record {
    http_code = 500;
    message = "internal server error";
    error_code = pos 500000;
    internal = err;
  }
]

-- What a response is replaced by: a failed validation in its internal error is answered by 400 and its
-- text, even beside a missing route, which is answered by 404.
unfoldable pub replaced : (GoError → String) → ErrorResponse → ErrorResponse
unfolding http_error
replaced text_of r =
    if is_validation r.internal
    then http_error r.internal 400 (pos 400000) (text_of r.internal)
    else (if is_not_found r.internal
        then http_error r.internal 404 (pos 404000) "requested endpoint is not registered"
        else r)

module _ (text_of : GoError → String) where
  left_alone :
      (err : GoError)
      → convert_error err default_map ≡ err
      → handle_error text_of default_map err ≡ replaced text_of (found_in err)
  unfolding handle_error replaced found_in http_error
  left_alone err h = elim (Option-cases (as_response err)) [
    | inl absent ↦ rw (handle_error, h, found_in, absent) (ground arith)
    | inr (r, present) ↦ rw (handle_error, h, found_in, present) (ground (arith, present))
  ]

  -- Under the default map, and for errors that may wrap several others: an error in which `errors.As`
  -- finds an `ErrorW` of a code from 400000 on is answered with that code, its text and the status of
  -- the code's threshold, whatever else it wraps. Any other error is answered with the `ErrorResponse`
  -- that `errors.As` finds, else as an internal server error; but as a failed validation if the internal
  -- error of that response wraps one, else as a missing route if it wraps one.
  pub handle_error-default_map :
      (err : GoError)
      → ((c : ℤ) × (msg : String) × (as_error_w err ≡ some (c, msg))
          × (pos 400000 ≤ℤ c)
          × (handle_error text_of default_map err
              ≡ default_response (with_stack (error_w c msg)) c msg))
        ⊎ (((as_error_w err ≡ none)
              ⊎ ((c : ℤ) × (msg : String) × (as_error_w err ≡ some (c, msg)) × (c <ℤ pos 400000)))
            × (handle_error text_of default_map err ≡ replaced text_of (found_in err)))
  unfolding handle_error default_response convert_error
  handle_error-default_map err = elim (Option-cases (as_error_w err)) [
    | inl absent ↦ inr (inl absent, left_alone err (rw (convert_error, absent) refl))
    | inr ((c, msg), present) ↦ elim (Bool-cases (leb_ℤ (pos 400000) c)) [
      | inl high ↦ inl (
        c,
        msg,
        present,
        ground arith,
        rw (handle_error, convert_default err c msg present (ground arith)) refl,
      )
      | inr low ↦ inr (
        inr (c, msg, present, ground arith),
        left_alone err (convert_low err c msg present (ground arith)),
      )
    ]
  ]
