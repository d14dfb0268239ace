-- ===== src/Sql/Named.antt =====
-- dml.go, `prepareQueryNamed`: the query and the arguments that go to the database.
use go_utility.Base.{
  ℕ, zero, suc, ◌+◌, Bool, true, false, ◌≡◌, ◌≢◌, refl, ◌∙◌, ap, inl, inr, Bool-cases, List, [],
  ◌∷◌, ◌++◌, map, All, All-append, ltb, ltb→lt, ◌/◌, ◌%◌, ◌==◌, bytes_eq, beq_refl, eq_of_beq,
  arith,
}
use go_utility.Base.Text.{has_prefix, itoa, itoa_from}
use go_utility.Sql.{replace_from, named_mark, numbered_mark, prepare_from, prepare_query_named}
use go_utility.Sql.Replace.{
  Piece, lit, name, print, bind, NoColon, IsKey, StartsOff, IsWf, has_prefix_within, NoColon-of_key,
  replace_lit, replace_mark, replace_other,
}

-- Each key bound to the mark of its position.
abbrev pub bind_all {ℓ} : {V : Type ℓ} → ℕ → List (List ℕ × V) → List Piece → List Piece
bind_all count [] ps = ps
bind_all count ((k, v) ∷ param) ps = bind_all (count + 1) param (bind k (numbered_mark count) ps)

abbrev pub keys_of {ℓ} : {V : Type ℓ} → List (List ℕ × V) → List (List ℕ)
keys_of param = map (λ p. p.0) param

itoa_from-NoColon : (f n : ℕ) → NoColon (itoa_from f n)
unfolding itoa_from
itoa_from-NoColon zero n = tt
itoa_from-NoColon (suc f) n = elim (Bool-cases (ltb n 10)) [
  | inl lt ↦ rw lt ((λ e. absurd (omega (arith, ltb→lt n 10 lt))), tt)
  | inr ge ↦ rw ge (
      All-append (λ c. c ≢ b':') (itoa_from f (n / 10)) ((b'0' + n % 10) ∷ [])
        (itoa_from-NoColon f (n / 10)) ((λ e. absurd (omega arith)), tt))
]

itoa-NoColon : (n : ℕ) → NoColon (numbered_mark n)
unfolding itoa
itoa-NoColon n = ((λ e. absurd (ground arith)), itoa_from-NoColon (suc n) n)

module _ (is_name : ℕ → Bool) (colon : is_name b':' ≡ false) (dollar : is_name b'$' ≡ false) where
  -- Another key stands at no name.
  stands_not :
      (k j s : List ℕ)
      → IsKey is_name k
      → StartsOff is_name s
      → (has_prefix k j ≡ true → k ≡ j)
      → (j == k) ≡ false
      → has_prefix k (j ++ s) ≡ false
  stands_not k j s hk hs free other = elim (Bool-cases (has_prefix k (j ++ s))) [
    | inl there ↦ absurd (
        ground (
          arith,
          free (has_prefix_within is_name k j s hk hs there),
          beq_refl j,
          bytes_eq.beq_iff j k,
        ))
    | inr no_match ↦ no_match
  ]

  StartsOff-bind :
      (k : List ℕ) (n : ℕ) (ps : List Piece)
      → StartsOff is_name (print ps)
      → StartsOff is_name (print (bind k (numbered_mark n) ps))
  StartsOff-bind k n [] h = tt
  StartsOff-bind k n (lit [] ∷ ps) h = StartsOff-bind k n ps h
  StartsOff-bind k n (lit (c ∷ bs) ∷ ps) h = h
  StartsOff-bind k n (name j ∷ ps) h = ground arith

  IsWf-bind :
      (k : List ℕ) (n : ℕ) (keys : List (List ℕ)) (ps : List Piece)
      → NoColon (numbered_mark n)
      → IsWf is_name (k ∷ keys) ps
      → IsWf is_name keys (bind k (numbered_mark n) ps)
  IsWf-bind k n keys [] hn h = tt
  IsWf-bind k n keys (lit bs ∷ ps) hn h = (h.0, IsWf-bind k n keys ps hn h.1)
  IsWf-bind k n keys (name j ∷ ps) hn h = elim (Bool-cases (j == k)) [
    | inl same ↦ rw same (hn, IsWf-bind k n keys ps hn h.3)
    | inr other ↦ rw other (h.0, StartsOff-bind k n ps h.1, h.2.1, IsWf-bind k n keys ps hn h.3)
  ]

  -- Replacing one key's mark in the printed query prints the query with the key bound.
  replace-print :
      (k new : List ℕ) (keys : List (List ℕ)) (ps : List Piece)
      → IsKey is_name k
      → IsWf is_name (k ∷ keys) ps
      → replace_from (named_mark k) new 0 (print ps) ≡ print (bind k new ps)
  unfolding replace_from
  replace-print k new keys [] hk h = refl
  replace-print k new keys (lit bs ∷ ps) hk h =
      replace_lit k new bs (print ps) h.0 ∙ ap (λ s. bs ++ s) (replace-print k new keys ps hk h.1)
  replace-print k new keys (name j ∷ ps) hk h = elim (Bool-cases (j == k)) [
    | inl same ↦
        rw (same, eq_of_beq j k same)
          (replace_mark k new (print ps) ∙ ap (λ s. new ++ s) (replace-print k new keys ps hk h.3))
    | inr other ↦ rw other (
        replace_other k new j (print ps) (stands_not k j (print ps) hk h.1 h.2.0 other)
          (NoColon-of_key is_name j colon h.0)
        ∙ ap (λ s. named_mark j ++ s) (replace-print k new keys ps hk h.3))
  ]

  print-prepare_from :
      {V : Type 0} (count : ℕ) (param : List (List ℕ × V)) (ps : List Piece)
      → All (IsKey is_name) (keys_of param)
      → IsWf is_name (keys_of param) ps
      → prepare_from count (print ps) param
        ≡ (print (bind_all count param ps), map (λ p. p.1) param)
  unfolding prepare_from
  print-prepare_from count [] ps hk h = refl
  print-prepare_from count ((k, v) ∷ param) ps hk h =
      let step = replace-print k (numbered_mark count) (keys_of param) ps hk.0 h in
      let bound = IsWf-bind k count (keys_of param) ps (itoa-NoColon count) h in
      let rest =
        print-prepare_from (count + 1) param (bind k (numbered_mark count) ps) hk.1 bound in
      ap (λ s. ((prepare_from (count + 1) s param).0, v ∷ (prepare_from (count + 1) s param).1))
        step
      ∙ ap (λ t. (t.0, v ∷ t.1)) rest

  -- Where each key is made of name bytes, plain text has no colon, and each name in the query ends
  -- at a byte that is none of a name and has no other key as a prefix, every name becomes the
  -- mark of its key's position, a name without a key stays, nothing else changes, and the
  -- arguments are the values in the order of the marks: in whatever order Go iterates.
  pub prepare_query_named_lem :
      {V : Type 0} (param : List (List ℕ × V)) (ps : List Piece)
      → All (IsKey is_name) (keys_of param)
      → IsWf is_name (keys_of param) ps
      → prepare_query_named (print ps) param ≡ (print (bind_all 1 param ps), map (λ p. p.1) param)
  unfolding prepare_query_named
  prepare_query_named_lem param ps = print-prepare_from 1 param ps

replace_plain : (k new bs : List ℕ) → NoColon bs → replace_from (named_mark k) new 0 bs ≡ bs
unfolding replace_from
replace_plain k new [] h = refl
replace_plain k new (c ∷ bs) h = ground (arith, replace_plain k new bs h.1)

-- A key that is a prefix of another and is iterated over first captures it: the longer key's name
-- becomes the first key's mark with the rest of the name behind it, and binds the wrong value.
pub prepare_query_named_captures :
    {V : Type 0} (k t : List ℕ) (v w : V)
    → NoColon t
    → prepare_query_named (named_mark (k ++ t)) ((k, v) ∷ (k ++ t, w) ∷ [])
      ≡ (numbered_mark 1 ++ t, v ∷ w ∷ [])
unfolding prepare_query_named prepare_from
prepare_query_named_captures k t v w h =
    ap (λ q. (q, v ∷ w ∷ []))
      (ap (replace_from (named_mark (k ++ t)) (numbered_mark 2) 0) (
          replace_mark k (numbered_mark 1) t
          ∙ ap (λ q. numbered_mark 1 ++ q) (replace_plain k (numbered_mark 1) t h))
        ∙ replace_plain (k ++ t) (numbered_mark 2) (numbered_mark 1 ++ t)
            (All-append (λ c. c ≢ b':') (numbered_mark 1) t (itoa-NoColon 1) h))
