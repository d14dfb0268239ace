-- ===== src/Sql/Replace.antt =====
-- dml.go, `prepareQueryNamed`: what one replacement does to a query made of texts and names.
use go_utility.Base.{
  ℕ, Bool, true, false, ◌≡◌, ◌≢◌, refl, List, [], ◌∷◌, ◌++◌, length, All, if◌then◌else◌, ◌==◌,
  bytes_eq, arith,
}
use go_utility.Base.Text.{has_prefix, has_prefix-append}
use go_utility.Sql.{replace_from, named_mark}

-- A query as its author sees it: plain text, and the names of parameters.
pub data Piece : Type 0 where
  lit : List ℕ → Piece
  name : List ℕ → Piece

abbrev pub print : List Piece → List ℕ
print [] = []
print (lit bs ∷ ps) = bs ++ print ps
print (name k ∷ ps) = (b':' ∷ k) ++ print ps

-- The pieces with one name bound to a text.
abbrev pub bind : List ℕ → List ℕ → List Piece → List Piece
bind k new [] = []
bind k new (lit bs ∷ ps) = lit bs ∷ bind k new ps
bind k new (name j ∷ ps) = (if j == k then lit new else name j) ∷ bind k new ps

abbrev pub NoColon : List ℕ → Type 0
NoColon bs = All (λ c. c ≢ b':') bs

module _ (is_name : ℕ → Bool) where
  abbrev pub IsKey : List ℕ → Type 0
  IsKey k = All (λ c. is_name c ≡ true) k

  -- The text does not go on with a byte of a name.
  abbrev pub StartsOff : List ℕ → Type 0
  StartsOff [] = Unit
  StartsOff (c ∷ s) = is_name c ≡ false

  -- Plain text has no colon; a name is of its bytes, ends where the next piece begins, and has no
  -- key of `keys` as a proper prefix.
  abbrev pub IsWf : List (List ℕ) → List Piece → Type 0
  IsWf keys [] = Unit
  IsWf keys (lit bs ∷ ps) = NoColon bs × IsWf keys ps
  IsWf keys (name j ∷ ps) =
      IsKey j × StartsOff (print ps) × All (λ k. has_prefix k j ≡ true → k ≡ j) keys × IsWf keys ps

  -- A key of name bytes that stands at a name stands within it.
  pub has_prefix_within :
      (k j s : List ℕ)
      → IsKey k
      → StartsOff s
      → has_prefix k (j ++ s) ≡ true
      → has_prefix k j ≡ true
  has_prefix_within [] j s hk hs h = refl
  has_prefix_within (x ∷ k) [] [] hk hs h = h
  has_prefix_within (x ∷ k) [] (c ∷ s) hk hs h = absurd (ground arith)
  has_prefix_within (x ∷ k) (y ∷ j) s hk hs h = ground (arith, has_prefix_within k j s hk.1 hs)

  pub NoColon-of_key : (j : List ℕ) → is_name b':' ≡ false → IsKey j → NoColon j
  NoColon-of_key [] h hj = tt
  NoColon-of_key (c ∷ j) h hj = ((λ e. absurd (ground arith)), NoColon-of_key j h hj.1)

pub replace_lit :
    (k new bs s : List ℕ)
    → NoColon bs
    → replace_from (named_mark k) new 0 (bs ++ s) ≡ bs ++ replace_from (named_mark k) new 0 s
unfolding replace_from
replace_lit k new [] s h = refl
replace_lit k new (c ∷ bs) s h = ground (arith, replace_lit k new bs s h.1)

replace_skip :
    (old new xs s : List ℕ) → replace_from old new (length xs) (xs ++ s) ≡ replace_from old new 0 s
unfolding replace_from
replace_skip old new [] s = refl
replace_skip old new (x ∷ xs) s = replace_skip old new xs s

-- The mark itself is replaced.
pub replace_mark :
    (k new s : List ℕ)
    → replace_from (named_mark k) new 0 (named_mark k ++ s)
      ≡ new ++ replace_from (named_mark k) new 0 s
unfolding replace_from
replace_mark k new s = ground (arith, has_prefix-append k s, replace_skip (named_mark k) new k s)

-- A mark at which the key does not stand is passed over.
pub replace_other :
    (k new j s : List ℕ)
    → has_prefix k (j ++ s) ≡ false
    → NoColon j
    → replace_from (named_mark k) new 0 (named_mark j ++ s)
      ≡ named_mark j ++ replace_from (named_mark k) new 0 s
unfolding replace_from
replace_other k new j s h hj = ground (arith, replace_lit k new j s hj)
