-- ===== src/Sql/Tests.antt =====
-- Runs of dml.go, and an example of each result about it.
use go_utility.Base.{
  ℕ, ◌≤◌, String, Bool, ◌&&◌, ◌≡◌, refl, ◌↔◌, ◌⊎◌, Option, none, some, List, [], ◌∷◌, map, length,
  All, leb, arith,
}
use go_utility.Base.Text.{codes, itoa}
use go_utility.Sql.{
  prepare_query_named, Outcome, returned, panicked, begin, callback, rollback, commit,
  do_in_transaction,
}
use go_utility.Sql.Replace.{Piece, lit, name, print, IsKey, IsWf, NoColon}
use go_utility.Sql.Named.{bind_all, keys_of, prepare_query_named_lem}
use go_utility.Sql.Commit.{ends, do_in_transaction_lem}

-- Small letters.
abbrev is_letter : ℕ → Bool
is_letter c = leb 97 c && leb c 122

abbrev pieces : List Piece
pieces = lit (codes "id=") ∷ name (codes "id") ∷ lit (codes " AND u=") ∷ name (codes "uid") ∷ []

abbrev param : List (List ℕ × ℕ)
param = (codes "uid", 7) ∷ (codes "id", 9) ∷ []

prepared :
    prepare_query_named (codes "id=:id AND u=:uid") param ≡ (codes "id=$2 AND u=$1", 7 ∷ 9 ∷ [])
unfolding prepare_query_named itoa
prepared = refl

param_keys : All (IsKey is_letter) (keys_of param)
param_keys = ground arith

pieces-IsWf : IsWf is_letter (keys_of param) pieces
pieces-IsWf = ground arith

prepare_query_named_lem_example :
    prepare_query_named (print pieces) param
    ≡ (print (bind_all 1 param pieces), map (λ p. p.1) param)
prepare_query_named_lem_example =
    prepare_query_named_lem is_letter refl refl param pieces param_keys pieces-IsWf

digit_two : NoColon (codes "2")
digit_two = ground arith

-- A panic that is rolled back is reported neither as a result nor as an error.
silent_panic :
    do_in_transaction {R = ℕ} {E = String} none panicked none none
    ≡ (begin ∷ callback ∷ rollback ∷ [], none, none)
unfolding do_in_transaction
silent_panic = refl

abbrev insert_fails : Outcome ℕ String
insert_fails = returned 3 (some "duplicate key")

do_in_transaction_lem_example :
    ((ends (do_in_transaction none insert_fails none none).0 ≡ commit ∷ [])
      ↔ ((◌≡◌ {A = Option String} none none) × (r : ℕ) × (insert_fails ≡ returned r none)))
    × ((length (ends (do_in_transaction none insert_fails none none).0) ≡ 1)
        ↔ (◌≡◌ {A = Option String} none none))
    × (length (ends (do_in_transaction none insert_fails none none).0) ≤ 1)
    × (((do_in_transaction none insert_fails none none).2 ≡ none) ↔ (
        (◌≡◌ {A = Option String} none none)
        × ((((r : ℕ) × (insert_fails ≡ returned r none)) × (◌≡◌ {A = Option String} none none))
            ⊎ ((insert_fails ≡ panicked) × (◌≡◌ {A = Option String} none none)))))
do_in_transaction_lem_example = do_in_transaction_lem none none none insert_fails
