-- ===== src/Migrate/Tests.antt =====
-- Runs of the migrator, and an example of the result about it.
use go_utility.Base.{◌≡◌, refl, String, string_eq, Option, none, some, [], ◌∷◌}
use go_utility.Migrate.{
  with_schema, postgres, migrator, not_made, unsupported, new, source_close, close,
}

-- The schema is given to PostgreSQL only, and an unknown driver is refused once the source is open.
new_postgres :
    new {E = String} none
      (λ d. none)
      (λ d. none)
      "postgres"
      (with_schema "a" ∷ with_schema "b" ∷ [])
    ≡ migrator (postgres (some "b"))
unfolding new with_schema
new_postgres = refl

new_unknown :
    new {E = String} none (λ d. none) (λ d. none) "oracle" [] ≡ not_made (unsupported "oracle")
unfolding new
new_unknown = refl

-- Of two errors at the end only that of the source is told.
close_both : close {E = String} (some "source") (some "database") ≡ some (source_close "source")
unfolding close
close_both = refl

abbrev no_error : Option String
no_error = none
