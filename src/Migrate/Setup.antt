-- ===== src/Migrate/Setup.antt =====
-- migratew: what `New` needs for a migrator.
use go_utility.Base.{String, List, [], ◌∷◌}

-- The schema that is asked for last, or the one before all options.
abbrev pub last_of : String → List String → String
last_of schema [] = schema
last_of schema (s ∷ schemas) = last_of s schemas
