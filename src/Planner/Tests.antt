-- ===== src/Planner/Tests.antt =====
-- `SELECT $1, $2::int8` after a first mention of `$2` without a cast.
use datafusion_postgres.Prelude.{String, Option, none, some, List, [], ◌∷◌}
use datafusion_postgres.Prelude.Dict.{Dict}
use datafusion_postgres.Planner.{Visited, cast_of, placeholder}

abbrev visited : List (Visited String)
visited = placeholder "$2" ∷ placeholder "$1" ∷ cast_of "$2" "int8" ∷ placeholder "$2" ∷ []

abbrev found_types : Dict (Option String)
found_types = ("$1", some "text") ∷ ("$2", none) ∷ []
