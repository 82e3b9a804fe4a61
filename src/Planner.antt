-- ===== src/Planner.antt =====
-- datafusion-postgres/src/planner.rs: the types of a statement's parameters. DataFusion's walk over
-- a plan is a parameter: the casts of placeholders and the placeholders, in the order of the walk.
pub mod Inference
mod Tests
use datafusion_postgres.Prelude.{
  String, Bool, true, false, not, ◌||◌, Option, none, some, List, [], ◌∷◌, str_eq, if◌then◌else◌,
}
use datafusion_postgres.Prelude.Lists.{any}
use datafusion_postgres.Prelude.Dict
use datafusion_postgres.Prelude.Dict.{Dict}

-- What the closure inside the walk tells apart: `Expr::Cast` of a placeholder to a type, and
-- `Expr::Placeholder`. A cast is met before the placeholder inside it.
pub data Visited (T : Type 0) : Type 0 where
  cast_of : String → T → Visited T
  placeholder : String → Visited T

-- The types found so far, and the placeholders that some cast had.
pub record Found (T : Type 0) : Type 0 where
  pub types : Dict (Option T)
  pub casted : List String

abbrev pub is_some {ℓ} : {A : Type ℓ} → Option A → Bool
is_some none = false
is_some (some _) = true

module _ {T : Type 0} where
  unfoldable pub visit : Visited T → Found T → Found T
  unfolding any
  visit (cast_of id t) found = record {
    types = Dict.insert id (some t) found.types;
    casted = id ∷ found.casted;
  }
  visit (placeholder id) found =
      if any (λ c. str_eq c id) found.casted || is_some (Dict.get id found.types)
      then found
      else record found { types = Dict.insert id none found.types }

  unfoldable pub visit_all : List (Visited T) → Found T → Found T
  visit_all [] found = found
  visit_all (v ∷ vs) found = visit_all vs (visit v found)

  unfoldable pub extract_placeholder_cast_types : List (Visited T) → Dict (Option T)
  unfolding visit_all
  extract_placeholder_cast_types visited =
      (visit_all visited (record { types = []; casted = [] })).types

  -- `if existing.is_none() { *existing = opt_type }`
  abbrev pub fill : Option T → Option T → Option T
  fill cast none = cast
  fill cast (some t) = some t

  abbrev pub modify_or_insert :
      Option (Option T) → String → Option T → Dict (Option T) → Dict (Option T)
  modify_or_insert (some _) id cast merged = Dict.update id (fill cast) merged
  modify_or_insert none id cast merged = Dict.insert id cast merged

  abbrev pub merge_entry : String → Option T → Dict (Option T) → Dict (Option T)
  merge_entry id cast merged = modify_or_insert (Dict.get id merged) id cast merged

  unfoldable pub merge : Dict (Option T) → Dict (Option T) → Dict (Option T)
  merge merged [] = merged
  merge merged ((id, cast) ∷ casts) = merge (merge_entry id cast merged) casts

  -- `get_inferred_parameter_types`, on the types that `get_parameter_types` gave.
  unfoldable pub get_inferred_parameter_types : Dict (Option T) → List (Visited T) → Dict (Option T)
  unfolding any extract_placeholder_cast_types merge
  get_inferred_parameter_types param_types visited =
      if any (λ entry. not (is_some entry.1)) param_types
      then merge param_types (extract_placeholder_cast_types visited)
      else param_types
