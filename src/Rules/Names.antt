-- ===== src/Rules/Names.antt =====
-- datafusion-pg-catalog/src/sql/rules.rs: the names of tables with dots between their parts, as the
-- rules for wildcards compare them.
use Prim.Native.String
use mathlib.Core.Option
use datafusion_postgres.Prelude.{String, Option, none, some, List, [], ◌∷◌}
use datafusion_postgres.Ast.{Ident, ObjectName, as_ident}

-- `join(".")`
unfoldable pub dotted : List String → String
dotted [] = ""
dotted (name ∷ []) = name
dotted (name ∷ next ∷ names) = String.◌++◌ name (String.◌++◌ "." (dotted (next ∷ names)))

-- `map(|v| v.as_ident().unwrap().value.clone())`: `none` is the panic of `unwrap`
abbrev pub parts_text : {X : Type 0} → ObjectName X → Option (List String)
parts_text [] = some []
parts_text (part ∷ parts) =
    let rest = parts_text parts in
    elim (as_ident part) [ none ↦ none | some i ↦ Option.map (λ names. i.text ∷ names) rest ]

unfoldable pub object_name_text : {X : Type 0} → ObjectName X → Option String
unfolding dotted
object_name_text name = Option.map dotted (parts_text name)

-- `push` of a name that is there, among the names that follow
abbrev pub push_name : Option String → Option (List String) → Option (List String)
push_name none names = none
push_name (some name) names = Option.map (λ found. name ∷ found) names

abbrev pub ident_text : Ident → String
ident_text i = i.text
