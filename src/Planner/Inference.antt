-- ===== src/Planner/Inference.antt =====
-- Which parameters have a type after the inference.
use mathlib.Core.List.{Memᴰ}
use datafusion_postgres.Prelude.{
  String, true, false, not, Option, none, some, List, [], ◌∷◌, ◌≡◌, ◌≢◌, inl, inr, refl, ◌∙◌, arith,
  eq_iff, Bool-cases, Option-cases, str_eq, if◌then◌else◌,
}
use datafusion_postgres.Prelude.Lists.{any}
use datafusion_postgres.Prelude.Dict
use datafusion_postgres.Prelude.Dict.{Dict, get-insert, get-update}
use datafusion_postgres.Planner.{
  Visited, cast_of, placeholder, Found, is_some, visit, visit_all, extract_placeholder_cast_types,
  fill, merge_entry, merge, get_inferred_parameter_types,
}

module _ {T : Type 0} (id : String) where
  -- The map has a type for the parameter.
  abbrev pub IsTyped : Dict (Option T) → Type 0
  IsTyped types = (t : T) × (Dict.get id types ≡ some (some t))

  -- What one entry of the casts makes of the parameter.
  abbrev entry_type : Option T → Option (Option T) → Option T
  entry_type cast none = cast
  entry_type cast (some known) = fill cast known

  get-merge_entry :
      (j : String) (cast : Option T) (merged : Dict (Option T))
      → Dict.get id (merge_entry j cast merged)
        ≡ (if str_eq j id then some (entry_type cast (Dict.get id merged)) else Dict.get id merged)
  get-merge_entry j cast merged = elim (Option-cases (Dict.get j merged)) [
    | inl missing ↦ ground (arith, missing, get-insert j id cast merged, eq_iff j id)
    | inr (known, found) ↦ ground (arith, found, get-update j id (fill cast) merged, eq_iff j id)
  ]

  -- A type that is there stays.
  merge_entry-keeps :
      (j : String) (cast : Option T) (merged : Dict (Option T)) (t : T)
      → Dict.get id merged ≡ some (some t)
      → Dict.get id (merge_entry j cast merged) ≡ some (some t)
  merge_entry-keeps j cast merged t typed =
      get-merge_entry j cast merged ∙ (elim (Bool-cases (str_eq j id)) [
        | inl same ↦ rw same (rw typed refl)
        | inr other ↦ rw other typed
      ])

  merge-keeps :
      (casts merged : Dict (Option T)) (t : T)
      → Dict.get id merged ≡ some (some t)
      → Dict.get id (merge merged casts) ≡ some (some t)
  unfolding merge
  merge-keeps [] merged t typed = typed
  merge-keeps ((j, cast) ∷ casts) merged t typed =
      merge-keeps casts (merge_entry j cast merged) t (merge_entry-keeps j cast merged t typed)

  entry_type-types :
      (t : T) (known : Option (Option T)) → (u : T) × (entry_type (some t) known ≡ some u)
  entry_type-types t none = (t, refl)
  entry_type-types t (some none) = (t, refl)
  entry_type-types t (some (some u)) = (u, refl)

  merge_entry-types :
      (j : String) (t : T) (merged : Dict (Option T))
      → str_eq j id ≡ true
      → IsTyped (merge_entry j (some t) merged)
  merge_entry-types j t merged same =
      let (u, typed) = entry_type-types t (Dict.get id merged) in
      (u, get-merge_entry j (some t) merged ∙ rw same (rw typed refl))

  -- A cast fills a type that is missing.
  merge-types :
      (casts merged : Dict (Option T)) (t : T)
      → Dict.get id casts ≡ some (some t)
      → IsTyped (merge merged casts)
  unfolding merge Dict.get
  merge-types [] merged t typed = cc
  merge-types ((j, cast) ∷ casts) merged t typed = elim (Bool-cases (str_eq j id)) [
    | inl same ↦
        let is_cast : cast ≡ some t = ground (arith, same, typed) in
        let (u, there) = merge_entry-types j t merged same in
        (u, merge-keeps casts (merge_entry j cast merged) u (rw is_cast there))
    | inr other ↦ merge-types casts (merge_entry j cast merged) t (ground (arith, other, typed))
  ]

  visit-keeps :
      (v : Visited T) (found : Found T) → IsTyped found.types → IsTyped (visit v found).types
  unfolding visit
  visit-keeps (cast_of j u) found (t, typed) = elim (Bool-cases (str_eq j id)) [
    | inl same ↦ (u, get-insert j id (some u) found.types ∙ rw same refl)
    | inr other ↦ (t, get-insert j id (some u) found.types ∙ rw other typed)
  ]
  visit-keeps (placeholder j) found (t, typed) =
      (t, ground (arith, typed, get-insert j id none found.types, eq_iff j id))

  visit_all-keeps :
      (vs : List (Visited T)) (found : Found T)
      → IsTyped found.types
      → IsTyped (visit_all vs found).types
  unfolding visit_all
  visit_all-keeps [] found typed = typed
  visit_all-keeps (v ∷ vs) found typed =
      visit_all-keeps vs (visit v found) (visit-keeps v found typed)

  visit_all-types :
      (vs : List (Visited T)) (found : Found T) (t : T)
      → Memᴰ (cast_of id t) vs
      → IsTyped (visit_all vs found).types
  unfolding visit_all visit
  visit_all-types (v ∷ vs) found t (Memᴰ.head same) =
      visit_all-keeps vs (visit v found)
        (rw (← same) (t, get-insert id id (some t) found.types ∙ rw ((eq_iff id id).1 refl) refl))
  visit_all-types (v ∷ vs) found t (Memᴰ.tail listed) = visit_all-types vs (visit v found) t listed
  visit_all-types [] found t listed = elim listed [ ]

  -- Where every parameter of the map has a type, none is without.
  all_typed :
      (types : Dict (Option T))
      → any (λ entry. not (is_some entry.1)) types ≡ false
      → Dict.get id types ≢ some none
  unfolding any Dict.get
  all_typed [] full e = cc
  all_typed ((j, known) ∷ types) full e = elim (Bool-cases (str_eq j id)) [
    | inl same ↦ ground (arith, same, e, full)
    | inr other ↦ all_typed types (ground (arith, full)) (ground (arith, other, e))
  ]

  -- A type that DataFusion found for a parameter stays its type.
  pub inferred_keeps :
      (types : Dict (Option T)) (visited : List (Visited T)) (t : T)
      → Dict.get id types ≡ some (some t)
      → Dict.get id (get_inferred_parameter_types types visited) ≡ some (some t)
  unfolding get_inferred_parameter_types
  inferred_keeps types visited t typed =
      elim (Bool-cases (any (λ entry. not (is_some entry.1)) types)) [
        | inl some_missing ↦
            rw some_missing (merge-keeps (extract_placeholder_cast_types visited) types t typed)
        | inr full ↦ rw full typed
      ]

  -- A parameter that the plan casts somewhere does not stand in the inferred map without a type,
  -- wherever the walk meets the cast and whatever else it meets.
  pub cast_parameter_typed :
      (types : Dict (Option T)) (visited : List (Visited T)) (t : T)
      → Memᴰ (cast_of id t) visited
      → Dict.get id (get_inferred_parameter_types types visited) ≢ some none
  unfolding get_inferred_parameter_types extract_placeholder_cast_types
  cast_parameter_typed types visited t listed =
      elim (Bool-cases (any (λ entry. not (is_some entry.1)) types)) [
        | inl some_missing ↦
            let (u, found) =
              visit_all-types visited (record { types = []; casted = [] }) t listed in
            let (v, typed) =
              merge-types (visit_all visited (record { types = []; casted = [] })).types types u
                found in
            rw some_missing (λ e. cc (typed, e))
        | inr full ↦ rw full (all_typed types full)
      ]
