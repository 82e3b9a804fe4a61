-- ===== src/Prelude/Dict.antt =====
-- `HashMap<String, V>` as an association list: `get`, `insert`, `remove`, `get_mut` with a change,
-- and the keys. The program relies on no order of the entries.
use Prim.Native.String.{String}
use mathlib.Core.Path.{◌≡◌, refl}
use mathlib.Core.Option
use mathlib.Core.Option.{Option, none, some}
use mathlib.Core.List.{List, [], ◌∷◌, map}
use native.Mathlib.Omega.{arith}
use text.Mathlib.TextEquality.{eq_iff}
use text.Mathlib.TextPositions.{eq_refl}
use datafusion_postgres.Prelude.Tests.{str_eq, if◌then◌else◌}

abbrev pub Dict {ℓ} : Type ℓ → Type ℓ
Dict V = List (String × V)

module _ {ℓ} {V : Type ℓ} where
  unfoldable pub get : String → Dict V → Option V
  get k [] = none
  get k ((j, v) ∷ d) = if str_eq j k then some v else get k d

  unfoldable pub insert : String → V → Dict V → Dict V
  insert k v [] = (k, v) ∷ []
  insert k v ((j, w) ∷ d) = if str_eq j k then (j, v) ∷ d else (j, w) ∷ insert k v d

  unfoldable pub remove : String → Dict V → Dict V
  remove k [] = []
  remove k ((j, w) ∷ d) = if str_eq j k then remove k d else (j, w) ∷ remove k d

  -- `if let Some(v) = map.get_mut(k) { change v }`
  unfoldable pub update : String → (V → V) → Dict V → Dict V
  update k f [] = []
  update k f ((j, w) ∷ d) = if str_eq j k then (j, f w) ∷ d else (j, w) ∷ update k f d

  unfoldable pub keys : Dict V → List String
  keys d = map (λ e. e.0) d

  pub get-insert :
      (k j : String) (v : V) (d : Dict V)
      → get j (insert k v d) ≡ (if str_eq k j then some v else get j d)
  unfolding get insert
  get-insert k j v [] = refl
  get-insert k j v ((i, w) ∷ d) =
      ground (arith, eq_iff k j, eq_iff i k, eq_iff i j, get-insert k j v d)

  pub get-remove :
      (k j : String) (d : Dict V) → get j (remove k d) ≡ (if str_eq k j then none else get j d)
  unfolding get remove
  get-remove k j [] = ground arith
  get-remove k j ((i, w) ∷ d) = ground (arith, eq_iff k j, eq_iff i k, eq_iff i j, get-remove k j d)

  pub get-update :
      (k j : String) (f : V → V) (d : Dict V)
      → get j (update k f d) ≡ (if str_eq k j then Option.map f (get j d) else get j d)
  unfolding get update
  get-update k j f [] = ground arith
  get-update k j f ((i, w) ∷ d) =
      ground (arith, eq_iff k j, eq_iff i k, eq_iff i j, get-update k j f d)

  -- Two changes in a row are one.
  pub update-update :
      (k : String) (f g : V → V) (d : Dict V)
      → update k f (update k g d) ≡ update k (λ v. f (g v)) d
  unfolding update
  update-update k f g [] = refl
  update-update k f g ((i, w) ∷ d) = ground (arith, update-update k f g d)

  pub get-update_self :
      (k : String) (f : V → V) (d : Dict V) → get k (update k f d) ≡ Option.map f (get k d)
  get-update_self k f d = rw (get-update, eq_refl)
