-- ===== src/Handlers/Parsing/Advertised.antt =====
-- The types of parameters that the parse step tells the client, and those by which they are read.
use datafusion_postgres.Prelude.{
  ℕ, zero, suc, String, Option, none, some, List, [], ◌∷◌, ◌≡◌, refl, arith,
}
use datafusion_postgres.Prelude.Lists.{length}
use datafusion_postgres.Prelude.Dict.{Dict}
use datafusion_postgres.Wire.{PgWireResult, ok, err, ◌>>=◌}
use datafusion_postgres.Statement.{Statement}
use datafusion_postgres.Arrow.{DataType, PgType}
use datafusion_postgres.Arrow.Types.{into_pg_type}
use datafusion_postgres.Arrow.Portal.{Libraries}
use datafusion_postgres.Arrow.Parameters.{entry, get_pg_type}
use datafusion_postgres.Handlers.Parameters.{ordered_param_types}
use datafusion_postgres.Handlers.Parsing.{Planning, inferred, param_types, get_parameter_types}

bind-ok :
    {A B : Type 0} (m : PgWireResult A) (k : A → PgWireResult B) (b : B)
    → (m >>= k) ≡ ok b
    → (a : A) × (m ≡ ok a) × (k a ≡ ok b)
bind-ok (ok a) k b e = (a, refl, e)
bind-ok (err x) k b e = cc

abbrev pub get : List PgType → ℕ → Option PgType
get [] i = none
get (t ∷ ts) zero = some t
get (t ∷ ts) (suc i) = get ts i

module _ {W L F F32 F64 B D N Z Y : Type 0} (planning : Planning W L F)
    (lib : Libraries F32 F64 B D N Z Y) where
  -- The type told for a parameter is that of the inferred type, or unknown.
  pub IsTold : List PgType → List (Option DataType) → Type 0
  IsTold told types =
      (length told ≡ length types)
      × ((i : ℕ) (t : PgType) → get told i ≡ some t → get_pg_type lib none (entry types i) ≡ ok t)

  told_first :
      (told : List PgType) (types : List (Option DataType)) (t : PgType) (type : Option DataType)
      → get_pg_type lib none type ≡ ok t
      → IsTold told types
      → IsTold (t ∷ told) (type ∷ types)
  unfolding IsTold entry
  told_first told types t type first (same, rest) = (omega arith, at)
    where
      at :
          (i : ℕ) (u : PgType)
          → get (t ∷ told) i ≡ some u
          → get_pg_type lib none (entry (type ∷ types) i) ≡ ok u
      at zero u e = let same : t ≡ u = cc e in rw (← same) first
      at (suc i) u e = rest i u e

  told_none : IsTold [] []
  unfolding IsTold
  told_none = (refl, λ i t e. cc e)

  param_types-IsTold :
      (types : List (Option DataType)) (told : List PgType)
      → lib.display ≡ planning.display
      → param_types planning types ≡ ok told
      → IsTold told types
  unfolding param_types get_pg_type
  param_types-IsTold [] told same e = let empty : [] ≡ told = cc e in rw (← empty) told_none
  param_types-IsTold (none ∷ types) told same e =
      let (rest, found, e') =
        bind-ok (param_types planning types) (λ rest. ok (PgType.unknown ∷ rest)) told e in
      let whole : PgType.unknown ∷ rest ≡ told = cc e' in
      rw (← whole)
        (told_first rest types PgType.unknown none refl (param_types-IsTold types rest same found))
  param_types-IsTold (some type ∷ types) told same e =
      let (t, typed, e') =
        bind-ok (into_pg_type planning.display type)
          (λ t. param_types planning types >>= λ rest. ok (t ∷ rest)) told e in
      let (rest, found, e₂) =
        bind-ok (param_types planning types) (λ rest. ok (t ∷ rest)) told e' in
      let whole : t ∷ rest ≡ told = cc e₂ in
      rw (← whole) (
        told_first rest types t (some type) (rw same typed)
          (param_types-IsTold types rest same found))

  -- The types that the parse step tells for the parameters of a statement are as many as the
  -- parameters that DataFusion and the casts give types for, in their order, and each is the type by
  -- which that parameter is read later, if the client gives none.
  pub get_parameter_types-IsTold :
      (text : String) (statement : Statement) (plan : L) (types : Dict (Option DataType))
      (told : List PgType)
      → lib.display ≡ planning.display
      → inferred planning plan ≡ ok types
      → get_parameter_types planning (text, some (statement, plan)) ≡ ok told
      → IsTold told (ordered_param_types types)
  unfolding get_parameter_types
  get_parameter_types-IsTold text statement plan types told same found e =
      param_types-IsTold (ordered_param_types types) told same (rw found at e)
