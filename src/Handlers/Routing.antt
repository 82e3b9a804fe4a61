-- ===== src/Handlers/Routing.antt =====
-- Which hook answers a statement.
use datafusion_postgres.Prelude.{Option, none, some, List, [], ◌∷◌, ◌≡◌, refl}
use datafusion_postgres.Wire.{PgWireResult, Response}
use datafusion_postgres.Statement.{Statement}
use datafusion_postgres.Handlers.{Session, Hook, stop_or, run_hooks}

-- The hooks are asked in order, each in the session that the one before it left, up to the first that
-- answers.
pub data Routed {W R : Type 0} (statement : Statement)
    : Session W → List (Hook W R) → Session W → Option (PgWireResult (Response R)) → Type 0 where
  unanswered : {s : Session W} → Routed statement s [] s none
  passed :
      {s s' t : Session W} {hook : Hook W R} {hooks : List (Hook W R)}
      {answer : Option (PgWireResult (Response R))}
      → hook statement s ≡ (s', none)
      → Routed statement s' hooks t answer
      → Routed statement s (hook ∷ hooks) t answer
  answered :
      {s t : Session W} {hook : Hook W R} {hooks : List (Hook W R)}
      {result : PgWireResult (Response R)}
      → hook statement s ≡ (t, some result)
      → Routed statement s (hook ∷ hooks) t (some result)

module _ {W R : Type 0} (statement : Statement) where
  pub run_hooks-Routed :
      (hooks : List (Hook W R)) (s : Session W)
      → Routed statement s hooks (run_hooks hooks statement s).0 (run_hooks hooks statement s).1
  unfolding run_hooks
  run_hooks-Routed [] s = unanswered
  run_hooks-Routed (hook ∷ hooks) s = go (λ s'. run_hooks-Routed hooks s') (hook statement s) refl
    where
      go :
          ((s' : Session W)
            → Routed statement s' hooks
                (run_hooks hooks statement s').0
                (run_hooks hooks statement s').1)
          → (out : Session W × Option (PgWireResult (Response R))) → hook statement s ≡ out
          → Routed statement s
              (hook ∷ hooks)
              (stop_or out.0 out.1 (run_hooks hooks statement)).0
              (stop_or out.0 out.1 (run_hooks hooks statement)).1
      go rest (t, some result) e = answered e
      go rest (s', none) e = passed e (rest s')
