-- ===== src/Handlers/Extended/Outcome.antt =====
-- What the extended protocol answers on a portal.
use datafusion_postgres.Prelude.{Option, none, some, List, [], ◌∷◌, map, ◌≡◌, refl}
use datafusion_postgres.Wire.{PgWireResult, PgWireError, ok, err, Response, empty_query}
use datafusion_postgres.Statement.{Statement}
use datafusion_postgres.Handlers.{Session, Hook, run_hooks, answer_or}
use datafusion_postgres.Handlers.Routing.{Routed, unanswered, run_hooks-Routed}
use datafusion_postgres.Handlers.Extended.{
  ask_hooks, Portal, PlanEngine, PlanHook, parameters, run_plan, query_portal, do_query_portal,
}

module _ {W P T V B D R : Type 0} (engine : PlanEngine W P T V B D R)
    (hooks : List (PlanHook W P V R)) (portal : Portal P B) where
  -- The hooks as they are asked: with the plan and the parameters.
  abbrev pub asked : P → V → List (Hook W R)
  asked plan values = map (λ hook statement. hook statement plan values) hooks

  -- The ways that the protocol can answer: with an empty query; with the error of the parameters,
  -- before any hook is asked; with what a hook answers, and then the plan is not run; or with what
  -- the plan comes to in the session that the hooks left.
  pub data PortalOutcome (s : Session W) : Session W → PgWireResult (Response R) → Type 0 where
    empty : portal.statement ≡ none → PortalOutcome s s (ok empty_query)
    undecoded :
        (statement : Statement) (plan : P) {e : PgWireError}
        → portal.statement ≡ some (statement, plan)
        → parameters engine portal.bound plan ≡ err e
        → PortalOutcome s s (err e)
    hook_answered :
        (statement : Statement) (plan : P) (values : V) {t : Session W}
        {result : PgWireResult (Response R)}
        → portal.statement ≡ some (statement, plan)
        → parameters engine portal.bound plan ≡ ok values
        → Routed statement s (asked plan values) t (some result)
        → PortalOutcome s t result
    plan_ran :
        (statement : Statement) (plan : P) (values : V) {s' : Session W}
        → portal.statement ≡ some (statement, plan)
        → parameters engine portal.bound plan ≡ ok values
        → Routed statement s (asked plan values) s' none
        → PortalOutcome s
            (run_plan engine portal.bound statement plan values s').0
            (run_plan engine portal.bound statement plan values s').1

  answered_or_ran :
      (statement : Statement) (plan : P) (values : V) (s s' : Session W)
      (answer : Option (PgWireResult (Response R)))
      → portal.statement ≡ some (statement, plan)
      → parameters engine portal.bound plan ≡ ok values
      → Routed statement s (asked plan values) s' answer
      → PortalOutcome s
          (answer_or s' answer (run_plan engine portal.bound statement plan values)).0
          (answer_or s' answer (run_plan engine portal.bound statement plan values)).1
  answered_or_ran statement plan values s s' (some result) found decoded routed =
      hook_answered statement plan values found decoded routed
  answered_or_ran statement plan values s s' none found decoded routed =
      plan_ran statement plan values found decoded routed

  decoded_or_not :
      (asking : List (PlanHook W P V R)) (statement : Statement) (plan : P) (s : Session W)
      (r : PgWireResult V)
      → asking ≡ hooks
      → portal.statement ≡ some (statement, plan)
      → parameters engine portal.bound plan ≡ r
      → PortalOutcome s
          (query_portal engine asking portal.bound (some (statement, plan)) s).0
          (query_portal engine asking portal.bound (some (statement, plan)) s).1
  decoded_or_not [] statement plan s (err e) same found decoded =
      rw decoded (undecoded statement plan found decoded)
  decoded_or_not [] statement plan s (ok values) same found decoded =
      rw decoded (plan_ran statement plan values found decoded (rw (← same) unanswered))
  decoded_or_not (hook ∷ rest) statement plan s (err e) same found decoded =
      rw (ask_hooks, decoded) (undecoded statement plan found decoded)
  decoded_or_not (hook ∷ rest) statement plan s (ok values) same found decoded =
      let hs : List (Hook W R) = map (λ h st. h st plan values) (hook ∷ rest) in
      let routed : Routed statement s (asked plan values) (run_hooks hs statement s).0
          (run_hooks hs statement s).1 =
        rw (← same) (run_hooks-Routed statement hs s) in
      rw (ask_hooks, decoded)
        (answered_or_ran statement plan values s (run_hooks hs statement s).0
          (run_hooks hs statement s).1 found decoded routed)

  query_portal-PortalOutcome :
      (o : Option (Statement × P)) (s : Session W)
      → portal.statement ≡ o
      → PortalOutcome s
          (query_portal engine hooks portal.bound o s).0
          (query_portal engine hooks portal.bound o s).1
  query_portal-PortalOutcome none s found = empty found
  query_portal-PortalOutcome (some (statement, plan)) s found =
      decoded_or_not hooks statement plan s (parameters engine portal.bound plan) refl found refl

  -- The extended protocol answers a portal of an empty query as empty; one whose parameters cannot be
  -- decoded with that error, and no hook is asked; one that a hook answers with that, and the plan is
  -- not run; and any other with what the plan comes to after all hooks have passed.
  pub do_query_portal-PortalOutcome :
      (s : Session W)
      → PortalOutcome s
          (do_query_portal engine hooks portal s).0
          (do_query_portal engine hooks portal s).1
  unfolding do_query_portal
  do_query_portal-PortalOutcome s = query_portal-PortalOutcome portal.statement s refl
