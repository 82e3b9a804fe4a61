-- ===== src/Handlers/Loop.antt =====
-- What the statement loop of `do_query` makes of a whole message.
use mathlib.Core.List.{append_assoc, append-nil}
use datafusion_postgres.Prelude.{suc, List, [], ◌∷◌, ◌++◌, ◌≡◌, refl, sym, ◌∙◌, ap, arith}
use datafusion_postgres.Prelude.Lists.{length}
use datafusion_postgres.Wire.{PgWireResult, PgWireError, ok, err, Response}
use datafusion_postgres.Statement.{Statement}
use datafusion_postgres.Handlers.{Session, Engine, Hook, next, respond, run_statements, do_query}

module _ {W D R : Type 0} (engine : Engine W D R) (hooks : List (Hook W R)) where
  -- The same statements one by one, as a relation: each is answered in the session that the one
  -- before it left.
  pub data Answered : Session W → List Statement → List (Response R) → Session W → Type 0 where
    done : {s : Session W} → Answered s [] [] s
    step :
        {s s' t : Session W} {statement : Statement} {statements : List Statement}
        {response : Response R} {responses : List (Response R)}
        → respond engine hooks statement s ≡ (s', ok response)
        → Answered s' statements responses t
        → Answered s (statement ∷ statements) (response ∷ responses) t

  pub data Outcome (s : Session W) (statements : List Statement) (t : Session W)
      : PgWireResult (List (Response R)) → Type 0 where
    all_answered :
        {responses : List (Response R)}
        → Answered s statements responses t
        → Outcome s statements t (ok responses)
    failed_at :
        (before after : List Statement) (failing : Statement) {responses : List (Response R)}
        {s' : Session W} {e : PgWireError}
        → statements ≡ before ++ failing ∷ after
        → Answered s before responses s'
        → respond engine hooks failing s' ≡ (t, err e)
        → Outcome s statements t (err e)

  length_of_Answered :
      {s t : Session W} {statements : List Statement} {responses : List (Response R)}
      → Answered s statements responses t
      → length responses ≡ length statements
  length_of_Answered done = refl
  length_of_Answered (step r a) = ap suc (length_of_Answered a)

  LoopOutcome :
      List (Response R)
      → Session W
      → List Statement
      → Session W × PgWireResult (List (Response R))
      → Type 0
  LoopOutcome acc s ss (t, ok responses) =
      (rest : List (Response R)) × (responses ≡ acc ++ rest) × Answered s ss rest t
  LoopOutcome acc s ss (t, err e) = Outcome s ss t (err e)

  LoopOutcome-cons :
      (acc : List (Response R)) (s s' : Session W) (statement : Statement) (ss : List Statement)
      (response : Response R) (out : Session W × PgWireResult (List (Response R)))
      → respond engine hooks statement s ≡ (s', ok response)
      → LoopOutcome (acc ++ response ∷ []) s' ss out
      → LoopOutcome acc s (statement ∷ ss) out
  unfolding LoopOutcome
  LoopOutcome-cons acc s s' statement ss response (t, ok responses) first (rest, same, answered) =
      (response ∷ rest, same ∙ append_assoc acc (response ∷ []) rest, step first answered)
  LoopOutcome-cons acc s s' statement ss response (t, err e) first
        (failed_at before after failing split answered failed) =
      failed_at (statement ∷ before) after failing (ap (λ l. statement ∷ l) split)
        (step first answered) failed

  run_statements-LoopOutcome :
      (acc : List (Response R)) (ss : List Statement) (s : Session W)
      → LoopOutcome acc s ss (run_statements engine hooks acc ss s)
  unfolding run_statements LoopOutcome
  run_statements-LoopOutcome acc [] s = ([], sym (append-nil acc), done)
  run_statements-LoopOutcome acc (statement ∷ ss) s =
      go (λ acc' s'. run_statements-LoopOutcome acc' ss s') (respond engine hooks statement s) refl
    where
      go :
          ((acc' : List (Response R)) (s' : Session W)
            → LoopOutcome acc' s' ss (run_statements engine hooks acc' ss s'))
          → (out : Session W × PgWireResult (Response R)) → respond engine hooks statement s ≡ out
          → LoopOutcome acc s
              (statement ∷ ss)
              (next out.0 out.1 (λ response. run_statements engine hooks (acc ++ response ∷ []) ss))
      go rest (s', ok response) e =
          LoopOutcome-cons acc s s' statement ss response _ e (rest (acc ++ response ∷ []) s')
      go rest (s', err e') e = failed_at [] ss statement refl done e

  Outcome-of_LoopOutcome :
      (s : Session W) (ss : List Statement) (out : Session W × PgWireResult (List (Response R)))
      → LoopOutcome [] s ss out
      → Outcome s ss out.0 out.1
  unfolding LoopOutcome
  Outcome-of_LoopOutcome s ss (t, ok responses) (rest, same, answered) =
      all_answered (rw same answered)
  Outcome-of_LoopOutcome s ss (t, err e) h = h

  -- A message with statements either has every statement answered, in order, each in the session
  -- that the one before it left; or it fails with the error of the first statement that fails, and
  -- no statement after that one has any effect.
  pub do_query-Outcome :
      (statement : Statement) (ss : List Statement) (s : Session W)
      → Outcome s
          (statement ∷ ss)
          (do_query engine hooks (ok (statement ∷ ss)) s).0
          (do_query engine hooks (ok (statement ∷ ss)) s).1
  unfolding do_query
  do_query-Outcome statement ss s =
      Outcome-of_LoopOutcome s (statement ∷ ss) (run_statements engine hooks [] (statement ∷ ss) s)
        (run_statements-LoopOutcome [] (statement ∷ ss) s)

  length_of_Outcome :
      {s t : Session W} {ss : List Statement} {result : PgWireResult (List (Response R))}
      {responses : List (Response R)}
      → Outcome s ss t result
      → result ≡ ok responses
      → length responses ≡ length ss
  length_of_Outcome (all_answered a) same = ground (arith, length_of_Answered a)
  length_of_Outcome (failed_at before after failing split answered failed) same = cc

  -- A message that succeeds has exactly one response for each statement.
  pub length-do_query :
      (statement : Statement) (ss : List Statement) (s : Session W) (responses : List (Response R))
      → (do_query engine hooks (ok (statement ∷ ss)) s).1 ≡ ok responses
      → length responses ≡ length (statement ∷ ss)
  length-do_query statement ss s responses e = length_of_Outcome (do_query-Outcome statement ss s) e
