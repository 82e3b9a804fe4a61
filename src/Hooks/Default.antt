-- ===== src/Hooks/Default.antt =====
-- datafusion-postgres/src/handlers.rs: the hooks of `DfSessionService::new`, in their order.
use datafusion_postgres.Prelude.{Option, none, some, List, [], ◌∷◌, ◌≡◌, refl, map, ◌∙◌}
use datafusion_postgres.Wire.{PgWireResult, ok, err, Response, transaction_end, tag, error}
use datafusion_postgres.Statement.{
  Statement, declare_cursors, fetch, close, set, show_variable, show_catalogs, commit, rollback,
}
use datafusion_postgres.Handlers.{Session, Hook, stop_or, run_hooks}
use datafusion_postgres.Hooks.Transactions.{aborted}
use datafusion_postgres.Hooks.Transactions
use datafusion_postgres.Hooks.SetShow.{ShowEngine}
use datafusion_postgres.Hooks.SetShow
use datafusion_postgres.Hooks.SetShow.Always.{IsAnswered, set-IsAnswered, show_words-IsAnswered}
use datafusion_postgres.Hooks.Cursor.{Portals}
use datafusion_postgres.Hooks.Cursor

abbrev transaction_hook : {W R : Type 0} → Hook W R
transaction_hook statement s = (s, Transactions.handle_simple_query s.client.status statement)

-- Who answers a statement in a transaction that has failed.
pub data Answering : Type 0 where
  by_cursor by_set_show by_rollback by_refusal : Answering

unfoldable pub answering : Statement → Answering
answering (declare_cursors _) = by_cursor
answering (fetch _ _) = by_cursor
answering (close _) = by_cursor
answering (set _) = by_set_show
answering (show_variable _) = by_set_show
answering show_catalogs = by_set_show
answering commit = by_rollback
answering rollback = by_rollback
answering _ = by_refusal

module _ {W R : Type 0} where
  first_answer :
      (hook : Hook W R) (hooks : List (Hook W R)) (statement : Statement) (s : Session W)
      → IsAnswered (hook statement s).1
      → run_hooks (hook ∷ hooks) statement s ≡ hook statement s
  unfolding run_hooks
  first_answer hook hooks statement s h = stops (hook statement s) h
    where
      stops :
          (reply : Session W × Option (PgWireResult (Response R)))
          → IsAnswered reply.1
          → stop_or reply.0 reply.1 (run_hooks hooks statement) ≡ reply
      stops (s', some result) h = refl
      stops (s', none) h = absurd h

  later_answer :
      (hook : Hook W R) (hooks : List (Hook W R)) (statement : Statement) (s : Session W)
      → hook statement s ≡ (s, none)
      → run_hooks (hook ∷ hooks) statement s ≡ run_hooks hooks statement s
  unfolding run_hooks
  later_answer hook hooks statement s h = rw h refl

module _ {W P D Q R : Type 0} (engine : ShowEngine W R) (p : Portals W P D Q R) where
  unfoldable pub default_hooks : List (Hook W R)
  default_hooks =
      Cursor.handle_simple_query p ∷ SetShow.handle_simple_query engine ∷ transaction_hook ∷ []

  unfoldable pub failed_answer : Answering → Hook W R
  failed_answer by_cursor statement s = Cursor.handle_simple_query p statement s
  failed_answer by_set_show statement s = SetShow.handle_simple_query engine statement s
  failed_answer by_rollback statement s = (s, some (ok (transaction_end (tag "ROLLBACK"))))
  failed_answer by_refusal statement s = (s, some (err aborted))

  -- DECLARE, FETCH and CLOSE are always answered.
  cursor-IsAnswered :
      (statement : Statement) (s : Session W)
      → answering statement ≡ by_cursor
      → IsAnswered (Cursor.handle_simple_query p statement s).1
  unfolding answering Cursor.handle_simple_query
  cursor-IsAnswered (declare_cursors declares) s h = tt
  cursor-IsAnswered (fetch name direction) s h = tt
  cursor-IsAnswered (close which) s h = tt
  cursor-IsAnswered statement s h = cc

  set_show-IsAnswered :
      (statement : Statement) (s : Session W)
      → answering statement ≡ by_set_show
      → IsAnswered (SetShow.handle_simple_query engine statement s).1
  unfolding answering SetShow.handle_simple_query SetShow.try_respond_show_statements
  set_show-IsAnswered (set statement) s h = set-IsAnswered engine statement s
  set_show-IsAnswered (show_variable words) s h =
      show_words-IsAnswered engine s (map engine.to_lowercase words)
  set_show-IsAnswered show_catalogs s h = tt
  set_show-IsAnswered statement s h = cc

  -- A statement that neither the cursors nor SET and SHOW answer reaches the transaction hook.
  reaches_transactions :
      (statement : Statement) (s : Session W)
      → Cursor.handle_simple_query p statement s ≡ (s, none)
      → SetShow.handle_simple_query engine statement s ≡ (s, none)
      → run_hooks default_hooks statement s ≡ run_hooks (transaction_hook ∷ []) statement s
  unfolding default_hooks
  reaches_transactions statement s no_cursor no_setting =
      later_answer (Cursor.handle_simple_query p)
        (SetShow.handle_simple_query engine ∷ transaction_hook ∷ []) statement s no_cursor
      ∙ later_answer (SetShow.handle_simple_query engine) (transaction_hook ∷ []) statement s
          no_setting

  answered_by_cursor :
      (statement : Statement) (s : Session W)
      → answering statement ≡ by_cursor
      → run_hooks default_hooks statement s ≡ Cursor.handle_simple_query p statement s
  unfolding default_hooks
  answered_by_cursor statement s h =
      first_answer (Cursor.handle_simple_query p)
        (SetShow.handle_simple_query engine ∷ transaction_hook ∷ []) statement s
        (cursor-IsAnswered statement s h)

  answered_by_set_show :
      (statement : Statement) (s : Session W)
      → Cursor.handle_simple_query p statement s ≡ (s, none)
      → answering statement ≡ by_set_show
      → run_hooks default_hooks statement s ≡ SetShow.handle_simple_query engine statement s
  unfolding default_hooks
  answered_by_set_show statement s no_cursor h =
      later_answer (Cursor.handle_simple_query p)
        (SetShow.handle_simple_query engine ∷ transaction_hook ∷ []) statement s no_cursor
      ∙ first_answer (SetShow.handle_simple_query engine) (transaction_hook ∷ []) statement s
          (set_show-IsAnswered statement s h)

  -- A statement outside the cursors, SET and SHOW, in a failed transaction.
  outcome :
      (statement : Statement) (s : Session W)
      → s.client.status ≡ error
      → run_hooks default_hooks statement s ≡ failed_answer (answering statement) statement s
  unfolding answering failed_answer Cursor.handle_simple_query SetShow.handle_simple_query
      SetShow.try_respond_show_statements run_hooks Transactions.handle_simple_query
  outcome (declare_cursors declares) s failed = answered_by_cursor (declare_cursors declares) s refl
  outcome (fetch name direction) s failed = answered_by_cursor (fetch name direction) s refl
  outcome (close which) s failed = answered_by_cursor (close which) s refl
  outcome (set statement) s failed = answered_by_set_show (set statement) s refl refl
  outcome (show_variable words) s failed = answered_by_set_show (show_variable words) s refl refl
  outcome show_catalogs s failed = answered_by_set_show show_catalogs s refl refl
  outcome commit s failed = reaches_transactions commit s refl refl ∙ rw failed refl
  outcome rollback s failed = reaches_transactions rollback s refl refl ∙ rw failed refl
  outcome statement s failed = reaches_transactions statement s refl refl ∙ rw failed refl

  failed_answer-IsAnswered :
      (by : Answering) (statement : Statement) (s : Session W)
      → answering statement ≡ by
      → IsAnswered (failed_answer by statement s).1
  unfolding failed_answer
  failed_answer-IsAnswered by_cursor statement s h = cursor-IsAnswered statement s h
  failed_answer-IsAnswered by_set_show statement s h = set_show-IsAnswered statement s h
  failed_answer-IsAnswered by_rollback statement s h = tt
  failed_answer-IsAnswered by_refusal statement s h = tt

  -- In a transaction that has failed, the hooks of a new service answer every statement themselves,
  -- so none goes on to the service's own execution. COMMIT and ROLLBACK end the transaction by
  -- ROLLBACK; DECLARE, FETCH and CLOSE are done by the cursor hook, and SET, SHOW of a variable and
  -- SHOW CATALOGS by their hook, as they are in a transaction that has not failed; all others are
  -- refused with 25P01, the session unchanged.
  pub failed_transaction :
      (statement : Statement) (s : Session W)
      → s.client.status ≡ error
      → (run_hooks default_hooks statement s ≡ failed_answer (answering statement) statement s)
        × IsAnswered (run_hooks default_hooks statement s).1
  failed_transaction statement s failed =
      let e = outcome statement s failed in
      (e, rw e (failed_answer-IsAnswered (answering statement) statement s refl))
