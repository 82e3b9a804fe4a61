-- ===== src/Hooks/SetShow/Always.antt =====
-- Which statements the hook answers in every session.
use datafusion_postgres.Prelude.{
  String, false, ◌&&◌, Option, none, some, List, [], ◌∷◌, inl, inr, Bool-cases, str_eq,
}
use datafusion_postgres.Prelude.Dict
use datafusion_postgres.Prelude.Text
use datafusion_postgres.Wire.{PgWireResult, ok, err}
use datafusion_postgres.Client.{Client, set_timezone}
use datafusion_postgres.Statement.{
  SqlExpr, SetStatement, single_assignment, set_time_zone, Statement, set,
}
use datafusion_postgres.Handlers.{Session}
use datafusion_postgres.Hooks.SetShow.{
  ShowEngine, sent, report_status, store_literal, store, assign, assign_timezone, assign_timeout,
  try_respond_set_statements, show_or_unsupported, or_else, default_value, is_stored, timezone_of,
  show_metadata, show_word, show_words,
}

abbrev pub IsAnswered : {A : Type 0} → Option A → Type 0
IsAnswered none = ⊥
IsAnswered (some _) = Unit

module _ {W R : Type 0} (engine : ShowEngine W R) where
  sent-IsAnswered :
      (client : Client) (out : W × PgWireResult (Unit {0})) → IsAnswered (sent engine client out).1
  sent-IsAnswered client (w, ok _) = tt
  sent-IsAnswered client (w, err e) = tt

  report_status-IsAnswered :
      (status : Option (String × String)) (s : Session W)
      → IsAnswered (report_status engine status s).1
  report_status-IsAnswered none s = tt
  report_status-IsAnswered (some (name, value)) s =
      sent-IsAnswered s.client (engine.send_parameter_status name value s.world)

  store-IsAnswered :
      (statement : Statement) (var : String) (values : List SqlExpr) (s : Session W)
      → IsAnswered (store engine statement var values s).1
  store-IsAnswered statement var [] s = tt
  store-IsAnswered statement var (value ∷ rest) s = literal value.literal
    where
      literal : (o : Option (Option String)) → IsAnswered (store_literal engine statement var o s).1
      literal none = tt
      literal (some text) = report_status-IsAnswered _ _

  assign_timeout-IsAnswered :
      (values : List SqlExpr) (s : Session W) → IsAnswered (assign_timeout engine values s).1
  assign_timeout-IsAnswered [] s = tt
  assign_timeout-IsAnswered (value ∷ rest) s = tt

  assign-IsAnswered :
      (statement : Statement) (var : String) (values : List SqlExpr) (s : Session W)
      → IsAnswered (assign engine statement var values s).1
  unfolding assign
  assign-IsAnswered statement var values s = elim (Bool-cases (str_eq var "statement_timeout")) [
    | inl timeout ↦ rw timeout (assign_timeout-IsAnswered values s)
    | inr no_timeout ↦ rw no_timeout (elim (Bool-cases (is_stored var)) [
      | inl kept ↦ rw kept (store-IsAnswered statement var values s)
      | inr not_kept ↦ rw not_kept tt
    ])
  ]

  pub set-IsAnswered :
      (statement : SetStatement) (s : Session W)
      → IsAnswered (try_respond_set_statements engine statement s).1
  unfolding try_respond_set_statements assign_timezone
  set-IsAnswered (single_assignment none false variable values) s =
      assign-IsAnswered (set (single_assignment none false variable values))
        (engine.to_lowercase variable) values s
  set-IsAnswered (set_time_zone false value) s =
      let timezone = Text.trim "'" (Text.trim "\"" value) in
      let client = set_timezone s.client (some timezone) in
      sent-IsAnswered client (engine.send_parameter_status "TimeZone" (timezone_of client) s.world)
  set-IsAnswered _ s = tt

  show_metadata-IsAnswered :
      (client : Client) (var : String) → IsAnswered (show_metadata engine client var)
  show_metadata-IsAnswered client var =
      shown (or_else engine (Dict.get var client.metadata) (default_value engine var))
    where
      shown : (o : Option String) → IsAnswered (show_or_unsupported engine var o)
      shown none = tt
      shown (some value) = tt

  show_word-IsAnswered : (s : Session W) (var : String) → IsAnswered (show_word engine s var)
  unfolding show_word
  show_word-IsAnswered s var = elim (Bool-cases (str_eq var "server_version")) [
    | inl e ↦ rw e tt
    | inr n₀ ↦ rw n₀ (elim (Bool-cases (str_eq var "transaction_isolation")) [
      | inl e ↦ rw e tt
      | inr n₁ ↦ rw n₁ (elim (Bool-cases (str_eq var "catalogs")) [
        | inl e ↦ rw e tt
        | inr n₂ ↦ rw n₂ (elim (Bool-cases (str_eq var "statement_timeout")) [
          | inl e ↦ rw e tt
          | inr n₃ ↦ rw n₃ (show_metadata-IsAnswered s.client var)
        ])
      ])
    ])
  ]

  pub show_words-IsAnswered :
      (s : Session W) (words : List String) → IsAnswered (show_words engine s words)
  unfolding show_words
  show_words-IsAnswered s [] = tt
  show_words-IsAnswered s (a ∷ []) = show_word-IsAnswered s a
  show_words-IsAnswered s (a ∷ b ∷ []) = elim (Bool-cases (str_eq a "time" && str_eq b "zone")) [
    | inl e ↦ rw e tt
    | inr n ↦ rw n (show_metadata-IsAnswered s.client a)
  ]
  show_words-IsAnswered s (a ∷ b ∷ c ∷ []) =
      elim (Bool-cases (str_eq a "transaction" && (str_eq b "isolation" && str_eq c "level"))) [
        | inl e ↦ rw e tt
        | inr n ↦ rw n (show_metadata-IsAnswered s.client a)
      ]
  show_words-IsAnswered s (a ∷ b ∷ c ∷ d ∷ rest) = show_metadata-IsAnswered s.client a
