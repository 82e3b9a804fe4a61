-- ===== src/Hooks/SetShow/Settings.antt =====
-- SET of a variable that is kept in the metadata, and SHOW after it.
use datafusion_postgres.Prelude.{
  String, true, false, Option, none, some, List, [], ◌∷◌, ◌≡◌, refl, ◌∙◌, inl, inr, arith, str_eq,
  eq_iff, Bool-cases,
}
use datafusion_postgres.Prelude.Dict
use datafusion_postgres.Prelude.Dict.{get-insert}
use datafusion_postgres.Prelude.Lists.{any}
use datafusion_postgres.Wire.{PgWireResult, ok, err}
use datafusion_postgres.Statement.{SqlExpr, single_assignment, Statement, set, show_variable}
use datafusion_postgres.Handlers.{Session}
use datafusion_postgres.Hooks.SetShow.{
  ShowEngine, or_empty, is_stored, insert_metadata, parameter_status_for_var, report_status, sent,
  assign, show, show_word, handle_simple_query,
}

-- A stored variable is one of the six.
data Stored : String → Type 0 where
  datestyle : Stored "datestyle"
  bytea_output : Stored "bytea_output"
  intervalstyle : Stored "intervalstyle"
  application_name : Stored "application_name"
  extra_float_digits : Stored "extra_float_digits"
  search_path : Stored "search_path"

one_of_six : (var : String) → is_stored var ≡ true → Stored var
unfolding is_stored any
one_of_six var h = elim (Bool-cases (str_eq "datestyle" var)) [
  | inl e ↦ rw (← (eq_iff "datestyle" var).0 e) datestyle
  | inr n₀ ↦ elim (Bool-cases (str_eq "bytea_output" var)) [
    | inl e ↦ rw (← (eq_iff "bytea_output" var).0 e) bytea_output
    | inr n₁ ↦ elim (Bool-cases (str_eq "intervalstyle" var)) [
      | inl e ↦ rw (← (eq_iff "intervalstyle" var).0 e) intervalstyle
      | inr n₂ ↦ elim (Bool-cases (str_eq "application_name" var)) [
        | inl e ↦ rw (← (eq_iff "application_name" var).0 e) application_name
        | inr n₃ ↦ elim (Bool-cases (str_eq "extra_float_digits" var)) [
          | inl e ↦ rw (← (eq_iff "extra_float_digits" var).0 e) extra_float_digits
          | inr n₄ ↦ elim (Bool-cases (str_eq "search_path" var)) [
            | inl e ↦ rw (← (eq_iff "search_path" var).0 e) search_path
            | inr n₅ ↦ absurd (ground (arith, n₀, n₁, n₂, n₃, n₄, n₅, h))
          ]
        ]
      ]
    ]
  ]
]

module _ {W R : Type 0} (engine : ShowEngine W R) where
  report_status-client :
      (status : Option (String × String)) (s : Session W)
      → (report_status engine status s).0.client ≡ s.client
  report_status-client none s = refl
  report_status-client (some (name, value)) s = go (engine.send_parameter_status name value s.world)
    where
      go : (out : W × PgWireResult (Unit {0})) → (sent engine s.client out).0.client ≡ s.client
      go (w, ok _) = refl
      go (w, err e) = refl

  stored_client :
      (var text : String) (s : Session W)
      → (report_status engine
          (parameter_status_for_var var (insert_metadata var text s.client))
          (record s { client = insert_metadata var text s.client })).0.client
        ≡ insert_metadata var text s.client
  stored_client var text s =
      report_status-client (parameter_status_for_var var (insert_metadata var text s.client))
        (record s { client = insert_metadata var text s.client })

  assign_kept :
      (statement : Statement) (var : String) (text : Option String) (value : SqlExpr)
      (rest : List SqlExpr) (s : Session W)
      → Stored var
      → value.literal ≡ some text
      → (assign engine statement var (value ∷ rest) s).0.client
        ≡ insert_metadata var (or_empty text) s.client
  unfolding assign
  assign_kept statement var text value rest s datestyle literal =
      rw literal (stored_client "datestyle" (or_empty text) s)
  assign_kept statement var text value rest s bytea_output literal =
      rw literal (stored_client "bytea_output" (or_empty text) s)
  assign_kept statement var text value rest s intervalstyle literal =
      rw literal (stored_client "intervalstyle" (or_empty text) s)
  assign_kept statement var text value rest s application_name literal =
      rw literal (stored_client "application_name" (or_empty text) s)
  assign_kept statement var text value rest s extra_float_digits literal =
      rw literal (stored_client "extra_float_digits" (or_empty text) s)
  assign_kept statement var text value rest s search_path literal =
      rw literal (stored_client "search_path" (or_empty text) s)

  show_word_kept :
      (var text : String) (s : Session W)
      → Stored var
      → Dict.get var s.client.metadata ≡ some text
      → show_word engine s var ≡ show engine var text
  unfolding show_word
  show_word_kept var text s datestyle found = rw found refl
  show_word_kept var text s bytea_output found = rw found refl
  show_word_kept var text s intervalstyle found = rw found refl
  show_word_kept var text s application_name found = rw found refl
  show_word_kept var text s extra_float_digits found = rw found refl
  show_word_kept var text s search_path found = rw found refl

  -- A variable that is kept in the metadata, once it was SET to a literal, is shown with the text that
  -- `into_string` gives for the literal, or with the empty text if it gives none, as for a number,
  -- and under its name in lower case, also where telling the client about it failed.
  pub set_then_show :
      (variable shown var : String) (text : Option String) (value : SqlExpr) (rest : List SqlExpr)
      (s : Session W)
      → engine.to_lowercase variable ≡ var
      → engine.to_lowercase shown ≡ var
      → is_stored var ≡ true
      → value.literal ≡ some text
      → (handle_simple_query engine
          (show_variable (shown ∷ []))
          (handle_simple_query engine
            (set (single_assignment none false variable (value ∷ rest)))
            s).0).1
        ≡ show engine var (or_empty text)
  unfolding handle_simple_query
  set_then_show variable shown var text value rest s named named' kept literal =
      let statement = set (single_assignment none false variable (value ∷ rest)) in
      let six = one_of_six var kept in
      let s' = (assign engine statement var (value ∷ rest) s).0 in
      let written : s'.client ≡ insert_metadata var (or_empty text) s.client =
        assign_kept statement var text value rest s six literal in
      let found : Dict.get var s'.client.metadata ≡ some (or_empty text) = rw written (
        get-insert var var (or_empty text) s.client.metadata ∙ rw ((eq_iff var var).1 refl) refl) in
      rw named (rw named' (show_word_kept var (or_empty text) s' six found))
