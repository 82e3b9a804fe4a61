-- ===== src/Statement.antt =====
-- `sqlparser::ast::Statement`, as far as the hooks and handlers tell statements apart: a constructor
-- for each variant that they name, with the parts that they read, and `other` for all the rest. An
-- expression is known by its text and, if it is a literal, by `Value::into_string`.
use datafusion_postgres.Prelude.{String, Bool, Option, List}

pub record SqlExpr : Type 0 where
  pub printed : String
  pub literal : Option (Option String)

pub data SetStatement : Type 0 where
  single_assignment : Option String → Bool → String → List SqlExpr → SetStatement
  set_time_zone : Bool → String → SetStatement
  other_set : String → SetStatement

-- `sqlparser::ast::Value`, as a limit of FETCH: a number by its digits, or another literal
pub data Value : Type 0 where
  number : String → Value
  other_value : String → Value

pub data FetchDirection : Type 0 where
  next prior first last : FetchDirection
  forward_all backward_all fetch_all : FetchDirection
  forward : Option Value → FetchDirection
  backward : Option Value → FetchDirection
  count absolute relative : Value → FetchDirection

pub data CloseCursor : Type 0 where
  close_all : CloseCursor
  close_specific : String → CloseCursor

pub data DeclareType : Type 0 where
  cursor result_set exception : DeclareType

pub record Declare : Type 0 where
  pub names : List String
  pub declare_type : Option DeclareType
  pub for_query : Option String

pub data Statement : Type 0 where
  query insert update delete create_table create_view drop alter_table : String → Statement
  set : SetStatement → Statement
  show_variable : List String → Statement
  show_status show_catalogs : Statement
  start_transaction commit rollback savepoint release_savepoint : Statement
  declare_cursors : List Declare → Statement
  fetch : String → FetchDirection → Statement
  close : CloseCursor → Statement
  other : String → Statement
