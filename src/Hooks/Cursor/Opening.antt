-- ===== src/Hooks/Cursor/Opening.antt =====
-- The cursors as a map from names to portals, and the cursors that a DECLARE opens.
use datafusion_postgres.Prelude.{
  String, Option, none, some, List, [], ◌∷◌, ◌≡◌, refl, sym, ◌∙◌, ap, fun_ext, str_eq,
  if◌then◌else◌,
}
use datafusion_postgres.Wire.{PgWireResult, PgWireError, ok, err, Response, execution, tag}
use datafusion_postgres.Statement.{DeclareType, cursor, result_set, exception, Declare}
use datafusion_postgres.Hooks.Cursor.{
  Portals, IsStore, read_declare, encoded, planned, open_cursor, go_on, handle_declare,
}

abbrev pub CursorMap : Type 0 → Type 0
CursorMap P = String → Option (Option P)

abbrev pub bind : {P : Type 0} → String → P → CursorMap P → CursorMap P
bind name portal cursors m = if str_eq name m then some (some portal) else cursors m

abbrev pub unbind : {P : Type 0} → String → CursorMap P → CursorMap P
unbind name cursors m = if str_eq name m then none else cursors m

-- Later cursors hide earlier ones of the same name.
abbrev pub bind_all : {P : Type 0} → List (String × P) → CursorMap P → CursorMap P
bind_all [] cursors = cursors
bind_all ((name, portal) ∷ rest) cursors = bind_all rest (bind name portal cursors)

pair_of_ok :
    {A B : Type 0} {a c : A} {b d : B}
    → ◌≡◌ {A = PgWireResult (A × B)} (ok (a, b)) (ok (c, d))
    → (a ≡ c) × (b ≡ d)
pair_of_ok e = (cc, cc)

module _ {W P D Q R : Type 0} (p : Portals W P D Q R) where
  abbrev pub view : W → CursorMap P
  view w name = p.get_portal name w

  -- The part of a DECLARE asks for a cursor of that name for that query.
  abbrev pub Asks : Declare → String → String → Type 0
  Asks declare name query =
      (more : List String) × (declare.declare_type ≡ some cursor)
      × (declare.names ≡ name ∷ more)
      × (declare.for_query ≡ some query)

  -- One part of a DECLARE, from one state to the next: it opens a cursor for the portal that is started
  -- from its query, or fails at the first step that does.
  pub data Opening (declare : Declare) (w : W) : W → PgWireResult (String × P) → Type 0 where
    opens_one :
        (name query : String) (df : D) (response : Q) (portal : P) (w₁ w₂ w₃ : W)
        → Asks declare name query
        → p.sql query w ≡ (w₁, ok df)
        → p.encode df w₁ ≡ (w₂, ok response)
        → p.start name query response w₂ ≡ (w₃, portal)
        → Opening declare w (p.put_portal name portal w₃) (ok (name, portal))
    unread : (e : PgWireError) → read_declare declare ≡ err e → Opening declare w w (err e)
    unplanned :
        (name query : String) (e : PgWireError) (w₁ : W)
        → Asks declare name query
        → p.sql query w ≡ (w₁, err e)
        → Opening declare w w₁ (err e)
    unencoded :
        (name query : String) (df : D) (e : PgWireError) (w₁ w₂ : W)
        → Asks declare name query
        → p.sql query w ≡ (w₁, ok df)
        → p.encode df w₁ ≡ (w₂, err e)
        → Opening declare w w₂ (err e)

  -- The cursors that a DECLARE opens: all that it names, or those before the first that fails, whose
  -- error is the result.
  pub data Opens
      : W → List Declare → W → List (String × P) → PgWireResult (Response R) → Type 0 where
    all_open : {w : W} → Opens w [] w [] (ok (execution (tag "DECLARE CURSOR")))
    opens :
        {w w₁ w' : W} {declare : Declare} {declares : List Declare} {opened : List (String × P)}
        {result : PgWireResult (Response R)} (name : String) (portal : P)
        → Opening declare w w₁ (ok (name, portal))
        → Opens w₁ declares w' opened result
        → Opens w (declare ∷ declares) w' ((name, portal) ∷ opened) result
    fails :
        {w w₁ : W} {declare : Declare} {declares : List Declare} (e : PgWireError)
        → Opening declare w w₁ (err e)
        → Opens w (declare ∷ declares) w₁ [] (err e)

  asked :
      (declare : Declare) (type : Option DeclareType) (names : List String)
      (for_query : Option String) (name query : String)
      → declare.declare_type ≡ type
      → declare.names ≡ names
      → declare.for_query ≡ for_query
      → read_declare declare ≡ ok (name, query)
      → Asks declare name query
  unfolding read_declare
  asked declare (some cursor) (n ∷ names) (some q) name query t ns fq read =
      let same = pair_of_ok (sym (rw t (rw ns (rw fq refl))) ∙ read) in
      (names, t, ns ∙ ap (λ m. m ∷ names) same.0, fq ∙ ap (λ m. some m) same.1)
  asked declare (some cursor) (n ∷ names) none name query t ns fq read =
      absurd (cc (rw (t, ns, fq) at read))
  asked declare (some cursor) [] for_query name query t ns fq read =
      absurd (cc (rw (t, ns) at read))
  asked declare (some result_set) names for_query name query t ns fq read =
      absurd (cc (rw t at read))
  asked declare (some exception) names for_query name query t ns fq read =
      absurd (cc (rw t at read))
  asked declare none names for_query name query t ns fq read = absurd (cc (rw t at read))

  module _ (laws : IsStore p) where
    -- What one cursor comes to.
    pub Opened : Declare → W → W × PgWireResult (Unit {0}) → Type 0
    Opened declare w (w', err e) = Opening declare w w' (err e) × (view w' ≡ view w)
    Opened declare w (w', ok _) =
        (name : String) × (portal : P) × Opening declare w w' (ok (name, portal))
        × (view w' ≡ bind name portal (view w))

    module _ (declare : Declare) (w : W) (name query : String)
        (asks : Asks declare name query) where
      encode-Opened :
          (df : D) (w₁ : W)
          → p.sql query w ≡ (w₁, ok df)
          → (out : W × PgWireResult Q) → p.encode df w₁ ≡ out
          → Opened declare w (encoded p name query out)
      unfolding Opened
      encode-Opened df w₁ planned_eq (w₂, err e) eq = (
        unencoded name query df e w₁ w₂ asks planned_eq eq,
        fun_ext λ m.
            ap (λ (o : W × PgWireResult Q). p.get_portal m o.0) (sym eq)
            ∙ laws.encode_lem m df w₁
            ∙ ap (λ (o : W × PgWireResult D). p.get_portal m o.0) (sym planned_eq)
            ∙ laws.sql_lem m query w,
      )
      encode-Opened df w₁ planned_eq (w₂, ok response) eq =
          let started = p.start name query response w₂ in
          (
            name,
            started.1,
            opens_one name query df response started.1 w₁ w₂ started.0 asks planned_eq eq refl,
            fun_ext λ m.
                laws.put_lem name m started.1 started.0
                ∙ ap (λ (o : Option (Option P)). if str_eq name m then some (some started.1) else o)
                    (laws.start_lem m name query response w₂
                      ∙ ap (λ (o : W × PgWireResult Q). p.get_portal m o.0) (sym eq)
                      ∙ laws.encode_lem m df w₁
                      ∙ ap (λ (o : W × PgWireResult D). p.get_portal m o.0) (sym planned_eq)
                      ∙ laws.sql_lem m query w),
          )

      plan-Opened :
          (out : W × PgWireResult D)
          → p.sql query w ≡ out
          → Opened declare w (planned p name query out)
      unfolding Opened
      plan-Opened (w₁, err e) eq = (
        unplanned name query e w₁ asks eq,
        fun_ext λ m.
            ap (λ (o : W × PgWireResult D). p.get_portal m o.0) (sym eq) ∙ laws.sql_lem m query w,
      )
      plan-Opened (w₁, ok df) eq = encode-Opened df w₁ eq (p.encode df w₁) refl

    open_cursor-Opened :
        (declare : Declare) (w : W) → Opened declare w (open_cursor p (read_declare declare) w)
    unfolding Opened
    open_cursor-Opened declare w = read (read_declare declare) refl
      where
        read :
            (r : PgWireResult (String × String))
            → read_declare declare ≡ r
            → Opened declare w (open_cursor p r w)
        read (err e) eq = (unread e eq, refl)
        read (ok (name, query)) eq =
            plan-Opened declare w name query (asked declare _ _ _ name query refl refl refl eq)
              (p.sql query w) refl

    pub handle_declare-Opens :
        (declares : List Declare) (w : W)
        → (opened : List (String × P)) × Opens w declares
            (handle_declare p declares w).0
            opened
            (handle_declare p declares w).1
          × (view (handle_declare p declares w).0 ≡ bind_all opened (view w))
    unfolding handle_declare Opened
    handle_declare-Opens [] w = ([], all_open, refl)
    handle_declare-Opens (declare ∷ declares) w =
        continue (open_cursor p (read_declare declare) w) (open_cursor-Opened declare w)
          (handle_declare-Opens declares)
      where
        continue :
            (out : W × PgWireResult (Unit {0}))
            → Opened declare w out
            → ((w₁ : W)
                → (opened : List (String × P)) × Opens w₁ declares
                    (handle_declare p declares w₁).0
                    opened
                    (handle_declare p declares w₁).1
                  × (view (handle_declare p declares w₁).0 ≡ bind_all opened (view w₁)))
            → (opened : List (String × P)) × Opens w
                (declare ∷ declares)
                (go_on p out (handle_declare p declares)).0
                opened
                (go_on p out (handle_declare p declares)).1
              × (view (go_on p out (handle_declare p declares)).0 ≡ bind_all opened (view w))
        continue (w₁, err e) (why, same) rest = ([], fails e why, same)
        continue (w₁, ok _) (name, portal, how_one, bound) rest =
            let (opened, how, after) = rest w₁ in
            (
              (name, portal) ∷ opened,
              opens name portal how_one how,
              after ∙ ap (bind_all opened) bound,
            )
