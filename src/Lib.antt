-- ===== src/Lib.antt =====
-- A model of datafusion-postgres, a PostgreSQL server in front of DataFusion: the parts of the
-- server that decide whom to let in, what to run, in which order and under which names.
--
-- Prelude, and Prelude/Tests, Lists, Dict, Number, Text, Trim and Int: shared names and Boolean tests, the
--   lemmas on lists, maps as association lists, numbers as text, the cutting of texts, and the signed
--   integers with their wrap-around.
-- Context (datafusion-pg-catalog/src/pg_catalog/context.rs): users, roles, grants, permissions and
--   resources, with the equality that the code derives; Context/Names has the names of permissions.
-- Wire: the values of pgwire that the sources build (errors, tags, responses, transaction status).
-- Statement: `sqlparser::ast::Statement`, as far as the sources tell statements apart.
-- Client (datafusion-postgres/src/client.rs): the settings in a client's metadata; Client/Settings says
--   what is read back.
-- Auth (datafusion-postgres/src/auth.rs): `AuthManager` is a record of two maps, and a method under
--   the write lock a function from the manager to the manager and a result. Auth/Check has the
--   permission search, Auth/Authorized says without a search what it decides, Auth/Decides and
--   Auth/Ends compare the two, Auth/Cycle has the managers on which the search does not end,
--   Auth/Grants and Auth/Effect the changes of roles, Auth/Login the passwords, Auth/Predefined
--   the predefined roles, and Auth/Simple the source of passwords that asks for none.
-- Hooks (datafusion-postgres/src/hooks/): Hooks/Transactions (transactions.rs) and
--   Hooks/Permissions (permissions.rs), which asks `AuthManager` in Hooks/Permissions/Refusal. Hooks/SetShow (set_show.rs) takes the connection, DataFusion and the
--   defaults of pgwire as a parameter, `ShowEngine`; its modules Timeout, Units, Settings and Always are
--   about the statement timeout and its units, the stored variables, and which statements get an
--   answer. Hooks/Cursor
--   (cursor.rs) takes the portal store as a parameter, `Portals`, with the laws of a map in `IsStore`;
--   Hooks/Cursor/Opening and View have the map from names to portals, Hooks/Cursor/Fetching the limits
--   of FETCH.
--   Hooks/Default has the hooks of a new service in their order (handlers.rs).
-- Handlers (datafusion-postgres/src/handlers.rs): `do_query` of the simple protocol, which asks the
--   hooks in order and runs what none of them answers; Handlers/Loop relates a whole message to its
--   statements, Handlers/Routing says which hook answers. The DataFusion session is a parameter,
--   `Engine`, and a step passes its state on whether it fails or not. Handlers/Extended has `do_query`
--   of the extended protocol, Handlers/Extended/Outcome what it answers, and Handlers/Parameters the
--   order of the parameter types. Handlers/Parsing has the parse step, Handlers/Parsing/Advertised the
--   types that it tells for the parameters.
-- Planner (datafusion-postgres/src/planner.rs): the types of parameters, from DataFusion and from the
--   casts of placeholders; the walk over a plan is a parameter, as the list of what it meets.
-- Parser (datafusion-pg-catalog/src/sql/parser.rs): the token replacement that comes before
--   sqlparser; Parser/Matching says what a match is, Parser/Replacement what the loop does.
-- Ast: the syntax trees of sqlparser, as far as the rewrite rules name their variants and fields. The
--   rest of a node is of a type `X` that the rules carry along.
-- Rules (datafusion-pg-catalog/src/sql/rules.rs): the rewrite rules, a rule or a few to a module. The
--   first two, Rules/Aliases and Rules/Unqualified (with Rules/Names for dotted names), are functions
--   on statements, and `none` is a panic of theirs. The others are visitors: Rules/Arrays
--   (`RewriteArrayAnyAllOperation`, `FixArrayLiteral`), Rules/Tables (`PrependUnqualifiedPgTableName`,
--   `StripCallableQualifier`), Rules/Registers (`CurrentUserVariableToSessionUserFunctionCall`),
--   Rules/Small (`StripCollate`, `RewritePgCatalogOperator`, `FixVersionColumnName`), Rules/RegCast
--   (`RewriteRegCastToSubquery`) and Rules/Scalars (`RemoveSubqueryFromProjection`). A `pre_visit_*`
--   is a function on one node; the walk that calls it is a parameter, `SqlParser`, of which one law is
--   known: it leaves a statement as it is when the visitor leaves all its nodes so. Each of these has
--   its theorems in modules below it. Rules/Pipeline (and parser.rs) has the order of the rules,
--   `rewrite` and `parse`, with the token replacement of Parser before them; Rules/Pipeline/Plain,
--   Visitors and Untouched say what passes through them as it is. Rules/Samples is a walk for the
--   tests.
-- Ident (datafusion-pg-catalog/src/pg_catalog/quote_ident_udf.rs): `quote_ident` and `parse_ident` on
--   one identifier, and the reserved words; what Unicode says of characters is a parameter. Ident/Scan
--   has the scanning loop, Ident/RoundTrip the two functions together.
-- Oid (datafusion-pg-catalog/src/pg_catalog.rs, and pg_class.rs, pg_attribute.rs, pg_namespace.rs and
--   pg_database.rs below it): the OID cache and counter that the four tables share. The counter wraps
--   around at 2 ^ 32 as an `AtomicU32` does. Oid/Resolving is about their loops, Oid/Listing about the
--   objects that they meet, Oid/Stability about the cache afterwards.
-- FormatType (datafusion-pg-catalog/src/pg_catalog/format_type.rs): the names of types, by oid and
--   modifier, and FormatType/Modifier about them. A name takes at most two calls, so the loop over the
--   rows has fuel 2.
-- Numeric (datafusion-pg-functions/src/numeric/div.rs and mod_op.rs): `div` and `mod` of columns of
--   integers of any width, and Numeric/Division about a row. Numeric/WidthBucket has both forms of
--   `width_bucket` (width_bucket.rs), on floating-point numbers that are a parameter, and
--   Numeric/WidthBucket/Buckets is about the thresholds.
-- ArrayBounds (datafusion-pg-catalog/src/pg_catalog/array_bounds_udf.rs): `array_upper` and
--   `array_lower`, and ArrayBounds/Extents about rectangular arrays. The loop over the dimensions is a
--   recursion on the array.
-- Arrow (arrow-pg/src/datatypes.rs and datatypes/df.rs): the types of Arrow and PostgreSQL.
--   Arrow/Types maps the one to the other, Arrow/Elements and Arrow/Ranges are about lists and
--   integers. Arrow/Scalar has the values of DataFusion, and the libraries' numbers and times as
--   parameters; Arrow/Portal what reads a parameter, Arrow/Samples libraries for the tests;
--   Arrow/Coerce the coercions to the inferred type, with Arrow/Coerce/Intervals and
--   Arrow/Integers about them; Arrow/Parameters `deserialize_parameters`, its arms in
--   Arrow/Parameters/Single and Arrow/Parameters/Arrays. Arrow/Inferred is about the types of what
--   is read, Arrow/Lengths about how many values there are. The loop over the parameters is a
--   recursion on the number of those left. A product or a cast to a word of fixed width wraps
--   around, as in a release build.
-- Arrow/Columns (datafusion-pg-catalog/src/pg_catalog/pg_attribute.rs): what pg_attribute says of the
--   type of a column.
-- The modules named Tests, Hooks/SettingTests, Handlers/PortalTests, Rules/NodeTests and
--   Numeric/BucketTests run the definitions and the theorems on concrete inputs.
--
-- Two other loops take fuel, and `none` is a loop that has not ended. The permission search needs
-- one unit for each role on a path of inheritance, which a bound on the ranks of the roles gives
-- where there is no cycle; with a cycle no fuel is enough. The token replacement needs one unit
-- for each token.
--
-- Not modelled: sqlparser itself, the rows of the catalog tables, and the other functions of
-- datafusion-pg-functions. The encoding of Arrow values, sockets and files are calls
-- of other libraries. A method of `AuthManager` is one step, also the permission check, which takes
-- the locks anew for each user and role that it reads: writes between two of these reads are not
-- modelled. A `Duration` is the number of its whole milliseconds.
pub mod Prelude
pub mod Context
pub mod Wire
pub mod Arrow
pub mod Ast
pub mod Auth
pub mod Statement
pub mod Client
pub mod Hooks
pub mod Handlers
pub mod Ident
pub mod Parser
pub mod Rules
pub mod Oid
pub mod Planner
pub mod FormatType
pub mod Numeric
pub mod ArrayBounds
