-- ===== src/Hooks/SetShow/Timeout.antt =====
-- SET statement_timeout, and SHOW after it.
use datafusion_postgres.Prelude.{
  ℕ, String, Bool, ◌==◌, if◌then◌else◌, ◌∙◌, ap, ◌*◌, ◌^◌, ◌<◌, false, Option, none, some, List, [],
  ◌∷◌, ◌≡◌, refl, inl, inr, arith, str_eq, Bool-cases,
}
use datafusion_postgres.Prelude.Number.{parse_below-lt, print}
use datafusion_postgres.Prelude.Text
use datafusion_postgres.Wire.{ok, execution, tag}
use datafusion_postgres.Client.{Client, get_statement_timeout, set_statement_timeout, get_timezone}
use datafusion_postgres.Client.Settings.{timeout_written, timeout_removed, timezone_kept}
use datafusion_postgres.Statement.{SqlExpr, single_assignment, Statement, set, show_variable}
use datafusion_postgres.Handlers.{Session}
use Prim.Native.String
use datafusion_postgres.Hooks.SetShow.Units.{
  TimeUnit, in_milliseconds, timeout_of, timeout_text, printed_as, parse_timeout-printed_as,
}
use datafusion_postgres.Hooks.SetShow.{
  ShowEngine, scaled, positive, parse_amount, parse_timeout, print_timeout, assign, done, show,
  show_word, handle_simple_query,
}

scaled-lt : (unit : ℕ) (o : Option ℕ) (r : ℕ) → scaled unit o ≡ some r → r < 2 ^ 64
scaled-lt unit none r e = cc
scaled-lt unit (some n) r e = ground arith

parse_amount-lt : (text : String) (r : ℕ) → parse_amount text ≡ some r → r < 2 ^ 64
unfolding parse_amount
parse_amount-lt text r e = elim (Bool-cases (Text.ends_with text "ms")) [
  | inl ms ↦ parse_below-lt (2 ^ 64) _ r (omega arith) (rw ms at e)
  | inr no_ms ↦ elim (Bool-cases (Text.ends_with text "s")) [
    | inl seconds ↦ scaled-lt 1000 _ r (rw seconds at (rw no_ms at e))
    | inr no_s ↦ elim (Bool-cases (Text.ends_with text "min")) [
      | inl minutes ↦ scaled-lt (60 * 1000) _ r (rw minutes at (rw no_s at (rw no_ms at e)))
      | inr plain ↦
          parse_below-lt (2 ^ 64) text r (omega arith) (rw plain at (rw no_s at (rw no_ms at e)))
    ]
  ]
]

positive_lem : (o : Option ℕ) (r : ℕ) → positive o ≡ some r → (o ≡ some r) × (0 < r)
positive_lem none r e = cc
positive_lem (some n) r e = ground arith

-- A timeout that SET accepts is positive and fits into 64 bits, whatever its unit.
pub parse_timeout_bounds :
    (value : String) (ms : ℕ) → parse_timeout value ≡ some ms → (0 < ms) × (ms < 2 ^ 64)
unfolding parse_timeout
parse_timeout_bounds value ms e =
    let text = Text.trim "'" (Text.trim "\"" value) in
    elim (Bool-cases (str_eq text "0")) [
      | inl zero_ms ↦ absurd (cc (rw zero_ms at e))
      | inr other ↦ elim (Bool-cases (str_eq text "")) [
        | inl empty ↦ absurd (cc (rw empty at (rw other at e)))
        | inr full ↦
            let (parsed, above) =
              positive_lem (parse_amount text) ms (rw full at (rw other at e)) in
            (above, parse_amount-lt text ms parsed)
      ]
    ]

-- The timeout of the client, once it was set to what the value says.
timeout_kept_exactly :
    (client : Client) (timeout : Option ℕ)
    → ((ms : ℕ) → timeout ≡ some ms → ms < 2 ^ 64)
    → get_statement_timeout (set_statement_timeout client timeout) ≡ timeout
timeout_kept_exactly client none small = timeout_removed client
timeout_kept_exactly client (some ms) small = timeout_written client ms (small ms refl)

print_timeout_of :
    (ms : ℕ)
    → print_timeout (timeout_of ms) ≡ (if ms == 0 then "0" else String.◌++◌ (print ms) "ms")
print_timeout_of ms = elim (Bool-cases (ms == 0)) [
  | inl zero_ms ↦ rw zero_ms refl
  | inr some_ms ↦ rw some_ms refl
]

module _ {W R : Type 0} (engine : ShowEngine W R) where
  assign-timeout :
      (statement : Statement) (value : SqlExpr) (rest : List SqlExpr) (s : Session W)
      → assign engine statement "statement_timeout" (value ∷ rest) s ≡ (
        record s { client = set_statement_timeout s.client (parse_timeout value.printed) },
        some (done engine),
      )
  unfolding assign
  assign-timeout statement value rest s = refl

  set_timeout :
      (variable shown : String) (value : SqlExpr) (rest : List SqlExpr) (s : Session W)
      → engine.to_lowercase variable ≡ "statement_timeout"
      → engine.to_lowercase shown ≡ "statement_timeout"
      → (s' : Session W) × (handle_simple_query engine
            (set (single_assignment none false variable (value ∷ rest)))
            s
          ≡ (s', some (ok (execution (tag "SET")))))
        × (get_statement_timeout s'.client ≡ parse_timeout value.printed)
        × (get_timezone s'.client ≡ get_timezone s.client)
        × (s'.world ≡ s.world)
        × (handle_simple_query engine (show_variable (shown ∷ [])) s'
            ≡ (s', show engine "statement_timeout" (print_timeout (parse_timeout value.printed))))
  unfolding handle_simple_query show_word
  set_timeout variable shown value rest s named named' =
      let timeout = parse_timeout value.printed in
      let s' = record s { client = set_statement_timeout s.client timeout } in
      let read : get_statement_timeout (set_statement_timeout s.client timeout) ≡ timeout =
        timeout_kept_exactly s.client timeout
          (λ ms e. (parse_timeout_bounds value.printed ms e).1) in
      (
        s',
        rw named (
            assign-timeout (set (single_assignment none false variable (value ∷ rest))) value rest
              s),
        read,
        timezone_kept s.client timeout,
        refl,
        rw named' (rw read refl),
      )

  -- SET statement_timeout to a number with the unit ms, s or min, or without one, which is ms, in single
  -- quotes or none, answers SET, for a timeout below 2 ^ 64 milliseconds. The timeout of the later
  -- statements is then that many milliseconds, seconds or minutes, or none for 0; the time zone and
  -- DataFusion are left alone, and SHOW prints the timeout in milliseconds, or 0.
  pub set_timeout_lem :
      (variable shown : String) (q : Bool) (n : ℕ) (u : TimeUnit) (value : SqlExpr)
      (rest : List SqlExpr) (s : Session W)
      → engine.to_lowercase variable ≡ "statement_timeout"
      → engine.to_lowercase shown ≡ "statement_timeout"
      → value.printed ≡ printed_as q (timeout_text n u)
      → n * in_milliseconds u < 2 ^ 64
      → (let ms = n * in_milliseconds u in
          (s' : Session W) × (handle_simple_query engine
              (set (single_assignment none false variable (value ∷ rest)))
              s
            ≡ (s', some (ok (execution (tag "SET")))))
          × (get_statement_timeout s'.client ≡ timeout_of ms)
          × (get_timezone s'.client ≡ get_timezone s.client)
          × (s'.world ≡ s.world)
          × (handle_simple_query engine (show_variable (shown ∷ [])) s' ≡ (
            s',
            show engine "statement_timeout" (if ms == 0 then "0" else String.◌++◌ (print ms) "ms"),
          )))
  set_timeout_lem variable shown q n u value rest s named named' printed small =
      let ms = n * in_milliseconds u in
      let (s', set_to, timeout, zone, world, shows) =
        set_timeout variable shown value rest s named named' in
      let means : parse_timeout value.printed ≡ timeout_of ms =
        ap parse_timeout printed ∙ parse_timeout-printed_as q n u small in
      (
        s',
        set_to,
        timeout ∙ means,
        zone,
        world,
        shows
            ∙ ap (λ o. (s', show engine "statement_timeout" (print_timeout o))) means
            ∙ ap (λ text. (s', show engine "statement_timeout" text)) (print_timeout_of ms),
      )
