-- ===== src/Hooks/SetShow/Units.antt =====
-- The texts of timeouts, by their units, and how set_show.rs reads them.
use Prim.Native.Char.{Char, code}
use Prim.Native.String
use Prim.Native.String.{String, [], ◌∷◌}
use text.Mathlib.TextLemmas.{nil-append, cons-append}
use mathlib.Core.Option.{none-ne-some}
use datafusion_postgres.Prelude.{
  ℕ, ◌*◌, ◌^◌, ◌<◌, ◌≤◌, Bool, true, false, Option, none, some, ◌≡◌, refl, sym, ap, ◌∙◌, inl, inr,
  arith, str_eq, eq_iff, ◌==◌, Bool-cases, if◌then◌else◌,
}
use datafusion_postgres.Prelude.Number.{
  print, print_first, print_last, parse_below, parse_below-print,
}
use datafusion_postgres.Prelude.Text
use datafusion_postgres.Prelude.Text.{reverse}
use datafusion_postgres.Prelude.Trim.{trim_start_by, trim_by}
use datafusion_postgres.Prelude.Trim.Kept.{
  reverse-append, reverse-reverse, reverse-ends, starts_kept, ends_kept, starts_kept-append,
  trim_by-kept, trim_by-enclosed,
}
use datafusion_postgres.Hooks.SetShow.{scaled, positive, parse_amount, parse_timeout}

pub data TimeUnit : Type 0 where
  milliseconds seconds minutes unitless : TimeUnit

abbrev pub unit_name : TimeUnit → String
unit_name milliseconds = "ms"
unit_name seconds = "s"
unit_name minutes = "min"
unit_name unitless = ""

abbrev pub in_milliseconds : TimeUnit → ℕ
in_milliseconds milliseconds = 1
in_milliseconds seconds = 1000
in_milliseconds minutes = 60000
in_milliseconds unitless = 1

-- A timeout of no milliseconds is none.
abbrev pub timeout_of : ℕ → Option ℕ
timeout_of ms = if ms == 0 then none else some ms

-- The unit's letters backwards, in front of a text
abbrev unit_before : TimeUnit → String → String
unit_before milliseconds r = "s" ∷ "m" ∷ r
unit_before seconds r = "s" ∷ r
unit_before minutes r = "n" ∷ "i" ∷ "m" ∷ r
unit_before unitless r = r

reverse-unit : (u : TimeUnit) (r : String) → String.◌++◌ (reverse (unit_name u)) r ≡ unit_before u r
unfolding reverse Text.reverse_onto
reverse-unit milliseconds r =
    cons-append "s" "m" r
    ∙ ap (λ t. "s" ∷ t) (cons-append "m" "" r ∙ ap (λ t. "m" ∷ t) (nil-append r))
reverse-unit seconds r = cons-append "s" "" r ∙ ap (λ t. "s" ∷ t) (nil-append r)
reverse-unit minutes r =
    cons-append "n" "im" r
    ∙ ap (λ t. "n" ∷ t)
        (cons-append "i" "m" r
          ∙ ap (λ t. "i" ∷ t) (cons-append "m" "" r ∙ ap (λ t. "m" ∷ t) (nil-append r)))
reverse-unit unitless r = nil-append r

abbrev pub timeout_text : ℕ → TimeUnit → String
timeout_text n u = String.◌++◌ (print n) (unit_name u)

reversed :
    (n : ℕ) (u : TimeUnit)
    → (c : Char) × (r : String) × (reverse (timeout_text n u) ≡ unit_before u (c ∷ r))
      × (print n ≡ reverse (c ∷ r))
      × (b'0' ≤ code c)
      × (code c ≤ b'9')
reversed n u =
    let (start, c, e, low, high) = print_last n in
    let backwards : reverse (print n) ≡ c ∷ reverse start = ap reverse e ∙ reverse-ends c start in
    (
      c,
      reverse start,
      reverse-append (print n) (unit_name u)
          ∙ ap (String.◌++◌ (reverse (unit_name u))) backwards
          ∙ reverse-unit u (c ∷ reverse start),
      sym (reverse-reverse (print n)) ∙ ap reverse backwards,
      low,
      high,
    )

reverse_names :
    (reverse "ms" ≡ "s" ∷ "m" ∷ "")
    × (reverse "s" ≡ "s" ∷ "")
    × (reverse "min" ≡ "n" ∷ "i" ∷ "m" ∷ "")
unfolding reverse Text.reverse_onto
reverse_names = (refl, refl, refl)

-- What is left of a unit, by the number in front of it
abbrev amount_in : TimeUnit → Option ℕ → Option ℕ
amount_in milliseconds o = o
amount_in seconds o = scaled 1000 o
amount_in minutes o = scaled 60000 o
amount_in unitless o = o

module _ (c : Char) (high : code c ≤ b'9') where
  letter_differs : (k : ℕ) → b'9' < k → (code c == k) ≡ false
  letter_differs k above = ground arith

  pairs_kept : (r : String) → Text.drop_pairs "s" "m" (c ∷ r) ≡ c ∷ r
  unfolding Text.drop_pairs
  pairs_kept [] = refl
  pairs_kept (d ∷ r) = rw (letter_differs b's' (omega arith)) refl

  triples_kept : (r : String) → Text.drop_triples "n" "i" "m" (c ∷ r) ≡ c ∷ r
  unfolding Text.drop_triples
  triples_kept [] = refl
  triples_kept (d ∷ []) = refl
  triples_kept (d ∷ e ∷ r) = rw (letter_differs b'n' (omega arith)) refl

  last_s_kept : (r : String) → Text.trim_start "s" (c ∷ r) ≡ c ∷ r
  unfolding Text.trim_start
  last_s_kept r = rw (letter_differs b's' (omega arith)) refl

  -- What is read of a text that ends with a digit and a unit
  amount_of :
      (u : TimeUnit) (t r : String)
      → reverse t ≡ unit_before u (c ∷ r)
      → parse_amount t ≡ amount_in u (parse_below (2 ^ 64) (reverse (c ∷ r)))
  unfolding parse_amount Text.ends_with Text.begins Text.drop_pairs Text.drop_triples
      Text.trim_start
  amount_of milliseconds t r e = rw (reverse_names.0, e, pairs_kept r) refl
  amount_of seconds t r e =
      rw (reverse_names.0, reverse_names.1, e, letter_differs b'm' (omega arith), last_s_kept r)
        refl
  amount_of minutes t r e =
      rw (reverse_names.0, reverse_names.1, reverse_names.2, e, triples_kept r) refl
  amount_of unitless t r e =
      rw
        (
          reverse_names.0,
          reverse_names.1,
          reverse_names.2,
          e,
          letter_differs b's' (omega arith),
          letter_differs b'n' (omega arith),
        )
        (ap (parse_below (2 ^ 64)) (sym (reverse-reverse t) ∙ ap reverse e))

amount_in-some :
    (u : TimeUnit) (n : ℕ)
    → n * in_milliseconds u < 2 ^ 64
    → amount_in u (some n) ≡ some (n * in_milliseconds u)
amount_in-some milliseconds n small = ground arith
amount_in-some seconds n small = ground arith
amount_in-some minutes n small = ground arith
amount_in-some unitless n small = ground arith

fewer : (u : TimeUnit) (n : ℕ) → n * in_milliseconds u < 2 ^ 64 → n < 2 ^ 64
fewer milliseconds n small = omega arith
fewer seconds n small = omega arith
fewer minutes n small = omega arith
fewer unitless n small = omega arith

amount_printed :
    (n : ℕ) (u : TimeUnit)
    → n * in_milliseconds u < 2 ^ 64
    → parse_amount (timeout_text n u) ≡ some (n * in_milliseconds u)
amount_printed n u small =
    let (c, r, e, whole, low, high) = reversed n u in
    amount_of c high u (timeout_text n u) r e
    ∙ ap (λ t. amount_in u (parse_below (2 ^ 64) t)) (sym whole)
    ∙ ap (amount_in u) (parse_below-print (2 ^ 64) n (fewer u n small))
    ∙ amount_in-some u n small

-- The text in single quotes, or as it is
abbrev pub printed_as : Bool → String → String
printed_as true text = "'" ∷ String.◌++◌ text ("'" ∷ "")
printed_as false text = text

abbrev same_as : Char → Char → Bool
same_as d c = code c == code d

trim_start_lem : (d : Char) (s : String) → Text.trim_start d s ≡ trim_start_by (same_as d) s
unfolding Text.trim_start trim_start_by
trim_start_lem d [] = refl
trim_start_lem d (c ∷ s) = rw (trim_start_lem d s) refl

trim_lem : (d : Char) (s : String) → Text.trim d s ≡ trim_by (same_as d) s
unfolding Text.trim trim_by
trim_lem d s =
    ap (λ t. reverse (Text.trim_start d (reverse t))) (trim_start_lem d s)
    ∙ ap reverse (trim_start_lem d (reverse (trim_start_by (same_as d) s)))

module _ (d : Char) (before : code d < b'0') (n : ℕ) (u : TimeUnit) where
  starts : starts_kept (same_as d) (timeout_text n u) ≡ true
  starts =
      let (c, rest, e, low) = print_first n in
      starts_kept-append (same_as d) (print n) (unit_name u) (rw e (ground arith))

  ends : ends_kept (same_as d) (timeout_text n u) ≡ true
  ends = let (c, r, e, whole, low, high) = reversed n u in rw e (kept u c r low)
    where
      kept :
          (v : TimeUnit) (c : Char) (r : String)
          → b'0' ≤ code c
          → starts_kept (same_as d) (unit_before v (c ∷ r)) ≡ true
      kept milliseconds c r low = ground arith
      kept seconds c r low = ground arith
      kept minutes c r low = ground arith
      kept unitless c r low = ground arith

-- The quotes come off, and nothing else does.
trimmed :
    (q : Bool) (n : ℕ) (u : TimeUnit)
    → Text.trim "'" (Text.trim "\"" (printed_as q (timeout_text n u))) ≡ timeout_text n u
trimmed false n u =
    ap (Text.trim "'") (
      trim_lem "\"" (timeout_text n u)
      ∙ trim_by-kept (same_as "\"") (timeout_text n u) (starts "\"" (omega arith) n u)
          (ends "\"" (omega arith) n u))
    ∙ trim_lem "'" (timeout_text n u)
    ∙ trim_by-kept (same_as "'") (timeout_text n u) (starts "'" (omega arith) n u)
        (ends "'" (omega arith) n u)
trimmed true n u =
    let text = timeout_text n u in
    let backwards : reverse ("'" ∷ String.◌++◌ text ("'" ∷ "")) ≡ "'" ∷ reverse ("'" ∷ text) =
      ap reverse (sym (cons-append "'" text ("'" ∷ ""))) ∙ reverse-ends "'" ("'" ∷ text) in
    ap (Text.trim "'") (
      trim_lem "\"" (printed_as true text)
      ∙ trim_by-kept (same_as "\"") (printed_as true text) refl
          (ap (starts_kept (same_as "\"")) backwards))
    ∙ trim_lem "'" (printed_as true text)
    ∙ trim_by-enclosed (same_as "'") "'" "'" text refl refl (starts "'" (omega arith) n u)
        (ends "'" (omega arith) n u)

zero_amount : (parse_amount "0" ≡ some 0) × (parse_amount "" ≡ none)
unfolding parse_amount Text.ends_with Text.begins reverse Text.reverse_onto parse_below
zero_amount = (refl, refl)

positive_timeout : (ms : ℕ) → positive (some ms) ≡ timeout_of ms
positive_timeout ms = ground arith

-- A number and a unit are read as that many milliseconds.
pub parse_timeout-printed_as :
    (q : Bool) (n : ℕ) (u : TimeUnit)
    → n * in_milliseconds u < 2 ^ 64
    → parse_timeout (printed_as q (timeout_text n u)) ≡ timeout_of (n * in_milliseconds u)
unfolding parse_timeout
parse_timeout-printed_as q n u small =
    let text = timeout_text n u in
    let amount = amount_printed n u small in
    rw (trimmed q n u) (elim (Bool-cases (str_eq text "0")) [
      | inl zero_text ↦
          let same : some 0 ≡ some (n * in_milliseconds u) =
            sym zero_amount.0 ∙ ap parse_amount (sym ((eq_iff text "0").0 zero_text)) ∙ amount in
          let none_left : n * in_milliseconds u ≡ 0 = cc in rw zero_text (rw none_left refl)
      | inr other ↦ elim (Bool-cases (str_eq text "")) [
        | inl empty ↦ absurd (
            none-ne-some (n * in_milliseconds u)
              (sym zero_amount.1 ∙ ap parse_amount (sym ((eq_iff text "").0 empty)) ∙ amount))
        | inr full ↦ rw (other, full, amount) (positive_timeout (n * in_milliseconds u))
      ]
    ])
