-- ===== src/Ident/RoundTrip.antt =====
-- `quote_ident` and then `parse_ident`.
use Prim.Native.Char.{Char}
use Prim.Native.String
use Prim.Native.String.{[], ◌∷◌}
use mathlib.Core.List.{List, [], ◌∷◌, ◌++◌}
use text.Mathlib.TextLemmas.{nil-append, cons-append, append_assoc, nil≢cons}
use datafusion_postgres.Prelude.{
  String, Bool, true, false, ◌&&◌, ◌≡◌, ◌≢◌, refl, sym, ap, ◌∙◌, inl, inr, arith, eq_iff, str_eq,
  Bool-cases,
}
use datafusion_postgres.Ident.{
  Unicode, quote, is_quote, is_dot, parts, invalid, escape, ends_with, starts_with, close, finish,
  scan, parse_ident_string, all_word_parts, needs_quoting, quote_ident,
}
use datafusion_postgres.Ident.Scan.{scan-escape, IsPlain, scan_plain}

module _ (unicode : Unicode) where
  IsPlain-of_word_parts : (s : String) → all_word_parts unicode s ≡ true → IsPlain s
  unfolding IsPlain
  IsPlain-of_word_parts [] h = tt
  IsPlain-of_word_parts (c ∷ s) h = (
    elim (Bool-cases (unicode.is_alphanumeric c)) [
      | inl w ↦ unicode.plain_alphanumeric c w
      | inr n ↦ ground arith
    ],
    IsPlain-of_word_parts s (ground arith),
  )

  IsPlain-of_needs_quoting : (s : String) → needs_quoting unicode s ≡ false → IsPlain s
  unfolding needs_quoting IsPlain
  IsPlain-of_needs_quoting [] h = tt
  IsPlain-of_needs_quoting (c ∷ s) h = (
    elim (Bool-cases (unicode.is_alphabetic c)) [
      | inl w ↦ unicode.plain_alphabetic c w
      | inr n ↦ ground arith
    ],
    IsPlain-of_word_parts s (ground arith),
  )

abbrev pub quoted : String → String
quoted s = quote ∷ String.◌++◌ (escape s) (quote ∷ [])

ends_with-concat :
    (test : Char → Bool) (s : String) (c : Char) → ends_with test (String.◌++◌ s (c ∷ [])) ≡ test c
unfolding ends_with
ends_with-concat test [] c = rw nil-append
ends_with-concat test (d ∷ []) c = rw (cons-append, nil-append)
ends_with-concat test (d ∷ e ∷ s) c =
    rw cons-append (rw cons-append (rw cons-append at (ends_with-concat test (e ∷ s) c)))

module _ (unicode : Unicode) (ident : String)
    (bare : (starts_with is_quote ident && ends_with is_quote ident) ≡ false) where
  quote_ident-quoted : needs_quoting unicode ident ≡ true → quote_ident unicode ident ≡ quoted ident
  unfolding quote_ident
  quote_ident-quoted needs = rw (bare, needs)

  quote_ident-word : needs_quoting unicode ident ≡ false → quote_ident unicode ident ≡ ident
  unfolding quote_ident
  quote_ident-word word = rw (bare, word)

abbrev pub full_stop : Char
full_stop = "."

module _ (strict : Bool) where
  parse_nonempty :
      (ident : String)
      → ident ≢ ""
      → parse_ident_string ident strict ≡ scan strict (ends_with is_dot ident) [] "" false ident
  unfolding parse_ident_string
  parse_nonempty ident full = elim (Bool-cases (str_eq ident "")) [
    | inl empty ↦ absurd (full ((eq_iff ident "").0 empty))
    | inr other ↦ rw other
  ]

  close_full : (found : List String) (s : String) → s ≢ "" → close found s ≡ found ++ s ∷ []
  unfolding close
  close_full found s full = ground (arith, eq_iff s "")

  scan_opening :
      (dot : Bool) (found : List String) (rest : String)
      → scan strict dot found "" false (quote ∷ rest) ≡ scan strict dot found "" true rest
  unfolding scan
  scan_opening dot found rest = refl

  -- A quoted identifier in front of the rest of the input.
  scan_quoted :
      (dot : Bool) (found : List String) (ident rest : String)
      → ident ≢ ""
      → starts_with is_quote rest ≡ false
      → scan strict dot found "" false (quote ∷ String.◌++◌ (escape ident) (quote ∷ rest))
        ≡ scan strict dot (found ++ ident ∷ []) "" false rest
  scan_quoted dot found ident rest full plain =
      scan_opening dot found (String.◌++◌ (escape ident) (quote ∷ rest))
      ∙ scan-escape strict dot found "" ident rest plain
      ∙ rw nil-append (rw (close_full found ident full))

  scan_end : (found : String) → scan strict false (found ∷ []) "" false "" ≡ parts (found ∷ [])
  unfolding scan finish
  scan_end found = refl

  cons-ne-nil : (c : Char) (s : String) → String.◌∷◌ c s ≢ ""
  cons-ne-nil c s e = nil≢cons (sym e)

  -- A quoted identifier, read alone.
  parse_quoted :
      (ident : String) → ident ≢ "" → parse_ident_string (quoted ident) strict ≡ parts (ident ∷ [])
  parse_quoted ident full =
      let last : ends_with is_dot (quoted ident) ≡ false =
        rw cons-append at (ends_with-concat is_dot (quote ∷ escape ident) quote) in
      parse_nonempty (quoted ident) (cons-ne-nil _ _)
      ∙ ap (λ dot. scan strict dot [] "" false (quoted ident)) last
      ∙ scan_quoted false [] ident [] full (unfold starts_with in refl)
      ∙ scan_end ident

  finish_full : (dot : Bool) (s : String) → s ≢ "" → finish strict dot [] s false ≡ parts (s ∷ [])
  unfolding finish
  finish_full dot s full = ground (arith, eq_iff s "")

  parse_word :
      (ident : String)
      → ident ≢ ""
      → IsPlain ident
      → parse_ident_string ident strict ≡ parts (ident ∷ [])
  parse_word ident full plain =
      parse_nonempty ident full
      ∙ scan_plain strict (ends_with is_dot ident) [] "" ident plain
      ∙ rw nil-append (finish_full (ends_with is_dot ident) ident full)

-- `parse_ident` in both modes reads what `quote_ident` writes as that one identifier, unless the
-- identifier is empty or begins and ends with a quote.
pub parse_ident-quote_ident :
    (unicode : Unicode) (ident : String) (strict : Bool)
    → ident ≢ ""
    → (starts_with is_quote ident && ends_with is_quote ident) ≡ false
    → parse_ident_string (quote_ident unicode ident) strict ≡ parts (ident ∷ [])
parse_ident-quote_ident unicode ident strict full bare =
    elim (Bool-cases (needs_quoting unicode ident)) [
      | inl needs ↦
          rw (quote_ident-quoted unicode ident bare needs) (parse_quoted strict ident full)
      | inr word ↦
          rw (quote_ident-word unicode ident bare word)
            (parse_word strict ident full (IsPlain-of_needs_quoting unicode ident word))
    ]

quoted-append :
    (a t : String)
    → String.◌++◌ (quoted a) t ≡ String.◌∷◌ quote (String.◌++◌ (escape a) (String.◌∷◌ quote t))
quoted-append a t =
    let one : String.◌++◌ (String.◌∷◌ quote "") t ≡ String.◌∷◌ quote t =
      cons-append quote "" t ∙ ap (λ (u : String). String.◌∷◌ quote u) (nil-append t) in
    simp (cons-append, append_assoc)
      (ap (λ (u : String). String.◌∷◌ quote (String.◌++◌ (escape a) u)) one)

strict_stop :
    (dot : Bool) (found : List String) (rest : String)
    → scan true dot found "" false (full_stop ∷ rest) ≡ invalid "empty identifier part"
unfolding scan
strict_stop dot found rest = refl

lax_stop :
    (dot : Bool) (found : List String) (rest : String)
    → scan false dot found "" false (full_stop ∷ rest) ≡ scan false dot found "" false rest
unfolding scan
lax_stop dot found rest = refl

lax_end :
    (dot : Bool) (a : String) (found : List String)
    → scan false dot (a ∷ found) "" false "" ≡ parts (a ∷ found)
unfolding scan
lax_end true a found = refl
lax_end false a found = refl

-- The strict mode refuses every input that begins with a quoted identifier and a dot, and the other
-- mode reads two quoted identifiers with a dot between them as those two.
pub quoted_pair :
    (a b rest : String)
    → a ≢ ""
    → b ≢ ""
    → (parse_ident_string (String.◌++◌ (quoted a) (full_stop ∷ rest)) true
        ≡ invalid "empty identifier part")
      × (parse_ident_string (String.◌++◌ (quoted a) (full_stop ∷ quoted b)) false
          ≡ parts (a ∷ b ∷ []))
quoted_pair a b rest full_a full_b = (
  rw quoted-append (
      parse_nonempty true _ (cons-ne-nil true _ _)
      ∙ scan_quoted true _ [] a (full_stop ∷ rest) full_a (unfold starts_with in refl)
      ∙ strict_stop _ (a ∷ []) rest),
  rw quoted-append (
      parse_nonempty false _ (cons-ne-nil false _ _)
      ∙ scan_quoted false _ [] a (full_stop ∷ quoted b) full_a (unfold starts_with in refl)
      ∙ lax_stop _ (a ∷ []) (quoted b)
      ∙ scan_quoted false _ (a ∷ []) b [] full_b (unfold starts_with in refl)
      ∙ lax_end _ a (b ∷ [])),
)
