-- ===== src/Ident/Scan.antt =====
-- What the loop of `parse_ident_string` does on an escaped identifier and on a plain word.
use Prim.Native.Char.{Char}
use Prim.Native.String
use Prim.Native.String.{[], ◌∷◌}
use mathlib.Core.List.{List, [], ◌∷◌}
use text.Mathlib.TextLemmas.{nil-append, cons-append, append_assoc, append-nil}
use datafusion_postgres.Prelude.{
  String, Bool, true, false, ◌||◌, ◌≡◌, refl, ◌∙◌, inl, inr, arith, Bool-cases,
}
use datafusion_postgres.Ident.{
  quote, is_quote, is_dot, push, escape, starts_with, close, finish, scan,
}

module _ (strict dot : Bool) where
  -- A character that is no quote is taken as it is inside quotes, whatever follows.
  scan_inside :
      (found : List String) (current rest : String) (c : Char)
      → is_quote c ≡ false
      → scan strict dot found current true (c ∷ rest)
        ≡ scan strict dot found (push current c) true rest
  unfolding scan
  scan_inside found current [] c plain = rw plain
  scan_inside found current (d ∷ rest) c plain = rw plain

  -- A quote that another quote follows stands for itself.
  scan_doubled :
      (found : List String) (current rest : String) (c d : Char)
      → is_quote c ≡ true
      → is_quote d ≡ true
      → scan strict dot found current true (c ∷ d ∷ rest)
        ≡ scan strict dot found (push current c) true rest
  unfolding scan
  scan_doubled found current rest c d p q = rw (p, q)

  scan_closing :
      (found : List String) (current rest : String)
      → starts_with is_quote rest ≡ false
      → scan strict dot found current true (quote ∷ rest)
        ≡ scan strict dot (close found current) "" false rest
  unfolding scan starts_with
  scan_closing found current [] plain = refl
  scan_closing found current (d ∷ rest) plain = rw plain

  -- The escaped text and the closing quote make one part, and the rest is read after it.
  pub scan-escape :
      (found : List String) (current s rest : String)
      → starts_with is_quote rest ≡ false
      → scan strict dot found current true (String.◌++◌ (escape s) (quote ∷ rest))
        ≡ scan strict dot (close found (String.◌++◌ current s)) "" false rest
  unfolding escape
  scan-escape found current [] rest plain =
      rw nil-append (rw append-nil (scan_closing found current rest plain))
  scan-escape found current (c ∷ s) rest plain =
      let whole : String.◌++◌ (push current c) s ≡ String.◌++◌ current (c ∷ s) =
        simp (append_assoc, cons-append, nil-append) in
      elim (Bool-cases (is_quote c)) [
        | inl q ↦ rw q (
            rw cons-append (
              rw cons-append (
                scan_doubled found current (String.◌++◌ (escape s) (quote ∷ rest)) c c q q
                ∙ scan-escape found (push current c) s rest plain
                ∙ rw whole)))
        | inr p ↦ rw p (
            rw cons-append (
              scan_inside found current (String.◌++◌ (escape s) (quote ∷ rest)) c p
              ∙ scan-escape found (push current c) s rest plain
              ∙ rw whole))
      ]

-- No quote and no dot.
unfoldable pub IsPlain : String → Type 0
IsPlain [] = Unit
IsPlain (c ∷ s) = ((is_quote c || is_dot c) ≡ false) × IsPlain s

pub scan_plain :
    (strict dot : Bool) (found : List String) (current s : String)
    → IsPlain s
    → scan strict dot found current false s ≡ finish strict dot found (String.◌++◌ current s) false
unfolding scan IsPlain
scan_plain strict dot found current [] h = rw append-nil
scan_plain strict dot found current (c ∷ s) (p, h) =
    let whole : String.◌++◌ (push current c) s ≡ String.◌++◌ current (c ∷ s) =
      simp (append_assoc, cons-append, nil-append) in
    let q : is_quote c ≡ false = ground arith in
    let d : is_dot c ≡ false = ground arith in
    rw (q, d) (scan_plain strict dot found (push current c) s h ∙ rw whole)
