-- ===== src/Prelude/Trim/Kept.antt =====
-- Texts by what they begin and end with, before and after trimming.
use Prim.Native.Char.{Char}
use Prim.Native.String
use Prim.Native.String.{String, [], ◌∷◌}
use mathlib.Core.Path.{◌≡◌, refl, sym, ap, ◌∙◌}
use mathlib.Core.Bool.{Bool, true, false, not}
use mathlib.Core.List.{[], ◌∷◌}
use native.Mathlib.Omega.{arith}
use text.Mathlib.TextLemmas.{nil-append, cons-append, append_assoc, append-nil}
use datafusion_postgres.Prelude.Text.{reverse_onto, reverse}
use datafusion_postgres.Prelude.Trim.{trim_start_by, trim_by}

reverse_onto-append :
    (s out rest : String)
    → reverse_onto s (String.◌++◌ out rest) ≡ String.◌++◌ (reverse_onto s out) rest
unfolding reverse_onto
reverse_onto-append [] out rest = refl
reverse_onto-append (c ∷ s) out rest =
    rw (sym (cons-append c out rest)) (reverse_onto-append s (c ∷ out) rest)

reverse_onto_lem : (s out : String) → reverse_onto s out ≡ String.◌++◌ (reverse s) out
unfolding reverse
reverse_onto_lem s out = ap (reverse_onto s) (sym (nil-append out)) ∙ reverse_onto-append s "" out

reverse-cons : (c : Char) (s : String) → reverse (c ∷ s) ≡ String.◌++◌ (reverse s) (c ∷ [])
unfolding reverse reverse_onto
reverse-cons c s = reverse_onto_lem s (c ∷ [])

-- The second text comes first.
pub reverse-append :
    (s t : String) → reverse (String.◌++◌ s t) ≡ String.◌++◌ (reverse t) (reverse s)
unfolding reverse reverse_onto
reverse-append [] t = ap reverse (nil-append t) ∙ sym (append-nil (reverse t))
reverse-append (c ∷ s) t =
    ap reverse (cons-append c s t)
    ∙ reverse-cons c (String.◌++◌ s t)
    ∙ ap (λ u. String.◌++◌ u (c ∷ [])) (reverse-append s t)
    ∙ append_assoc (reverse t) (reverse s) (c ∷ [])
    ∙ ap (String.◌++◌ (reverse t)) (sym (reverse-cons c s))

pub reverse-reverse : (s : String) → reverse (reverse s) ≡ s
unfolding reverse reverse_onto
reverse-reverse [] = refl
reverse-reverse (c ∷ s) =
    ap reverse (reverse-cons c s)
    ∙ reverse-append (reverse s) (c ∷ [])
    ∙ cons-append c [] (reverse (reverse s))
    ∙ ap (λ t. c ∷ t) (nil-append (reverse (reverse s)) ∙ reverse-reverse s)

pub reverse-ends : (d : Char) (s : String) → reverse (String.◌++◌ s (d ∷ [])) ≡ d ∷ reverse s
unfolding reverse reverse_onto
reverse-ends d s =
    reverse-append s (d ∷ [])
    ∙ cons-append d [] (reverse s)
    ∙ ap (λ t. d ∷ t) (nil-append (reverse s))

module _ (test : Char → Bool) where
  -- A text whose first character is there and is not trimmed
  abbrev pub starts_kept : String → Bool
  starts_kept [] = false
  starts_kept (c ∷ s) = not (test c)

  abbrev pub ends_kept : String → Bool
  ends_kept s = starts_kept (reverse s)

  pub starts_kept-append :
      (s t : String) → starts_kept s ≡ true → starts_kept (String.◌++◌ s t) ≡ true
  starts_kept-append [] t kept = cc
  starts_kept-append (c ∷ s) t kept = rw (cons-append c s t) kept

  pub ends_kept-append : (s t : String) → ends_kept t ≡ true → ends_kept (String.◌++◌ s t) ≡ true
  ends_kept-append s t kept =
      rw (reverse-append s t) (starts_kept-append (reverse t) (reverse s) kept)

  trim_start_by-kept : (s : String) → starts_kept s ≡ true → trim_start_by test s ≡ s
  unfolding trim_start_by
  trim_start_by-kept [] kept = refl
  trim_start_by-kept (c ∷ s) kept = ground arith

  pub trim_by-kept : (s : String) → starts_kept s ≡ true → ends_kept s ≡ true → trim_by test s ≡ s
  unfolding trim_by
  trim_by-kept s starts ends =
      rw (trim_start_by-kept s starts, trim_start_by-kept (reverse s) ends) (reverse-reverse s)

  trim_start_by-cut :
      (c : Char) (s : String) → test c ≡ true → trim_start_by test (c ∷ s) ≡ trim_start_by test s
  unfolding trim_start_by
  trim_start_by-cut c s cut = rw cut refl

  -- One trimmed character at each end comes off.
  pub trim_by-enclosed :
      (c d : Char) (s : String)
      → test c ≡ true
      → test d ≡ true
      → starts_kept s ≡ true
      → ends_kept s ≡ true
      → trim_by test (c ∷ String.◌++◌ s (d ∷ [])) ≡ s
  unfolding trim_by
  trim_by-enclosed c d s cut_c cut_d starts ends =
      rw
        (
          trim_start_by-cut c (String.◌++◌ s (d ∷ [])) cut_c,
          trim_start_by-kept (String.◌++◌ s (d ∷ [])) (starts_kept-append s (d ∷ []) starts),
          reverse-ends d s,
          trim_start_by-cut d (reverse s) cut_d,
          trim_start_by-kept (reverse s) ends,
        )
        (reverse-reverse s)
