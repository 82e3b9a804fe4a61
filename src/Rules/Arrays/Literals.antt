-- ===== src/Rules/Arrays/Literals.antt =====
-- The array literals that PostgreSQL prints, and how the rules read their elements.
use Prim.Native.Char.{Char, code}
use Prim.Native.String
use Prim.Native.String.{[], ◌∷◌}
use mathlib.Core.Path.{subst}
use mathlib.Core.List.{[], ◌∷◌}
use datafusion_postgres.Prelude.{
  String, Bool, true, false, not, ◌&&◌, ◌||◌, List, map, ◌≡◌, refl, sym, ap, ◌∙◌, inl, inr, arith,
  eq_iff, ◌==◌, str_eq, Bool-cases,
}
use text.Mathlib.TextLemmas.{nil-append, cons-append, append_assoc}
use datafusion_postgres.Prelude.Lists.{All, retain}
use datafusion_postgres.Prelude.Text
use datafusion_postgres.Prelude.Trim.{
  is_brace_or_space, is_whitespace, trim_whitespace, split_commas,
}
use datafusion_postgres.Prelude.Trim.Kept.{
  starts_kept, ends_kept, starts_kept-append, ends_kept-append, trim_by-kept, trim_by-enclosed,
}
use datafusion_postgres.Rules.Arrays.{literal_items}

abbrev pub no_commas : String → Bool
no_commas [] = true
no_commas (c ∷ s) = not (code c == b',') && no_commas s

-- An element as an array literal can hold it bare: not empty, without commas, and with neither
-- braces nor blanks at its ends.
abbrev pub is_edge : Char → Bool
is_edge c = is_brace_or_space c || is_whitespace c

unfoldable pub IsItem : String → Type 0
IsItem s = (starts_kept is_edge s ≡ true) × (ends_kept is_edge s ≡ true) × (no_commas s ≡ true)

abbrev pub comma : Char
comma = ","

-- The elements with commas between them
unfoldable pub joined : List String → String
joined [] = ""
joined (s ∷ []) = s
joined (s ∷ t ∷ rest) = String.◌++◌ s (comma ∷ joined (t ∷ rest))

split_commas_none : (s : String) → no_commas s ≡ true → split_commas s ≡ s ∷ []
unfolding split_commas
split_commas_none [] h = refl
split_commas_none (c ∷ s) h = ground (arith, split_commas_none s)

split_commas-append :
    (s rest : String)
    → no_commas s ≡ true
    → split_commas (String.◌++◌ s (comma ∷ rest)) ≡ s ∷ split_commas rest
unfolding split_commas
split_commas-append [] rest h = rw (nil-append (comma ∷ rest)) refl
split_commas-append (c ∷ s) rest h =
    let plain : (code c == b',') ≡ false = ground arith in
    rw (cons-append c s (comma ∷ rest)) (rw (plain, split_commas-append s rest (ground arith)) refl)

-- Fewer characters are trimmed.
module _ (test other : Char → Bool) (fewer : (c : Char) → test c ≡ false → other c ≡ false) where
  starts_kept_fewer : (s : String) → starts_kept test s ≡ true → starts_kept other s ≡ true
  starts_kept_fewer [] h = h
  starts_kept_fewer (c ∷ s) h = ground (arith, fewer c)

module _ (s : String) (item : IsItem s) where
  item_kept : trim_whitespace s ≡ s
  unfolding trim_whitespace IsItem
  item_kept =
      trim_by-kept is_whitespace s
        (starts_kept_fewer is_edge is_whitespace (λ c h. ground arith) s item.0)
        (starts_kept_fewer is_edge is_whitespace (λ c h. ground arith) (Text.reverse s) item.1)

  item_full : not (str_eq s "") ≡ true
  unfolding IsItem
  item_full = elim (Bool-cases (str_eq s "")) [
    | inl empty ↦
        let bad : false ≡ true = ap (starts_kept is_edge) (sym ((eq_iff s "").0 empty)) ∙ item.0 in
        ground arith
    | inr full ↦ rw full refl
  ]

split_commas-joined :
    (s : String) (rest : List String)
    → All IsItem (s ∷ rest)
    → split_commas (joined (s ∷ rest)) ≡ s ∷ rest
unfolding joined IsItem
split_commas-joined s [] h = split_commas_none s h.0.2
split_commas-joined s (t ∷ rest) h =
    split_commas-append s (joined (t ∷ rest)) h.0.2
    ∙ ap (λ parts. s ∷ parts) (split_commas-joined t rest h.1)

-- The literal neither begins nor ends with anything that is trimmed, but for its braces.
joined-starts :
    (s : String) (rest : List String)
    → All IsItem (s ∷ rest)
    → starts_kept is_edge (joined (s ∷ rest)) ≡ true
unfolding joined IsItem
joined-starts s [] h = h.0.0
joined-starts s (t ∷ rest) h = starts_kept-append is_edge s (comma ∷ joined (t ∷ rest)) h.0.0

joined-ends :
    (s : String) (rest : List String)
    → All IsItem (s ∷ rest)
    → ends_kept is_edge (joined (s ∷ rest)) ≡ true
unfolding joined IsItem
joined-ends s [] h = h.0.1
joined-ends s (t ∷ rest) h =
    let last = joined (t ∷ rest) in
    subst (λ u. ends_kept is_edge u ≡ true)
      (append_assoc s (comma ∷ []) last
        ∙ ap (String.◌++◌ s) (cons-append comma [] last ∙ ap (λ u. comma ∷ u) (nil-append last)))
      (ends_kept-append is_edge (String.◌++◌ s (comma ∷ [])) last (joined-ends t rest h.1))

map-items_kept :
    (parts : List String)
    → All IsItem parts
    → retain (λ s. not (str_eq s "")) (map trim_whitespace parts) ≡ parts
unfolding retain
map-items_kept [] h = refl
map-items_kept (s ∷ parts) h = rw (item_kept s h.0, item_full s h.0, map-items_kept parts h.1) refl

-- The literal that holds the elements
unfoldable pub braced : List String → String
unfolding joined
braced parts = "{" ∷ String.◌++◌ (joined parts) ("}" ∷ [])

pub literal_items-braced :
    (parts : List String) → All IsItem parts → literal_items (braced parts) ≡ parts
unfolding literal_items braced
literal_items-braced [] h = refl
literal_items-braced (s ∷ parts) h =
    let all = joined (s ∷ parts) in
    let starts =
      starts_kept_fewer is_edge is_brace_or_space (λ c e. ground arith) all
        (joined-starts s parts h) in
    let ends =
      starts_kept_fewer is_edge is_brace_or_space (λ c e. ground arith) (Text.reverse all)
        (joined-ends s parts h) in
    rw
      (
        trim_by-enclosed is_brace_or_space "{" "}" all refl refl starts ends,
        split_commas-joined s parts h,
      )
      (map-items_kept (s ∷ parts) h)
