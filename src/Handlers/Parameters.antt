-- ===== src/Handlers/Parameters.antt =====
-- handlers.rs: `ordered_param_types`, which puts the types of the parameters `$1`, `$2`, ... in the
-- order of their numbers. The map is given by its entries, in any order.
use mathlib.Core.List.{Permᴰ}
use mathlib.Core.List.Permᴰ
use Prim.Native.Char.{code}
use datafusion_postgres.Prelude.{
  ℕ, ◌-◌, ◌^◌, ◌<◌, ◌≤◌, String, Option, none, some, List, [], ◌∷◌, map, ◌≡◌, ap, inl, inr, refl,
  arith, leb, leb→le, ◌==◌, Bool-cases, if◌then◌else◌,
}
use datafusion_postgres.Prelude.Dict.{Dict}
use datafusion_postgres.Prelude.Lists.{All}
use datafusion_postgres.Prelude.Number.{parse_below, print, print_first, parse_below-print}

-- `key.trim_start_matches('$')`
abbrev trim_dollars : String → String
trim_dollars String.[] = ""
trim_dollars (String.◌∷◌ c rest) = if code c == b'$' then trim_dollars rest else String.◌∷◌ c rest

abbrev or_max : Option ℕ → ℕ
or_max none = 2 ^ 32 - 1
or_max (some n) = n

-- The number of a placeholder; every other key counts as the largest `u32`.
unfoldable pub number : String → ℕ
number key = or_max (parse_below (2 ^ 32) (trim_dollars key))

-- `$` and a printed number are read as the number.
number_placeholder : (n : ℕ) → n < 2 ^ 32 → number (String.◌∷◌ "$" (print n)) ≡ n
unfolding number
number_placeholder n small =
    let (c, rest, e, le) = print_first n in
    let kept : trim_dollars (print n) ≡ print n = rw e (ground (arith, le)) in
    rw (kept, parse_below-print (2 ^ 32) n small) refl

module _ {T : Type 0} where
  insert_by_number : String × T → List (String × T) → List (String × T)
  insert_by_number e [] = e ∷ []
  insert_by_number e (f ∷ fs) =
      if leb (number e.0) (number f.0) then e ∷ f ∷ fs else f ∷ insert_by_number e fs

  -- `sort_by_key`, which keeps the order of equal keys
  pub sort_by_number : List (String × T) → List (String × T)
  unfolding insert_by_number
  sort_by_number [] = []
  sort_by_number (e ∷ es) = insert_by_number e (sort_by_number es)

  unfoldable pub ordered_param_types : Dict T → List T
  unfolding sort_by_number
  ordered_param_types types = map (λ entry. entry.1) (sort_by_number types)

  abbrev IsSorted : List (String × T) → Type 0
  IsSorted [] = Unit
  IsSorted (e ∷ es) = All (λ f. number e.0 ≤ number f.0) es × IsSorted es

  insert_by_number-Perm :
      (e : String × T) (es : List (String × T)) → Permᴰ (insert_by_number e es) (e ∷ es)
  unfolding insert_by_number
  insert_by_number-Perm e [] = Permᴰ.refl (e ∷ [])
  insert_by_number-Perm e (f ∷ fs) = elim (Bool-cases (leb (number e.0) (number f.0))) [
    | inl before ↦ rw before (Permᴰ.refl (e ∷ f ∷ fs))
    | inr after ↦
        rw after (Permᴰ.trans (Permᴰ.cons refl (insert_by_number-Perm e fs)) (Permᴰ.swap refl refl))
  ]

  sort_by_number-Perm : (es : List (String × T)) → Permᴰ (sort_by_number es) es
  unfolding sort_by_number
  sort_by_number-Perm [] = Permᴰ.nil
  sort_by_number-Perm (e ∷ es) =
      Permᴰ.trans (insert_by_number-Perm e (sort_by_number es))
        (Permᴰ.cons refl (sort_by_number-Perm es))

  All-insert_by_number :
      (n : ℕ) (e : String × T) (es : List (String × T))
      → n ≤ number e.0
      → All (λ f. n ≤ number f.0) es
      → All (λ f. n ≤ number f.0) (insert_by_number e es)
  unfolding insert_by_number
  All-insert_by_number n e [] first all = (first, tt)
  All-insert_by_number n e (f ∷ fs) first (next, all) =
      elim (Bool-cases (leb (number e.0) (number f.0))) [
        | inl before ↦ rw before (first, (next, all))
        | inr after ↦ rw after (next, All-insert_by_number n e fs first all)
      ]

  All-trans :
      (m n : ℕ) (es : List (String × T))
      → m ≤ n
      → All (λ f. n ≤ number f.0) es
      → All (λ f. m ≤ number f.0) es
  All-trans m n [] le all = tt
  All-trans m n (e ∷ es) le (first, all) = (omega arith, All-trans m n es le all)

  insert_by_number-IsSorted :
      (e : String × T) (es : List (String × T)) → IsSorted es → IsSorted (insert_by_number e es)
  unfolding insert_by_number
  insert_by_number-IsSorted e [] sorted = (tt, tt)
  insert_by_number-IsSorted e (f ∷ fs) (least, sorted) =
      elim (Bool-cases (leb (number e.0) (number f.0))) [
        | inl before ↦
            let le = leb→le (number e.0) (number f.0) before in
            rw before ((le, All-trans (number e.0) (number f.0) fs le least), (least, sorted))
        | inr after ↦
            let ge : number f.0 ≤ number e.0 = ground arith in
            rw after (
              All-insert_by_number (number f.0) e fs ge least,
              insert_by_number-IsSorted e fs sorted,
            )
      ]

  sort_by_number-IsSorted : (es : List (String × T)) → IsSorted (sort_by_number es)
  unfolding sort_by_number
  sort_by_number-IsSorted [] = tt
  sort_by_number-IsSorted (e ∷ es) =
      insert_by_number-IsSorted e (sort_by_number es) (sort_by_number-IsSorted es)

  -- The numbers that the entries have by their keys
  abbrev numbered : List (String × T) → List (ℕ × T)
  numbered es = map (λ e. (number e.0, e.1)) es

  abbrev pub IsOrdered : List (ℕ × T) → Type 0
  IsOrdered [] = Unit
  IsOrdered (e ∷ es) = All (λ f. e.0 ≤ f.0) es × IsOrdered es

  -- The entries of a map by the numbers of the placeholders
  abbrev pub placeholders : List (ℕ × T) → Dict T
  placeholders es = map (λ e. (String.◌∷◌ "$" (print e.0), e.1)) es

  numbered-Perm : {es fs : List (String × T)} → Permᴰ es fs → Permᴰ (numbered es) (numbered fs)
  numbered-Perm Permᴰ.nil = Permᴰ.nil
  numbered-Perm (Permᴰ.cons x p) = Permᴰ.cons (ap (λ e. (number e.0, e.1)) x) (numbered-Perm p)
  numbered-Perm (Permᴰ.swap x y) =
      Permᴰ.swap (ap (λ e. (number e.0, e.1)) x) (ap (λ e. (number e.0, e.1)) y)
  numbered-Perm (Permᴰ.trans p q) = Permᴰ.trans (numbered-Perm p) (numbered-Perm q)

  All-numbered :
      (n : ℕ) (es : List (String × T))
      → All (λ f. n ≤ number f.0) es
      → All (λ f. n ≤ f.0) (numbered es)
  All-numbered n [] all = tt
  All-numbered n (e ∷ es) (first, all) = (first, All-numbered n es all)

  numbered-IsOrdered : (es : List (String × T)) → IsSorted es → IsOrdered (numbered es)
  numbered-IsOrdered [] sorted = tt
  numbered-IsOrdered (e ∷ es) (least, sorted) =
      (All-numbered (number e.0) es least, numbered-IsOrdered es sorted)

  types_numbered : (es : List (String × T)) → map (λ e. e.1) es ≡ map (λ e. e.1) (numbered es)
  types_numbered [] = refl
  types_numbered (e ∷ es) = ap (λ l. e.1 ∷ l) (types_numbered es)

  numbered-placeholders :
      (es : List (ℕ × T)) → All (λ e. e.0 < 2 ^ 32) es → numbered (placeholders es) ≡ es
  numbered-placeholders [] small = refl
  numbered-placeholders (e ∷ es) (first, small) =
      rw (number_placeholder e.0 first, numbered-placeholders es small) refl

  sorted-Perm :
      (types l : List (ℕ × T))
      → numbered (placeholders types) ≡ l
      → Permᴰ (numbered (sort_by_number (placeholders types))) l
  sorted-Perm types l e = rw (← e) (numbered-Perm (sort_by_number-Perm (placeholders types)))

  -- For a map whose keys are placeholders, `$` and a printed number below 2 ^ 32, in any order,
  -- `ordered_param_types` gives the types of all its entries, each once, in ascending order of these
  -- numbers.
  pub ordered_param_types_lem :
      (types : List (ℕ × T))
      → All (λ e. e.0 < 2 ^ 32) types
      → (entries : List (ℕ × T)) × Permᴰ entries types
        × IsOrdered entries
        × (ordered_param_types (placeholders types) ≡ map (λ entry. entry.1) entries)
  unfolding ordered_param_types
  ordered_param_types_lem types small =
      let sorted = sort_by_number (placeholders types) in
      (
        numbered sorted,
        sorted-Perm types types (numbered-placeholders types small),
        numbered-IsOrdered sorted (sort_by_number-IsSorted (placeholders types)),
        types_numbered sorted,
      )
