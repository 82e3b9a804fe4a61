-- ===== src/Prelude/Trim.antt =====
-- The methods of `str` that cut texts by a test of characters: `trim_matches`, `trim`, and `split`
-- at commas.
pub mod Kept
use Prim.Native.Char.{Char, code}
use Prim.Native.Nat.{ℕ}
use Prim.Native.String.{String}
use mathlib.Core.Bool.{Bool, true, false, not, ◌&&◌, ◌||◌}
use mathlib.Core.List.{List, [], ◌∷◌}
use datafusion_postgres.Prelude.Tests.{leb, ◌==◌, str_eq, if◌then◌else◌}
use datafusion_postgres.Prelude.Text.{reverse}

unfoldable pub trim_start_by : (Char → Bool) → String → String
trim_start_by test String.[] = ""
trim_start_by test (String.◌∷◌ c rest) =
    if test c then trim_start_by test rest else String.◌∷◌ c rest

-- `trim_matches(test)`
unfoldable pub trim_by : (Char → Bool) → String → String
unfolding trim_start_by reverse
trim_by test s = reverse (trim_start_by test (reverse (trim_start_by test s)))

-- `char::is_whitespace`, which is the property `White_Space` of Unicode.
abbrev pub is_whitespace : Char → Bool
is_whitespace c =
    (leb 9 (code c) && leb (code c) 13)
    || (code c == b' '
        || (code c == 133
            || (code c == 160
                || (code c == 5760
                    || ((leb 8192 (code c) && leb (code c) 8202)
                        || (code c == 8232
                            || (code c == 8233
                                || (code c == 8239 || (code c == 8287 || code c == 12288)))))))))

-- `str::trim`
unfoldable pub trim_whitespace : String → String
unfolding trim_by
trim_whitespace = trim_by is_whitespace

-- `c == '{' || c == '}' || c == ' '`
abbrev pub is_brace_or_space : Char → Bool
is_brace_or_space c = code c == b'{' || (code c == b'}' || code c == b' ')

abbrev pub onto_first : Char → List String → List String
onto_first c [] = String.◌∷◌ c "" ∷ []
onto_first c (part ∷ parts) = String.◌∷◌ c part ∷ parts

-- `split(',')`, which gives at least one part
unfoldable pub split_commas : String → List String
split_commas String.[] = "" ∷ []
split_commas (String.◌∷◌ c rest) =
    let parts = split_commas rest in if code c == b',' then "" ∷ parts else onto_first c parts
