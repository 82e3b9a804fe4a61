-- ===== src/Prelude/Text.antt =====
-- The methods of `str` that cut texts at their ends: `trim_matches` by one character, and
-- `ends_with` and `trim_end_matches` by a text, through the reversed text.
use Prim.Native.Char.{Char, code}
use Prim.Native.String.{String}
use mathlib.Core.Bool.{Bool, true, false, ◌&&◌}
use datafusion_postgres.Prelude.Tests.{◌==◌, if◌then◌else◌}

unfoldable pub reverse_onto : String → String → String
reverse_onto String.[] out = out
reverse_onto (String.◌∷◌ c rest) out = reverse_onto rest (String.◌∷◌ c out)

unfoldable pub reverse : String → String
unfolding reverse_onto
reverse s = reverse_onto s ""

-- `trim_start_matches(c)`
unfoldable pub trim_start : Char → String → String
trim_start d String.[] = ""
trim_start d (String.◌∷◌ c rest) = if code c == code d then trim_start d rest else String.◌∷◌ c rest

-- `trim_matches(c)`
unfoldable pub trim : Char → String → String
unfolding trim_start reverse
trim d s = reverse (trim_start d (reverse (trim_start d s)))

-- The rest of a text after another, reversed both.
unfoldable pub begins : String → String → Bool
begins String.[] s = true
begins (String.◌∷◌ d rest) String.[] = false
begins (String.◌∷◌ d ds) (String.◌∷◌ c cs) = code c == code d && begins ds cs

unfoldable pub ends_with : String → String → Bool
unfolding begins reverse
ends_with s suffix = begins (reverse suffix) (reverse s)

-- `trim_end_matches` by one character and by two, on the reversed text.
unfoldable pub drop_pairs : Char → Char → String → String
drop_pairs d e String.[] = ""
drop_pairs d e (String.◌∷◌ b String.[]) = String.◌∷◌ b ""
drop_pairs d e (String.◌∷◌ b (String.◌∷◌ c rest)) =
    if code b == code d && code c == code e
    then drop_pairs d e rest
    else String.◌∷◌ b (String.◌∷◌ c rest)

unfoldable pub drop_triples : Char → Char → Char → String → String
drop_triples d e f String.[] = ""
drop_triples d e f (String.◌∷◌ a String.[]) = String.◌∷◌ a ""
drop_triples d e f (String.◌∷◌ a (String.◌∷◌ b String.[])) = String.◌∷◌ a (String.◌∷◌ b "")
drop_triples d e f (String.◌∷◌ a (String.◌∷◌ b (String.◌∷◌ c rest))) =
    if code a == code d && (code b == code e && code c == code f)
    then drop_triples d e f rest
    else String.◌∷◌ a (String.◌∷◌ b (String.◌∷◌ c rest))
