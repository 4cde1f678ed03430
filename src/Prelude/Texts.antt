-- ===== src/Prelude/Texts.antt =====
-- Python's str methods that the code calls on model names, versions and topic prefixes.
use Prim.Native.Nat.{ℕ}
use Prim.Native.Char.{Char, code}
use Prim.Native.String.{String, ◌++◌ as ◌<>◌}
use mathlib.Core.Option.{Option, none, some}
use mathlib.Core.List.{[], ◌∷◌}
use vda5050_sim.Prelude.Tests.{if◌then◌else◌}
use vda5050_sim.Prelude.Equality.{◌==◌, nat_eq}
use vda5050_sim.Prelude.Dicts.{Dict, lookup}

lower_letters : Dict ℕ String
lower_letters =
    (b'A', "a")
    ∷ (b'B', "b")
    ∷ (b'C', "c")
    ∷ (b'D', "d")
    ∷ (b'E', "e")
    ∷ (b'F', "f")
    ∷ (b'G', "g")
    ∷ (b'H', "h")
    ∷ (b'I', "i")
    ∷ (b'J', "j")
    ∷ (b'K', "k")
    ∷ (b'L', "l")
    ∷ (b'M', "m")
    ∷ (b'N', "n")
    ∷ (b'O', "o")
    ∷ (b'P', "p")
    ∷ (b'Q', "q")
    ∷ (b'R', "r")
    ∷ (b'S', "s")
    ∷ (b'T', "t")
    ∷ (b'U', "u")
    ∷ (b'V', "v")
    ∷ (b'W', "w")
    ∷ (b'X', "x")
    ∷ (b'Y', "y")
    ∷ (b'Z', "z")
    ∷ []

abbrev char_or : Char → Option String → String
char_or c none = String.◌∷◌ c String.[]
char_or c (some t) = t

-- text.lower(), for ASCII text
unfoldable pub lower : String → String
unfolding lower_letters
lower String.[] = String.[]
lower (String.◌∷◌ c s) = char_or c (lookup (code c) lower_letters) <> lower s

-- text.split(".", 1)[0]
unfoldable pub before_dot : String → String
before_dot String.[] = String.[]
before_dot (String.◌∷◌ c s) =
    let rest = before_dot s in if code c == b'.' then String.[] else String.◌∷◌ c rest

-- What is left of a text behind a prefix, where it starts with it.
abbrev pub strip_prefix : String → String → Option String
strip_prefix String.[] s = some s
strip_prefix (String.◌∷◌ c p) String.[] = none
strip_prefix (String.◌∷◌ c p) (String.◌∷◌ d s) =
    let rest = strip_prefix p s in if code c == code d then rest else none

abbrev replaced : String → Option String → String → String
replaced new none unchanged = unchanged
replaced new (some rest) unchanged = new <> rest

-- text.replace(old, new, 1), where old is not empty
unfoldable pub replace_first : String → String → String → String
replace_first old new String.[] = String.[]
replace_first old new (String.◌∷◌ c s) =
    let rest = replace_first old new s in
    replaced new (strip_prefix old (String.◌∷◌ c s)) (String.◌∷◌ c rest)
