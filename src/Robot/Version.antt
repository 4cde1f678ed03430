-- ===== src/Robot/Version.antt =====
-- agv.py: `_version_tuple` and `LEGACY_UNSUPPORTED_ACTIONS`.
use Prim.Native.Char.{code}
use vda5050_sim.Prelude.{
  show_number, ◌<>◌, ℕ, ◌+◌, ◌-◌, ◌*◌, String, Bool, true, false, ◌&&◌, ◌||◌, List, [], ◌∷◌, ltb,
  leb, ◌==◌, nat_eq, if◌then◌else◌, Dict,
}

abbrev codes : String → List ℕ
codes String.[] = []
codes (String.◌∷◌ c s) = code c ∷ codes s

-- Puts a character in front of the first part.
abbrev onto_first : ℕ → List (List ℕ) → List (List ℕ)
onto_first c [] = (c ∷ []) ∷ []
onto_first c (part ∷ parts) = (c ∷ part) ∷ parts

-- text.split(".")
split_dots : List ℕ → List (List ℕ)
split_dots [] = [] ∷ []
split_dots (c ∷ cs) =
    let parts = split_dots cs in if c == b'.' then [] ∷ parts else onto_first c parts

all_digits : List ℕ → Bool
all_digits [] = true
all_digits (c ∷ cs) = leb b'0' c && leb c b'9' && all_digits cs

-- text.isdigit(), for ASCII text
is_digit : List ℕ → Bool
unfolding all_digits
is_digit [] = false
is_digit (c ∷ cs) = all_digits (c ∷ cs)

int_from : ℕ → List ℕ → ℕ
int_from acc [] = acc
int_from acc (c ∷ cs) = int_from (acc * 10 + (c - b'0')) cs

number_or : List ℕ → ℕ → ℕ
unfolding is_digit int_from
number_or part d = if is_digit part then int_from 0 part else d

parts_tuple : List (List ℕ) → ℕ × ℕ
unfolding number_or
parts_tuple [] = (3, 0)
parts_tuple (major ∷ []) = (number_or major 3, 0)
parts_tuple (major ∷ minor ∷ rest) = (number_or major 3, number_or minor 0)

unfoldable pub version_tuple : String → ℕ × ℕ
unfolding split_dots parts_tuple
version_tuple version = parts_tuple (split_dots (codes version))

-- Python's `<` on pairs of integers.
abbrev pub lt_version : ℕ × ℕ → ℕ × ℕ → Bool
lt_version (a, b) (c, d) = ltb a c || (a == c && ltb b d)

unfoldable pub legacy_unsupported_actions : Dict String (ℕ × ℕ)
legacy_unsupported_actions =
    ("downloadZoneSet", (3, 0))
    ∷ ("enableZoneSet", (3, 0))
    ∷ ("deleteZoneSet", (3, 0))
    ∷ ("updateCertificate", (3, 0))
    ∷ ("trigger", (3, 0))
    ∷ ("downloadMap", (2, 1))
    ∷ ("enableMap", (2, 1))
    ∷ ("deleteMap", (2, 1))
    ∷ []

unfoldable pub show_version : ℕ × ℕ → String
show_version v = show_number v.0 <> "." <> show_number v.1 <> ".0"
