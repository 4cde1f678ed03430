-- ===== src/Prelude/Numbers.antt =====
-- Python's str(n) for a natural number. Each round takes a digit off, so n + 1 rounds are enough.
use Prim.Native.Nat.{ℕ, zero, suc, ◌+◌, ◌/◌, ◌%◌}
use Prim.Native.String.{String, ◌++◌ as ◌<>◌}
use mathlib.Core.List.{List, [], ◌∷◌}
use vda5050_sim.Prelude.Tests.{if◌then◌else◌, ltb}

digit_texts : List String
digit_texts = "0" ∷ "1" ∷ "2" ∷ "3" ∷ "4" ∷ "5" ∷ "6" ∷ "7" ∷ "8" ∷ "9" ∷ []

nth_text : List String → ℕ → String
nth_text [] n = ""
nth_text (t ∷ ts) zero = t
nth_text (t ∷ ts) (suc n) = nth_text ts n

show_digits : ℕ → ℕ → String
unfolding nth_text digit_texts
show_digits zero n = ""
show_digits (suc fuel) n =
    let last = nth_text digit_texts (n % 10) in
    let front = show_digits fuel (n / 10) in if ltb n 10 then last else front <> last

unfoldable pub show_number : ℕ → String
unfolding show_digits
show_number n = show_digits (n + 1) n
