-- ===== src/Tests/LogTests.antt =====
-- The log: two entries too many for a buffer of two.
use vda5050_sim.Prelude.{ℕ, String, List, [], ◌∷◌, ◌≡◌, arith}
use vda5050_sim.Floats.Thousandths.{ℤ, pos}
use vda5050_sim.Logs.{LogEntry, empty, last_n, tail}
use vda5050_sim.Logs.Window.{add_all, tail-add_all}

abbrev line : ℕ → String → LogEntry ℤ
line ts message = record { ts = pos ts; robot_id = "r1"; message = message }

abbrev lines : List (LogEntry ℤ)
lines = line 1 "order accepted" ∷ line 2 "arrived" ∷ line 3 "paused" ∷ line 4 "resumed" ∷ []

tail-add_all_example : tail 1 (add_all lines (empty 2)) ≡ last_n 1 lines
tail-add_all_example = tail-add_all 1 2 lines (omega arith) (omega arith)
