-- ===== src/Logs.antt =====
-- src/vda5050_sim/logbuffer.py: the ring buffer of log lines.
pub mod Window
use vda5050_sim.Prelude.{
  ℕ, zero, suc, ◌-◌, String, List, [], ◌∷◌, ◌++◌, length, map, nat_eq, ◌==◌, if◌then◌else◌,
}

pub record LogEntry (R : Type 0) : Type 0 where
  pub ts : R
  pub robot_id : String
  pub message : String

-- A deque with a bound; the oldest entry comes first.
pub record LogBuffer (R : Type 0) : Type 0 where
  pub entries : List (LogEntry R)
  pub maxlen : ℕ

module _ {A : Type 0} where
  abbrev pub drop : ℕ → List A → List A
  drop zero xs = xs
  drop (suc n) [] = []
  drop (suc n) (x ∷ xs) = drop n xs

  -- The last n entries, or all if there are fewer.
  abbrev pub last_n : ℕ → List A → List A
  last_n n xs = drop (length xs - n) xs

module _ {R : Type 0} where
  abbrev pub empty : ℕ → LogBuffer R
  empty maxlen = record { entries = []; maxlen = maxlen }

  -- Entries that exceed the bound fall out at the other end. `now` is `time.time()`.
  unfoldable pub add : R → String → String → LogBuffer R → LogBuffer R
  add now robot_id message b = record b {
    entries =
        last_n b.maxlen
          (b.entries ++ record { ts = now; robot_id = robot_id; message = message } ∷ []);
  }

  -- `list(self._entries)[-n:]`, which is the whole list for n = 0.
  unfoldable pub tail : ℕ → LogBuffer R → List (LogEntry R)
  tail n b = if n == 0 then b.entries else last_n n b.entries
