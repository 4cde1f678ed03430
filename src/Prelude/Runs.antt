-- ===== src/Prelude/Runs.antt =====
-- A statement that mutates the object and may raise. What it wrote before the exception stays.

pub data Run (S : Type 0) : Type 0 where
  done : S → Run S
  raised : S → Run S

infixl 5 ◌>>=◌
abbrev pub ◌>>=◌ : {S : Type 0} → Run S → (S → Run S) → Run S
done s >>= f = f s
raised s >>= f = raised s

-- The object as the statement left it, whether or not it raised.
abbrev pub after : {S : Type 0} → Run S → S
after (done s) = s
after (raised s) = s
