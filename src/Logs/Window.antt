-- ===== src/Logs/Window.antt =====
-- logbuffer.py: the buffer as a window on everything that was logged.
use vda5050_sim.Prelude.{
  ℕ, zero, suc, ◌+◌, ◌-◌, ◌≤◌, ◌<◌, ◌≡◌, refl, ◌∙◌, sym, ap, List, [], ◌∷◌, ◌++◌, length, nat_eq,
  arith, subst,
}
use mathlib.Core.List.{append_assoc, append-nil}
use vda5050_sim.Logs.{LogEntry, LogBuffer, drop, last_n, empty, add, tail}

zero_add : (m : ℕ) → 0 + m ≡ m
zero_add m = omega arith

module _ {A : Type 0} where
  drop-append : (n : ℕ) (xs ys : List A) → n ≤ length xs → drop n (xs ++ ys) ≡ drop n xs ++ ys
  drop-append zero xs ys h = refl
  drop-append (suc n) [] ys h = ground arith
  drop-append (suc n) (x ∷ xs) ys h = drop-append n xs ys (ground arith)

  drop-nil : (n : ℕ) → drop {A = A} n [] ≡ []
  drop-nil zero = refl
  drop-nil (suc n) = refl

  drop-drop : (m n k : ℕ) (xs : List A) → k ≡ n + m → drop m (drop n xs) ≡ drop k xs
  drop-drop m zero k xs e = ap (λ i. drop i xs) (sym (e ∙ zero_add m))
  drop-drop m (suc n) k [] e = drop-nil m ∙ sym (drop-nil k)
  drop-drop m (suc n) zero (x ∷ xs) e = ground arith
  drop-drop m (suc n) (suc k) (x ∷ xs) e = drop-drop m n k xs (ground arith)

  length-drop : (n : ℕ) (xs : List A) → length (drop n xs) ≡ length xs - n
  length-drop zero xs = ground arith
  length-drop (suc n) [] = ground arith
  length-drop (suc n) (x ∷ xs) = length-drop n xs ∙ ground arith

  length-snoc : (xs : List A) (y : A) → length (xs ++ y ∷ []) ≡ suc (length xs)
  length-snoc [] y = refl
  length-snoc (x ∷ xs) y = ap suc (length-snoc xs y)

  -- The window after one more entry, from the window before.
  last_n-snoc :
      (k : ℕ) (xs : List A) (y : A) → last_n k (last_n k xs ++ y ∷ []) ≡ last_n k (xs ++ y ∷ [])
  last_n-snoc k xs y =
      let d = length xs - k in
      let shorter : length (drop d xs ++ y ∷ []) ≡ suc (length xs - d) =
        length-snoc (drop d xs) y ∙ ap suc (length-drop d xs) in
      ap (λ zs. drop (length (drop d xs ++ y ∷ []) - k) zs)
        (sym (drop-append d xs (y ∷ []) (omega arith)))
      ∙ drop-drop (length (drop d xs ++ y ∷ []) - k) d (length (xs ++ y ∷ []) - k) (xs ++ y ∷ [])
          (ground (arith, shorter, length-snoc xs y))

  last_n-last_n : (n k : ℕ) (xs : List A) → n ≤ k → last_n n (last_n k xs) ≡ last_n n xs
  last_n-last_n n k xs h =
      drop-drop (length (last_n k xs) - n) (length xs - k) (length xs - n) xs
        (ground (arith, length-drop (length xs - k) xs))

module _ {R : Type 0} where
  -- `add` once for each entry.
  unfoldable pub add_all : List (LogEntry R) → LogBuffer R → LogBuffer R
  add_all [] b = b
  add_all (e ∷ es) b = add_all es (add e.ts e.robot_id e.message b)

  -- The buffer after `past`.
  abbrev Window : List (LogEntry R) → LogBuffer R → Type 0
  Window past b = b.entries ≡ last_n b.maxlen past

  maxlen-add_all : (es : List (LogEntry R)) (b : LogBuffer R) → (add_all es b).maxlen ≡ b.maxlen
  unfolding add_all add
  maxlen-add_all [] b = refl
  maxlen-add_all (e ∷ es) b = maxlen-add_all es (add e.ts e.robot_id e.message b)

  add_all-Window :
      (past es : List (LogEntry R)) (b : LogBuffer R)
      → Window past b
      → Window (past ++ es) (add_all es b)
  unfolding add_all add
  add_all-Window past [] b h = h ∙ ap (last_n b.maxlen) (sym (append-nil past))
  add_all-Window past (e ∷ es) b h =
      subst (λ zs. Window zs (add_all es (add e.ts e.robot_id e.message b)))
        (append_assoc past (e ∷ []) es)
        (add_all-Window (past ++ e ∷ []) es (add e.ts e.robot_id e.message b)
          (ap (λ zs. last_n b.maxlen (zs ++ e ∷ [])) h ∙ last_n-snoc b.maxlen past e))

  -- A new buffer that got the entries `es` answers `tail(n)`, for n from 1 to its bound, with the
  -- last n of them, or with all if there are fewer.
  pub tail-add_all :
      (n maxlen : ℕ) (es : List (LogEntry R))
      → 0 < n
      → n ≤ maxlen
      → tail n (add_all es (empty maxlen)) ≡ last_n n es
  unfolding tail
  tail-add_all n maxlen es some_n fits =
      let b = add_all es (empty maxlen) in
      let window : b.entries ≡ last_n maxlen es =
        add_all-Window [] es (empty maxlen) (sym (drop-nil (0 - maxlen)))
        ∙ ap (λ k. last_n k es) (maxlen-add_all es (empty maxlen)) in
      ground (arith) ∙ ap (last_n n) window ∙ last_n-last_n n maxlen es fits
