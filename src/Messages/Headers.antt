-- ===== src/Messages/Headers.antt =====
-- agv.py: the header ids of the messages that are built one after the other.
use vda5050_sim.Prelude.{
  ℕ, suc, ◌≡◌, refl, ap, subst, sym, if_ind, Bool-cases, inl, inr, false, ◌∙◌, String, string_eq,
  Option, some, List, [], ◌∷◌, lookup, lookup-insert, ◌==◌, if◌then◌else◌, length,
}
use vda5050_sim.Floats.{Float}
use vda5050_sim.Robot.{Agv}
use vda5050_sim.Battery.Bounds.{InRange}
use vda5050_sim.Specs.{build_factsheet}
use vda5050_sim.Messages.Counting.{counted, next_header_id-eq, build_state_message-eq}
use vda5050_sim.Messages.Calls.{
  Build, Message, kind, message_type, header_id, onto, build, build_all,
}
use vda5050_sim.Messages.Builders.{
  supplied, state_message, visualization_message, connection_message, factsheet_message,
  build_state_message, build_visualization_message, build_connection_message,
  build_factsheet_message,
}

-- The header ids of the messages of one type, in order.
abbrev pub ids : {R : Type 0} → String → List (Message R) → List ℕ
ids k [] = []
ids k (m ∷ ms) = let rest = ids k ms in if message_type m == k then header_id m ∷ rest else rest

-- n + 1, n + 2, …
abbrev pub IsConsecutive : ℕ → List ℕ → Type 0
IsConsecutive n [] = Unit
IsConsecutive n (i ∷ is) = (i ≡ suc n) × IsConsecutive i is

module _ {R : Type 0} ⦃fl : Float R⦄ (str : R → String) (now : String) where
  -- What one call of a builder does whose counter stands at `n`.
  pub record Counted (b : Build) (s : Agv R) (n : ℕ) : Type 0 where
    pub message : Message R
    pub built : (build str now b s).0 ≡ some message
    pub typed : message_type message ≡ kind b
    pub numbered : header_id message ≡ suc n
    pub counter :
        (k : String)
        → lookup k (build str now b s).1.header_ids
          ≡ (if kind b == k then some (suc n) else lookup k s.header_ids)
    pub charge : (build str now b s).1.battery_soc ≡ s.battery_soc

  Counted-of :
      (b : Build) (s r : Agv R) (n : ℕ) (m : Message R)
      → build str now b s ≡ (some m, counted (kind b) n r)
      → r.header_ids ≡ s.header_ids
      → r.battery_soc ≡ s.battery_soc
      → message_type m ≡ kind b
      → header_id m ≡ suc n
      → Counted b s n
  unfolding counted
  Counted-of b s r n m e same charge typed numbered = record {
    message = m;
    built = ap (λ p. p.0) e;
    typed = typed;
    numbered = numbered;
    counter = λ k.
        ap (λ (p : Option (Message R) × Agv R). lookup k p.1.header_ids) e
        ∙ lookup-insert (kind b) k (suc n) r.header_ids
        ∙ ap (λ d. if kind b == k then some (suc n) else lookup k d) same;
    charge = ap (λ (p : Option (Message R) × Agv R). p.1.battery_soc) e ∙ charge;
  }

  build-Counted :
      (b : Build) (s : Agv R) (n : ℕ)
      → InRange s.battery_soc
      → lookup (kind b) s.header_ids ≡ some n
      → Counted b s n
  unfolding build_state_message build_visualization_message build_connection_message
      build_factsheet_message state_message visualization_message connection_message
      factsheet_message build_factsheet counted
  build-Counted Build.state s n h e =
      let cleared = record s { mode = record s.mode { pending_errors = [] } } in
      Counted-of Build.state s cleared n
        (Message.state (
          state_message now (suc n) s.pending_errors (supplied s.battery_soc s.charging)
            (counted "state" n cleared)))
        (rw (build_state_message-eq now s n h e) refl) refl refl refl refl
  build-Counted (Build.visualization r) s n h e =
      Counted-of (Build.visualization r) s s n
        (Message.visualization (visualization_message now r (suc n) (counted "visualization" n s)))
        (rw (next_header_id-eq "visualization" s n e) refl) refl refl refl refl
  build-Counted (Build.connection c) s n h e =
      Counted-of (Build.connection c) s s n
        (Message.connection (connection_message now c (suc n) (counted "connection" n s)))
        (rw (next_header_id-eq "connection" s n e) refl) refl refl refl refl
  build-Counted Build.factsheet s n h e =
      Counted-of Build.factsheet s s n
        (Message.factsheet (factsheet_message str now (suc n) (counted "factsheet" n s)))
        (rw (next_header_id-eq "factsheet" s n e) refl) refl refl refl refl

  -- The four counters of `__init__`.
  abbrev pub HasCounters : Agv R → Type 0
  HasCounters s = (b : Build) → (n : ℕ) × (lookup (kind b) s.header_ids ≡ some n)

  charge-build :
      (b : Build) (s : Agv R)
      → InRange s.battery_soc
      → HasCounters s
      → InRange (build str now b s).1.battery_soc
  charge-build b s h counters =
      subst InRange (sym (build-Counted b s (counters b).0 h (counters b).1).charge) h

  build-HasCounters :
      (b : Build) (s : Agv R)
      → InRange s.battery_soc
      → HasCounters s
      → HasCounters (build str now b s).1
  build-HasCounters b s h counters c =
      let one = build-Counted b s (counters b).0 h (counters b).1 in
      elim (Bool-cases (kind b == kind c)) [
        | inl e ↦ (suc (counters b).0, rw (one.counter (kind c), e) refl)
        | inr e ↦ ((counters c).0, rw (one.counter (kind c), e) (counters c).1)
      ]

  -- The head of the ids of one more message.
  ids-onto :
      (k : String) (n : ℕ) (o : Option (Message R)) (m : Message R) (rest : List (Message R))
      → o ≡ some m
      → (message_type m ≡ k → (header_id m ≡ suc n) × IsConsecutive (suc n) (ids k rest))
      → ((message_type m == k) ≡ false → IsConsecutive n (ids k rest))
      → IsConsecutive n (ids k (onto o rest))
  ids-onto k n o m rest e same other = rw e (
      if_ind (IsConsecutive n) (message_type m == k)
        (λ t.
          let here = same ((string_eq.beq_iff (message_type m) k).0 t) in
          (here.0, rw here.0 here.1))
        other)

  length-onto :
      (o : Option (Message R)) (m : Message R) (rest : List (Message R))
      → o ≡ some m
      → length (onto o rest) ≡ suc (length rest)
  length-onto o m rest e = rw e refl

  length-build_all :
      (bs : List Build) (s : Agv R)
      → InRange s.battery_soc
      → HasCounters s
      → length (build_all str now bs s).0 ≡ length bs
  length-build_all [] s h counters = refl
  length-build_all (b ∷ bs) s h counters =
      let one = build-Counted b s (counters b).0 h (counters b).1 in
      length-onto (build str now b s).0 one.message (build_all str now bs (build str now b s).1).0
        one.built
      ∙ ap suc (
          length-build_all bs (build str now b s).1 (charge-build b s h counters)
            (build-HasCounters b s h counters))

  ids-IsConsecutive :
      (bs : List Build) (s : Agv R) (k : String) (n : ℕ)
      → InRange s.battery_soc
      → HasCounters s
      → lookup k s.header_ids ≡ some n
      → IsConsecutive n (ids k (build_all str now bs s).0)
  ids-IsConsecutive [] s k n h counters e = tt
  ids-IsConsecutive (b ∷ bs) s k n h counters e =
      let one = build-Counted b s (counters b).0 h (counters b).1 in
      let t = (build str now b s).1 in
      let in_range = charge-build b s h counters in
      let still = build-HasCounters b s h counters in
      ids-onto k n (build str now b s).0 one.message (build_all str now bs t).0 one.built
        (λ same.
          let mine : lookup (kind b) s.header_ids ≡ some n = rw (← one.typed, same) e in
          let named = (string_eq.beq_iff (kind b) k).1 (sym one.typed ∙ same) in
          let first = build-Counted b s n h mine in
          (
            cc (one.numbered, (counters b).1, mine),
            ids-IsConsecutive bs t k (suc n) in_range still (rw (first.counter k, named) refl),
          ))
        (λ other.
          ids-IsConsecutive bs t k n in_range still (rw (one.counter k, ← one.typed, other) e))

  -- When the charge is between 0 and 100 percent, every call of a builder gives a message, and the
  -- messages of each type are numbered one by one, from the number behind that of the last one.
  pub build_all-IsConsecutive :
      (bs : List Build) (s : Agv R) (k : String) (n : ℕ)
      → InRange s.battery_soc
      → HasCounters s
      → lookup k s.header_ids ≡ some n
      → (length (build_all str now bs s).0 ≡ length bs)
        × IsConsecutive n (ids k (build_all str now bs s).0)
  build_all-IsConsecutive bs s k n h counters e =
      (length-build_all bs s h counters, ids-IsConsecutive bs s k n h counters e)
