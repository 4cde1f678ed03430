-- ===== src/Tick/Present.antt =====
-- agv.py: the current node is a node of the graph.
use vda5050_sim.Prelude.{
  ℕ, nat_eq, ◌≤◌, ◌<◌, Bool, true, not, ◌≡◌, inl, inr, ◌∙◌, subst, some, List, [], ◌∷◌, length, any,
  find, filter, arith, if_ind, Option-cases, ◌==◌, ltb, if◌then◌else◌, string_eq, some_inj,
}
use vda5050_sim.Schemas.{Node}
use vda5050_sim.Robot.{Agv}
use vda5050_sim.Movement.{current_node, first_node, least_node, find_node_by_seq}

module _ {ℓ} {A : Type ℓ} where
  pub length-filter : (p : A → Bool) (xs : List A) → length (filter p xs) ≤ length xs
  length-filter p [] = ground arith
  length-filter p (x ∷ xs) = ground (arith, length-filter p xs)

  -- An entry that is left out.
  pub length-filter_less :
      (p : A → Bool) (xs : List A)
      → any p xs ≡ true
      → length (filter (λ x. not (p x)) xs) < length xs
  length-filter_less p [] h = absurd (cc h)
  length-filter_less p (x ∷ xs) h =
      ground (arith, h, length-filter (λ x. not (p x)) xs, length-filter_less p xs)

module _ {R : Type 0} where
  abbrev pub has_seq : ℕ → List (Node R) → Bool
  has_seq seq ns = any (λ n. n.sequence_id == seq) ns

  has_seq-find :
      (seq : ℕ) (ns : List (Node R)) (node : Node R)
      → find (λ n. n.sequence_id == seq) ns ≡ some node
      → has_seq node.sequence_id ns ≡ true
  has_seq-find seq [] node e = absurd (cc e)
  has_seq-find seq (n ∷ ns) node e = ground (
    arith,
    e,
    nat_eq.beq_iff n.sequence_id seq,
    nat_eq.beq_iff n.sequence_id node.sequence_id,
    has_seq-find seq ns node,
  )

  has_seq-least_node :
      (n : Node R) (ns : List (Node R)) → has_seq (least_node n ns).sequence_id (n ∷ ns) ≡ true
  has_seq-least_node n [] = ground (arith, nat_eq.beq_iff n.sequence_id n.sequence_id)
  has_seq-least_node n (m ∷ ms) =
      if_ind
        (λ (b : Node R).
          has_seq (least_node b ms).sequence_id (b ∷ ms) ≡ true
          → has_seq (least_node b ms).sequence_id (n ∷ m ∷ ms) ≡ true)
        (ltb m.sequence_id n.sequence_id) (λ _ h. ground (arith, h)) (λ _ h. ground (arith, h))
        (has_seq-least_node (if ltb m.sequence_id n.sequence_id then m else n) ms)

  pub has_seq-current_node :
      (s : Agv R) (node : Node R)
      → current_node s ≡ some node
      → has_seq node.sequence_id s.nodes ≡ true
  unfolding current_node find_node_by_seq
  has_seq-current_node s node e = elim (Option-cases (find_node_by_seq s.last_node_sequence_id s)) [
    | inl absent ↦ from_first s.nodes (rw (absent, current_node) at e)
    | inr (n, found) ↦
        has_seq-find s.last_node_sequence_id s.nodes node (found ∙ rw (found, current_node) at e)
  ]
    where
      from_first :
          (ns : List (Node R)) → first_node ns ≡ some node → has_seq node.sequence_id ns ≡ true
      from_first [] f = absurd (cc f)
      from_first (n ∷ ns) f =
          subst (λ (m : Node R). has_seq m.sequence_id (n ∷ ns) ≡ true)
            (some_inj (least_node n ns) node f) (has_seq-least_node n ns)
