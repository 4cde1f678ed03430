-- ===== src/Tick/Advances.antt =====
-- agv.py: the look at the graph, again and again.
use vda5050_sim.Prelude.{
  ℕ, nat_eq, suc, ◌+◌, ◌≤◌, ◌<◌, ◌≡◌, ◌⊎◌, inl, inr, ap, List, [], ◌∷◌, length, arith, ◌==◌,
  if◌then◌else◌, string_eq,
}
use vda5050_sim.Floats.{Float}
use vda5050_sim.Robot.{Agv, Graph}
use vda5050_sim.Tick.{traverse}
use vda5050_sim.Tick.Shrinks.{Shrinks, traverse-Shrinks}

module _ {R : Type 0} where
  shorter :
      (g h : Graph R)
      → Shrinks g h
      → ((length h.nodes ≡ length g.nodes) × (h.last_node_sequence_id ≡ g.last_node_sequence_id))
        ⊎ (length h.nodes < length g.nodes)
  shorter g h k = elim k.used [
    | inl same ↦ inl (ap length same.0, same.2)
    | inr fewer ↦ inr fewer.0
  ]

one_look :
    (last before after_last now rest later : ℕ)
    → rest + later ≤ now
    → ((now ≡ before) × (after_last ≡ last)) ⊎ (now < before)
    → (if after_last == last then rest else suc rest) + later ≤ before
one_look last before after_last now rest later h (inl (same, e)) =
    ground (arith, h, same, e, nat_eq.beq_iff after_last last)
one_look last before after_last now rest later h (inr less) =
    ground (arith, h, less, nat_eq.beq_iff after_last last)

module _ {R : Type 0} ⦃fl : Float R⦄ where
  -- One look after the other, and how many of them change the last node.
  abbrev pub looks : List R → Agv R → Agv R
  looks [] s = s
  looks (dt ∷ dts) s = looks dts (traverse dt s)

  abbrev pub advances : List R → Agv R → ℕ
  advances [] s = 0
  advances (dt ∷ dts) s =
      let t = traverse dt s in
      let rest = advances dts t in
      if t.last_node_sequence_id == s.last_node_sequence_id then rest else suc rest

  -- However often the robot looks at the graph of its order, it gets on to another last node at most as
  -- often as nodes go off the graph, so never more often than the graph has nodes.
  pub looks_end :
      (dts : List R) (s : Agv R) → advances dts s + length (looks dts s).nodes ≤ length s.nodes
  looks_end [] s = ground arith
  looks_end (dt ∷ dts) s =
      let t = traverse dt s in
      one_look s.last_node_sequence_id (length s.nodes) t.last_node_sequence_id (length t.nodes)
        (advances dts t) (length (looks dts t).nodes) (looks_end dts t)
        (shorter s.graph t.graph (traverse-Shrinks dt s))
