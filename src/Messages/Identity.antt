-- ===== src/Messages/Identity.antt =====
-- agv.py and robot_specs.py: the sender that the header of a message names.
use vda5050_sim.Prelude.{
  some_inj, ℕ, String, string_eq, ◌≡◌, refl, ◌∙◌, sym, ap, subst, Option, none, some, arith,
}
use vda5050_sim.Floats.{Float}
use vda5050_sim.Robot.{Agv, Setup}
use vda5050_sim.Specs.{get_manufacturer, build_factsheet}
use vda5050_sim.Messages.Builders.{
  next_header_id, with_header, state_message, visualization_message, connection_message,
  factsheet_message, build_state_message, build_visualization_message, build_connection_message,
  build_factsheet_message,
}
use vda5050_sim.Messages.Calls.{Build, Message, build, labelled}

abbrev manufacturer_of : {R : Type 0} → Message R → String
manufacturer_of (Message.state m) = m.manufacturer
manufacturer_of (Message.visualization m) = m.manufacturer
manufacturer_of (Message.connection m) = m.manufacturer
manufacturer_of (Message.factsheet m) = m.manufacturer

abbrev serial_of : {R : Type 0} → Message R → String
serial_of (Message.state m) = m.serial_number
serial_of (Message.visualization m) = m.serial_number
serial_of (Message.connection m) = m.serial_number
serial_of (Message.factsheet m) = m.serial_number

module _ {R : Type 0} ⦃fl : Float R⦄ (str : R → String) (now : String) where
  factsheet-Identity :
      (o : Option ℕ × Agv R) (m : Message R)
      → (labelled Message.factsheet
          (with_header o (λ n t. (some (factsheet_message str now n t), t)))).0
        ≡ some m
      → (manufacturer_of m ≡ get_manufacturer R o.1.cfg.model) × (serial_of m ≡ o.1.serial_number)
  unfolding factsheet_message build_factsheet
  factsheet-Identity (none, t) m e = absurd (cc e)
  factsheet-Identity (some n, t) m e =
      subst
        (λ (w : Message R).
          (manufacturer_of w ≡ get_manufacturer R t.cfg.model) × (serial_of w ≡ t.serial_number))
        (some_inj (Message.factsheet (factsheet_message str now n t)) m e) (refl, refl)

  setup-next_header_id : (k : String) (s : Agv R) → (next_header_id k s).1.setup ≡ s.setup
  unfolding next_header_id
  setup-next_header_id k s = ground arith

  -- Every message names the robot as its sender, if the robot's manufacturer is the one that its model is known for:
  -- the factsheet takes the manufacturer from the model, and the other messages from the robot.
  pub build-Identity :
      (b : Build) (s : Agv R) (m : Message R)
      → s.manufacturer ≡ get_manufacturer R s.cfg.model
      → (build str now b s).0 ≡ some m
      → (manufacturer_of m ≡ s.manufacturer) × (serial_of m ≡ s.serial_number)
  unfolding build_state_message build_visualization_message build_connection_message
      build_factsheet_message next_header_id state_message visualization_message connection_message
  build-Identity Build.state s m h e = ground arith
  build-Identity (Build.visualization n) s m h e = ground arith
  build-Identity (Build.connection c) s m h e = ground arith
  build-Identity Build.factsheet s m h e =
      let (model, made) = factsheet-Identity (next_header_id "factsheet" s) m e in
      let kept = setup-next_header_id "factsheet" s in
      (
        model ∙ ap (λ (c : Setup R). get_manufacturer R c.cfg.model) kept ∙ sym h,
        made ∙ ap (λ (c : Setup R). c.serial_number) kept,
      )
