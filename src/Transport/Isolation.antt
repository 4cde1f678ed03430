-- ===== src/Transport/Isolation.antt =====
-- transport.py: `_topic` and `_subject`, for robots whose names have no separator in them.
use Prim.Native.Char.{Char, code}
use vda5050_sim.Prelude.{
  String, ◌<>◌, ℕ, Bool, false, ◌||◌, ◌≡◌, refl, ap, ◌∙◌, sym, Option, Eq, nat_eq, ◌==◌, arith,
}
use vda5050_sim.Transport.Mqtt.{MqttTransport, topic}
use vda5050_sim.Transport.Nats.{NatsTransport, subject, prefix_or}
use text.Mathlib.TextLemmas.{
  nil-append, cons-append, append_cancel_left, head-eq_of_cons-eq, tail-eq_of_cons-eq,
}

-- Whether a character with this code is in the text.
abbrev pub has_code : ℕ → String → Bool
has_code n String.[] = false
has_code n (String.◌∷◌ c s) = code c == n || has_code n s

-- A text without a separator, in front of one, is read back.
split_sep :
    (c : Char) (m n r s : String)
    → has_code (code c) m ≡ false
    → has_code (code c) n ≡ false
    → m <> (String.◌∷◌ c r) ≡ n <> (String.◌∷◌ c s)
    → (m ≡ n) × (r ≡ s)
split_sep c String.[] String.[] r s hm hn e =
    (refl, tail-eq_of_cons-eq (append_cancel_left "" _ _ e))
split_sep c String.[] (String.◌∷◌ d n) r s hm hn e =
    let same = head-eq_of_cons-eq (sym (nil-append _) ∙ e ∙ cons-append d n _) in
    absurd (ground (arith, hn, Eq.beq_iff nat_eq (code d) (code c), ap code same))
split_sep c (String.◌∷◌ d m) String.[] r s hm hn e =
    let same = head-eq_of_cons-eq (sym (nil-append _) ∙ sym e ∙ cons-append d m _) in
    absurd (ground (arith, hm, Eq.beq_iff nat_eq (code d) (code c), ap code same))
split_sep c (String.◌∷◌ d m) (String.◌∷◌ f n) r s hm hn e =
    let both = sym (cons-append d m _) ∙ e ∙ cons-append f n _ in
    let rest =
      split_sep c m n r s (ground (arith, hm)) (ground (arith, hn)) (tail-eq_of_cons-eq both) in
    ((λ i. String.◌∷◌ (head-eq_of_cons-eq both i) (rest.0 i)), rest.1)

one_char : (c : Char) (s : String) → (String.◌∷◌ c "") <> s ≡ String.◌∷◌ c s
one_char c s = cons-append c "" s ∙ ap (λ (t : String). String.◌∷◌ c t) (nil-append s)

-- The two names of a topic, behind the prefix.
split_names :
    (c : Char) (m n r s a b : String)
    → has_code (code c) m ≡ false
    → has_code (code c) n ≡ false
    → has_code (code c) r ≡ false
    → has_code (code c) s ≡ false
    → let sep = String.◌∷◌ c "" in
      sep <> m <> sep <> r <> sep <> a ≡ sep <> n <> sep <> s <> sep <> b
      → (m ≡ n) × (r ≡ s) × (a ≡ b)
split_names c m n r s a b hm hn hr hs e =
    let one =
      split_sep c m n (r <> (String.◌∷◌ c a)) (s <> (String.◌∷◌ c b)) hm hn
        (simp one_char at (append_cancel_left (String.◌∷◌ c "") _ _ e)) in
    let two = split_sep c r s a b hr hs one.1 in (one.0, two.0, two.1)

abbrev pub HasNo : Char → String → Type 0
HasNo c s = has_code (code c) s ≡ false

-- Two MQTT transports under one prefix, for robots whose manufacturers and serial numbers have no
-- slash in them, use a topic in common only if the robots have the same manufacturer and serial number,
-- and then for messages of the same type.
pub topic-inj :
    {R S : Type 0} (t u : MqttTransport R S) (a b : String)
    → t.topic_prefix ≡ u.topic_prefix
    → HasNo "/" t.manufacturer
    → HasNo "/" u.manufacturer
    → HasNo "/" t.serial_number
    → HasNo "/" u.serial_number
    → topic t a ≡ topic u b
    → (t.manufacturer ≡ u.manufacturer) × (t.serial_number ≡ u.serial_number) × (a ≡ b)
unfolding topic
topic-inj t u a b prefix tm um ts us e =
    split_names "/" t.manufacturer u.manufacturer t.serial_number u.serial_number a b tm um ts us (
      append_cancel_left t.topic_prefix _ _ (
        e
        ∙ ap (λ (p : String). p <> "/" <> u.manufacturer <> "/" <> u.serial_number <> "/" <> b)
            (sym prefix)))

-- On a NATS transport and under one prefix, robots whose manufacturers and serial numbers have no dot in
-- them use a subject in common only if they have the same manufacturer and serial number, and then
-- for messages of the same type.
pub subject-inj :
    {R S : Type 0} (t : NatsTransport R S) (p : Option String) (m n r s a b : String)
    → HasNo "." m
    → HasNo "." n
    → HasNo "." r
    → HasNo "." s
    → subject t p m r a ≡ subject t p n s b
    → (m ≡ n) × (r ≡ s) × (a ≡ b)
unfolding subject
subject-inj t p m n r s a b hm hn hr hs e =
    split_names "." m n r s a b hm hn hr hs (append_cancel_left (prefix_or p t.prefix) _ _ e)
