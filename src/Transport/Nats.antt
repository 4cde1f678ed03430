-- ===== src/Transport/Nats.antt =====
-- transport.py: `NatsTransport`, one connection for the whole fleet. The calls of the client library are
-- kept as a list, the last one first; they are taken to succeed.
use vda5050_sim.Prelude.{
  String, string_eq, ◌<>◌, Bool, true, Option, none, some, List, ◌∷◌, Dict, ◌==◌, if◌then◌else◌,
}
use vda5050_sim.Messages.{Message}
use vda5050_sim.Wire.{Json, ◌>>=◌}
use vda5050_sim.Transport.Payload.{dump, Handler}

pub data NatsCall (R S : Type 0) : Type 0 where
  opened : (server : String) → NatsCall R S
  published : (subject : String) → (payload : Dict String (Json R)) → NatsCall R S
  subscribed : (subject : String) → (callback : Handler R S) → NatsCall R S
  unsubscribed : (subject : String) → NatsCall R S
  drained : NatsCall R S

pub record NatsTransport (R S : Type 0) : Type 0 where
  pub nats_url : String
  pub prefix : String
  pub connected : Bool
  pub calls : List (NatsCall R S)

-- `prefix or self.prefix`
abbrev pub prefix_or : Option String → String → String
prefix_or none own = own
prefix_or (some p) own = if p == "" then own else p

module _ {R S : Type 0} where
  unfoldable pub subject : NatsTransport R S → Option String → String → String → String → String
  subject t prefix manufacturer serial_number message_type =
      prefix_or prefix t.prefix
      <> "."
      <> manufacturer
      <> "."
      <> serial_number
      <> "."
      <> message_type

  unfoldable pub nats_connect : NatsTransport R S → NatsTransport R S
  nats_connect t = record t { connected = true; calls = NatsCall.opened t.nats_url ∷ t.calls }

  unfoldable pub nats_close : NatsTransport R S → NatsTransport R S
  nats_close t = if t.connected then record t { calls = NatsCall.drained ∷ t.calls } else t

  unfoldable pub nats_publish :
      (Message R → Dict String (Json R))
      → String
      → String
      → String
      → Message R
      → String
      → Option String
      → NatsTransport R S
      → Option (NatsTransport R S)
  unfolding subject dump
  nats_publish model_dump manufacturer serial_number message_type model version version_prefix t =
      if t.connected
      then dump model_dump model message_type version >>= (λ payload. some (record t {
        calls =
            NatsCall.published (subject t version_prefix manufacturer serial_number message_type)
              payload
            ∷ t.calls;
      }))
      else none

  abbrev handled_type : Handler R S → String
  handled_type (Handler.order h) = "order"
  handled_type (Handler.instant_actions h) = "instantActions"
  handled_type (Handler.zone_set h) = "zoneSet"
  handled_type (Handler.responses h) = "responses"

  -- The four subscribe methods. The callback of a subscription runs its handler on each message.
  unfoldable pub nats_subscribe :
      String → String → Handler R S → Option String → NatsTransport R S → Option (NatsTransport R S)
  unfolding subject
  nats_subscribe manufacturer serial_number handler version_prefix t =
      if t.connected
      then some (record t {
        calls =
            NatsCall.subscribed
              (subject t version_prefix manufacturer serial_number (handled_type handler)) handler
            ∷ t.calls;
      })
      else none

  -- `_NatsSubscription.unsubscribe`, of the subscription of a subject.
  unfoldable pub nats_unsubscribe : String → NatsTransport R S → NatsTransport R S
  nats_unsubscribe subject t = record t { calls = NatsCall.unsubscribed subject ∷ t.calls }
