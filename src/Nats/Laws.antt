-- ===== src/Nats/Laws.antt =====
-- What the brokers of NATS publish of an event, also through the event bus.
use fastapi_claude_template.Prelude.{String, ◌≡◌, refl, sym, ap, true, [], ◌∷◌, lookup, insert}
use fastapi_claude_template.Exec.{ok}
use fastapi_claude_template.Exec.Laws.{ok_path}
use fastapi_claude_template.Events.{BrokerEvent}
use fastapi_claude_template.Bus.Events.{Classes, Registry, build, send, resolve_broker}
use fastapi_claude_template.Nats.{
  NatsClient, nats_broker, jet_stream_broker, build_message, publish, headers_or_nil, or_none,
}

module _ {S : Type 0} (nats : NatsClient S) where
  -- The registry of both brokers
  abbrev pub both : Registry S BrokerEvent
  both = ("BrokerEvent", nats_broker nats) ∷ ("StreamEvent", jet_stream_broker nats) ∷ []

  -- With both brokers in the registry, and `BrokerEvent` as the only direct subclass of `Event`, an
  -- event whose class descends from `BrokerEvent`, whatever else it descends from, goes out as a
  -- plain message: with its subject, payload and headers, with an empty reply, and without its
  -- stream and timeout.
  pub send-plain :
      {T : Type 0} (classes : Classes) (event : String) (message : BrokerEvent)
      (registry : Registry S BrokerEvent) (t t' : T) (s : S)
      → build (nats_broker nats ∷ jet_stream_broker nats ∷ []) [] t ≡ (ok registry, t')
      → classes.subclasses ≡ "BrokerEvent" ∷ []
      → classes.is_subclass event "BrokerEvent" ≡ true
      → send classes registry event message s
        ≡ nats.publish message.subject
            (nats.packb message)
            ""
            (or_none (headers_or_nil message.headers))
            s
  unfolding send resolve_broker build lookup insert publish build_message
  send-plain classes event message registry t t' s h e is_broker =
      rw (e, is_broker, sym (ok_path (ap (λ x. x.0) h))) refl
