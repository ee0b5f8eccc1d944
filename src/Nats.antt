-- ===== src/Nats.antt =====
-- src/infrastructure/broker/nats: the brokers over the client of nats-py, which is a parameter with
-- msgpack's coding of an event; payloads are texts of bytes.
pub mod Laws
use fastapi_claude_template.Prelude.{
  ℕ, String, Bool, true, false, Option, none, some, List, [], ◌∷◌, is_empty, Dict,
}
use fastapi_claude_template.Exec.{Exec, pure}
use fastapi_claude_template.Events.{BrokerEvent}
use fastapi_claude_template.Bus.Events.{Broker}

pub record NatsMessage : Type 0 where
  pub subject : String
  pub payload : String
  pub reply : String
  pub headers : Dict String

pub record NatsJetStreamMessage : Type 0 where
  pub subject : String
  pub payload : String
  pub stream : Option String
  pub timeout : Option ℕ
  pub headers : Dict String

-- The calls of nats-py: `connect` with servers, user and password, `publish` with subject, payload,
-- reply and headers, and JetStream's `publish`; and `msgpack.packb` of the dump of an event without
-- its subject.
pub record NatsClient (S : Type 0) : Type 0 where
  pub connect : List String → Option String → Option String → Exec S (Unit {0})
  pub publish : String → String → String → Option (Dict String) → Exec S (Unit {0})
  pub js_publish :
      String → String → Option String → Option ℕ → Option (Dict String) → Exec S (Unit {0})
  pub packb : BrokerEvent → String

-- `headers or None`
abbrev pub or_none : Dict String → Option (Dict String)
or_none [] = none
or_none (h ∷ hs) = some (h ∷ hs)

-- `event._headers or {}`
abbrev pub headers_or_nil : Option (Dict String) → Dict String
headers_or_nil none = []
headers_or_nil (some headers) = headers

-- `text or None`
abbrev pub text_or_none : String → Option String
text_or_none s = elim (is_empty s) [ true ↦ none | false ↦ some s ]

module _ {S : Type 0} (nats : NatsClient S) where
  -- `encode_event`
  abbrev pub encode_event : BrokerEvent → String
  encode_event event = nats.packb event

  -- connection.py: `create_nats_connection`
  unfoldable pub create_nats_connection : List String → String → String → Exec S (Unit {0})
  create_nats_connection servers user password =
      nats.connect servers (text_or_none user) (text_or_none password)

  -- `NatsBroker`; what the dataclass `NatsMessage` is not given has its default.
  unfoldable pub build_message : BrokerEvent → NatsMessage
  build_message event = record {
    subject = event.subject;
    payload = encode_event event;
    reply = "";
    headers = headers_or_nil event.headers;
  }

  unfoldable pub publish : NatsMessage → Exec S (Unit {0})
  publish message =
      nats.publish message.subject message.payload message.reply (or_none message.headers)

  abbrev pub nats_broker : Broker S BrokerEvent
  nats_broker = record {
    event = some "BrokerEvent";
    M = NatsMessage;
    build_message = λ event. pure (build_message event);
    publish = publish;
  }

  -- `NatsJetStreamBroker`
  unfoldable pub build_stream_message : BrokerEvent → NatsJetStreamMessage
  build_stream_message event = record {
    subject = event.subject;
    payload = encode_event event;
    stream = event.stream;
    timeout = event.timeout;
    headers = headers_or_nil event.headers;
  }

  unfoldable pub publish_stream : NatsJetStreamMessage → Exec S (Unit {0})
  publish_stream message =
      nats.js_publish message.subject message.payload message.stream message.timeout
        (or_none message.headers)

  abbrev pub jet_stream_broker : Broker S BrokerEvent
  jet_stream_broker = record {
    event = some "StreamEvent";
    M = NatsJetStreamMessage;
    build_message = λ event. pure (build_stream_message event);
    publish = publish_stream;
  }
