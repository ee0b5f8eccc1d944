-- ===== src/Events.antt =====
-- src/application/common/events/broker.py: `BrokerEvent`, `StreamEvent` and the decorators that
-- rebuild them. Headers are a dictionary of texts, and a class is what its instances start with.
pub mod Laws
use fastapi_claude_template.Prelude.{
  ℕ, String, Bool, true, false, not, ◌&&◌, Option, none, some, is_empty, ◌<>◌, if◌then◌else◌, Dict,
}

-- An instance, with the timeout in microseconds
pub record BrokerEvent : Type 0 where
  pub subject : String
  pub reply : String
  pub headers : Option (Dict String)
  pub stream : Option String
  pub timeout : Option ℕ
  -- what the fields hold that a class of events adds
  pub own : Dict String

-- A class of events: the defaults of its fields and its `model_post_init` on the subject. A
-- `BrokerEvent` has neither stream nor timeout.
pub record EventClass : Type 0 where
  pub subject : String
  pub reply : String
  pub headers : Option (Dict String)
  pub stream : Option String
  pub timeout : Option ℕ
  pub model_post_init : String → String

-- `BrokerEvent` and `StreamEvent` themselves
abbrev pub base_event : EventClass
base_event = record {
  subject = "";
  reply = "";
  headers = none;
  stream = none;
  timeout = none;
  model_post_init = λ subject. subject;
}

abbrev pub given_or : {A : Type 0} → A → Option A → A
given_or default none = default
given_or default (some a) = a

-- `x` if it is not `None`, and what the class had
abbrev pub or_inherited : {A : Type 0} → Option A → Option A → Option A
or_inherited inherited none = inherited
or_inherited inherited (some a) = some a

-- `cls(subject=..., ...)` with the data of the class's own fields
unfoldable pub new_event : EventClass → Dict String → Option String → BrokerEvent
new_event cls own subject = record {
  subject = cls.model_post_init (given_or cls.subject subject);
  reply = cls.reply;
  headers = cls.headers;
  stream = cls.stream;
  timeout = cls.timeout;
  own = own;
}

-- The `if` of `model_post_init`
unfoldable pub update_subject : String → Option String → String → String → String
update_subject subject subject_namespace separator current =
    if not (is_empty (given_or "" subject_namespace))
    then (if not (is_empty current)
        then given_or "" subject_namespace <> separator <> current
        else given_or "" subject_namespace)
    else if is_empty current && not (is_empty subject)
    then subject
    else current

unfoldable pub rebuild_broker_event :
    String → Option String → String → String → Option (Dict String) → EventClass → EventClass
unfolding update_subject
rebuild_broker_event subject subject_namespace separator reply headers cls = record cls {
  subject = subject;
  reply = reply;
  headers = or_inherited cls.headers headers;
  model_post_init =
      λ current. update_subject subject subject_namespace separator (cls.model_post_init current);
}

unfoldable pub rebuild_stream_event :
    String
    → Option String
    → String
    → Option String
    → Option ℕ
    → Option (Dict String)
    → EventClass
    → EventClass
unfolding update_subject
rebuild_stream_event subject subject_namespace separator stream timeout headers cls = record cls {
  subject = subject;
  stream = or_inherited cls.stream stream;
  timeout = or_inherited cls.timeout timeout;
  headers = or_inherited cls.headers headers;
  model_post_init =
      λ current. update_subject subject subject_namespace separator (cls.model_post_init current);
}
