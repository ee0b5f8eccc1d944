-- ===== src/Bus/Events.antt =====
-- src/application/common/bus/event_bus.py: `EventBusImpl`. Classes go by their names: the direct
-- subclasses of `Event`, `issubclass`, and the argument of a broker's generic base are Python's.
pub mod Laws
use fastapi_claude_template.Prelude.{
  String, Bool, true, false, Option, none, some, List, [], ◌∷◌, ◌<>◌, if◌then◌else◌, Dict, lookup,
  insert,
}
use fastapi_claude_template.Errors.{key_error, type_error, value_error}
use fastapi_claude_template.Exec.{Exec, pure, raise, ◌>>=◌, ◌>>◌}

-- A broker of events `E`: its type argument, `none` for a type variable, its messages, and how it
-- builds and publishes them
pub record Broker (S E : Type 0) : Type 1 where
  pub event : Option String
  pub M : Type 0
  pub build_message : E → Exec S M
  pub publish : M → Exec S (Unit {0})

pub record Classes : Type 0 where
  -- `Event.__subclasses__()`
  pub subclasses : List String
  pub is_subclass : String → String → Bool

-- `_brokers_registry`
abbrev pub Registry : Type 0 → Type 0 → Type 1
Registry S E = Dict (Broker S E)

module _ {S E : Type 0} where
  abbrev pub resolve_event : {T : Type 0} → Broker S E → Exec T String
  resolve_event broker = elim broker.event [
    | none ↦ raise (type_error "Event type is a TypeVar")
    | some event ↦ pure event
  ]

  -- `builder().brokers(...).build()`, in the order that the set of brokers gives
  unfoldable pub build : {T : Type 0} → List (Broker S E) → Registry S E → Exec T (Registry S E)
  unfolding insert
  build [] registry = pure registry
  build (broker ∷ brokers) registry = do
    event ← resolve_event broker
    build brokers (insert event broker registry)

  -- `self._brokers_registry[event_subclass]`
  abbrev pub broker_or_raise : {T : Type 0} → String → Option (Broker S E) → Exec T (Broker S E)
  broker_or_raise name none = raise (key_error name)
  broker_or_raise name (some broker) = pure broker

  -- The loop of `_resolve_broker`
  abbrev pub first_subclass :
      {T : Type 0}
      → (String → String → Bool)
      → Registry S E
      → String
      → List String
      → Exec T (Broker S E)
  first_subclass is_subclass registry event [] = raise (value_error "Broker for event not found")
  first_subclass is_subclass registry event (c ∷ cs) =
      let rest = first_subclass is_subclass registry event cs in
      if is_subclass event c then broker_or_raise c (lookup c registry) else rest

  -- An event comes with the name of its class.
  unfoldable pub resolve_broker :
      {T : Type 0} → Classes → Registry S E → String → Exec T (Broker S E)
  unfolding lookup
  resolve_broker classes registry event =
      first_subclass classes.is_subclass registry event classes.subclasses

  unfoldable pub send : Classes → Registry S E → String → E → Exec S (Unit {0})
  unfolding resolve_broker
  send classes registry event message = do
    broker ← resolve_broker classes registry event
    built ← broker.build_message message
    broker.publish built

  -- `wrapper.execute(broker, message)`
  unfoldable pub send_wrapped :
      Classes → Registry S E → (Broker S E → E → Exec S (Unit {0})) → String → E → Exec S (Unit {0})
  unfolding resolve_broker
  send_wrapped classes registry execute event message = do
    broker ← resolve_broker classes registry event
    execute broker message
