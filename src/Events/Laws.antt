-- ===== src/Events/Laws.antt =====
-- The subjects that the decorators give.
use fastapi_claude_template.Prelude.{
  ℕ, String, ◌≡◌, refl, false, none, some, Option, is_empty, ◌<>◌, Dict, Bool-cases, inl, inr, sym,
}
use text.Mathlib.TextLemmas
use fastapi_claude_template.Events.{
  EventClass, base_event, given_or, new_event, update_subject, rebuild_broker_event,
  rebuild_stream_event,
}

update_subject-namespace :
    (subject namespace separator current : String)
    → is_empty namespace ≡ false
    → (rest : String) × (update_subject subject (some namespace) separator current
        ≡ namespace <> rest)
unfolding update_subject
update_subject-namespace subject namespace separator current h =
    elim (Bool-cases (is_empty current)) [
      | inl e ↦ ("", rw (h, e) (sym (TextLemmas.append-nil namespace)))
      | inr e ↦ (separator <> current, rw (h, e) refl)
    ]

-- Whatever the class and whatever subject is given, the subject of an instance starts with the
-- namespace of the outermost decorator.
pub rebuild-namespace :
    (subject namespace separator reply : String) (headers : Option (Dict String))
    (stream : Option String) (timeout : Option ℕ) (cls : EventClass) (own : Dict String)
    (given : Option String)
    → is_empty namespace ≡ false
    → ((rest : String) × ((new_event
            (rebuild_broker_event subject (some namespace) separator reply headers cls)
            own
            given).subject
          ≡ namespace <> rest))
      × ((rest : String) × ((new_event
              (rebuild_stream_event subject (some namespace) separator stream timeout headers cls)
              own
              given).subject
            ≡ namespace <> rest))
unfolding new_event rebuild_broker_event rebuild_stream_event
rebuild-namespace subject namespace separator reply headers stream timeout cls own given h =
    let current = cls.model_post_init (given_or subject given) in
    let found = update_subject-namespace subject namespace separator current h in (found, found)

-- When `BrokerEvent` is decorated with a subject and a namespace and then with another namespace
-- only, an instance that is given no subject has the two namespaces joined, the outer one first,
-- and the subject is gone.
pub rebuild_broker_event-twice :
    (subject inner_namespace outer_namespace separator : String) (own : Dict String)
    → is_empty inner_namespace ≡ false
    → is_empty outer_namespace ≡ false
    → (new_event
        (rebuild_broker_event ""
          (some outer_namespace)
          separator
          ""
          none
          (rebuild_broker_event subject (some inner_namespace) separator "" none base_event))
        own
        none).subject
      ≡ outer_namespace <> separator <> inner_namespace
unfolding new_event rebuild_broker_event update_subject
rebuild_broker_event-twice subject inner outer separator own hi ho = rw (hi, ho, hi) refl
