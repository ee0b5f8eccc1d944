-- ===== src/Bus/Events/Laws.antt =====
-- Which broker an event goes to.
use fastapi_claude_template.Prelude.{
  String, ◌≡◌, refl, true, false, none, some, List, [], ◌∷◌, ◌++◌, All, lookup,
}
use fastapi_claude_template.Errors.{key_error}
use fastapi_claude_template.Exec.{err, ◌>>=◌}
use fastapi_claude_template.Bus.Events.{
  Broker, Classes, Registry, first_subclass, resolve_broker, send,
}

module _ {S E : Type 0} (classes : Classes) (registry : Registry S E) (event : String) where
  abbrev pub IsOther : String → Type 0
  IsOther c = classes.is_subclass event c ≡ false

  first_subclass-append :
      {T : Type 0} (before cs : List String) (s : T)
      → All IsOther before
      → first_subclass classes.is_subclass registry event (before ++ cs) s
        ≡ first_subclass classes.is_subclass registry event cs s
  first_subclass-append [] cs s h = refl
  first_subclass-append (b ∷ before) cs s h = rw h.0 (first_subclass-append before cs s h.1)

  -- An event is built and published by the broker of the first direct subclass of `Event` that its
  -- class descends from.
  pub send-registered :
      (before after : List String) (c : String) (broker : Broker S E) (message : E) (s : S)
      → classes.subclasses ≡ before ++ (c ∷ after)
      → All IsOther before
      → classes.is_subclass event c ≡ true
      → lookup c registry ≡ some broker
      → send classes registry event message s ≡ (broker.build_message message >>= broker.publish) s
  unfolding send resolve_broker
  send-registered before after c broker message s e others is_c found =
      rw (e, first_subclass-append before (c ∷ after) s others, is_c, found) refl

  -- Without a broker for that subclass, whatever the brokers of the others, a KeyError of its name is
  -- raised; the ValueError comes only when the class descends from none of them.
  pub send-unregistered :
      (before after : List String) (c : String) (message : E) (s : S)
      → classes.subclasses ≡ before ++ (c ∷ after)
      → All IsOther before
      → classes.is_subclass event c ≡ true
      → lookup c registry ≡ none
      → send classes registry event message s ≡ (err (key_error c), s)
  unfolding send resolve_broker
  send-unregistered before after c message s e others is_c found =
      rw (e, first_subclass-append before (c ∷ after) s others, is_c, found) refl
