-- ===== src/Bus.antt =====
-- src/application/common/bus: `RequestBusImpl` and its helpers of _utils.py. Types of requests go by
-- their names; Python's objects are a parameter `V`, requests `Q`, and results `R`.
pub mod Laws
pub mod Events
use fastapi_claude_template.Prelude.{
  String, Bool, true, false, not, ◌&&◌, Option, none, some, List, [], ◌∷◌, map, any, keep, join,
  is_some, ◌<>◌, ◌==◌, if◌then◌else◌, Dict, lookup, insert, dict_keys,
}
use fastapi_claude_template.Errors.{Failure, key_error, type_error}
use fastapi_claude_template.Exec.{Result, ok, err, Exec, pure, raise, try_except, ◌>>=◌, ◌>>◌}

-- `Dependency`: a callable, with what calling it does, or another object
pub data Dependency (S V : Type 0) : Type 0 where
  callable : Exec S V → Dependency S V
  object : V → Dependency S V

abbrev pub UseCase : Type 0 → Type 0 → Type 0 → Type 0
UseCase S Q R = Q → Exec S R

-- What the bus holds for a request: an instance of `UseCase`, or a callable that makes one
pub data UseCaseLike (S Q R : Type 0) : Type 0 where
  instance_of : UseCase S Q R → UseCaseLike S Q R
  factory : Exec S (UseCase S Q R) → UseCaseLike S Q R

-- A class of use cases: its parameters with their annotations, and its constructor
pub record UseCaseClass (S V Q R : Type 0) : Type 0 where
  pub params : Dict (Dependency S V)
  pub new : Dict V → Exec S (UseCase S Q R)

pub record RequestBus (S V Q R : Type 0) : Type 0 where
  pub registry : Dict (UseCaseLike S Q R)
  pub dependencies : Dict (Dependency S V)

module _ {S Q R : Type 0} where
  -- `_resolve_factory(use_case, UseCase)`
  abbrev pub resolve_factory : UseCaseLike S Q R → Exec S (UseCase S Q R)
  resolve_factory (instance_of u) = pure u
  resolve_factory (factory f) = f

-- `k not in required and k not in non_checkable`
abbrev pub is_missing : {A : Type 0} → Dict A → List String → String → Bool
is_missing required non_checkable k =
    not (is_some (lookup k required)) && not (any (λ j. j == k) non_checkable)

-- `[k for k in provided if ...]`, with the value of each
abbrev pub missing : {A : Type 0} → Dict A → Dict A → List String → Dict A
missing provided required non_checkable = keep (λ e. is_missing required non_checkable e.0) provided

-- `required.get(k, provided[k])`
abbrev pub or_provided : {A : Type 0} → A → Option A → A
or_provided v none = v
or_provided v (some w) = w

-- `show` is the text of an object.
abbrev pub missing_details : {A : Type 0} → (A → String) → Dict A → String
missing_details show absent = join ", " (map (λ e. "`" <> e.0 <> "`:`" <> show e.1 <> "`") absent)

-- `if missing: raise`
abbrev pub raise_missing : {S A : Type 0} → (A → String) → Dict A → Exec S (Unit {0})
raise_missing show [] = pure tt
raise_missing show (e ∷ absent) = raise (
    type_error
      ("Did you forget to set dependency for " <> missing_details show (e ∷ absent) <> "?"))

unfoldable pub predict_dependency_or_raise :
    {S A : Type 0} → (A → String) → Dict A → Dict A → List String → Exec S (Dict A)
unfolding lookup
predict_dependency_or_raise show provided required non_checkable = do
  raise_missing show (missing provided required non_checkable)
  pure (map (λ e. (e.0, or_provided e.1 (lookup e.0 required))) provided)

module _ {S V : Type 0} where
  -- `v() if callable(v) else v`
  abbrev pub called : Dependency S V → Exec S V
  called (callable f) = f
  called (object v) = pure v

  unfoldable pub resolved : Dict (Dependency S V) → Exec S (Dict V)
  resolved [] = pure []
  resolved ((k, d) ∷ rest) = do v ← called d; vs ← resolved rest; pure ((k, v) ∷ vs)

module _ {S Q R : Type 0} where
  -- `self._use_cases_registry[type(message)]`, resolved
  abbrev pub found_use_case : Option (UseCaseLike S Q R) → Exec S (UseCase S Q R)
  found_use_case none = raise (key_error "type")
  found_use_case (some u) = resolve_factory u

  abbrev pub not_registered : String → Failure → Exec S (UseCase S Q R)
  not_registered name (key_error m) =
      raise (key_error ("Use case for `" <> name <> "` is not registered"))
  not_registered name e = raise e

module _ {S V Q R : Type 0} where
  -- `_create_use_case_factory`
  abbrev pub create_use_case_factory :
      UseCaseClass S V Q R → Dict (Dependency S V) → UseCaseLike S Q R
  create_use_case_factory use_case dependencies =
      factory (do values ← resolved dependencies; use_case.new values)

  unfoldable pub register :
      {T : Type 0}
      → (Dependency S V → String)
      → String
      → UseCaseClass S V Q R
      → RequestBus S V Q R
      → Exec T (RequestBus S V Q R)
  unfolding predict_dependency_or_raise insert
  register show request use_case self = do
    prepared_deps ←
        predict_dependency_or_raise show use_case.params self.dependencies ("request" ∷ [])
    pure (record self {
      registry = insert request (create_use_case_factory use_case prepared_deps) self.registry;
    })

  -- `builder().dependencies(...)`
  abbrev pub builder : Dict (Dependency S V) → RequestBus S V Q R
  builder dependencies = record { registry = []; dependencies = dependencies }

  -- `build`, with the registrations that the callables make, in the order in which the set gives them
  unfoldable pub build :
      {T : Type 0}
      → (Dependency S V → String)
      → List (String × UseCaseClass S V Q R)
      → RequestBus S V Q R
      → Exec T (RequestBus S V Q R)
  unfolding register
  build show [] self = pure self
  build show ((request, use_case) ∷ factories) self = do
    self' ← register show request use_case self
    build show factories self'

  unfoldable pub get_use_case : RequestBus S V Q R → String → Exec S (UseCase S Q R)
  unfolding lookup
  get_use_case self name =
      try_except (found_use_case (lookup name self.registry)) (not_registered name)

  -- A message comes with the name of its type.
  unfoldable pub send : RequestBus S V Q R → String → Q → Exec S R
  unfolding get_use_case
  send self name message = do use_case ← get_use_case self name; use_case message

  -- `wrapper.execute(use_case, message)`
  unfoldable pub send_wrapped :
      {A : Type 0} → RequestBus S V Q R → (UseCase S Q R → Q → Exec S A) → String → Q → Exec S A
  unfolding get_use_case
  send_wrapped self execute name message = do
    use_case ← get_use_case self name
    execute use_case message
