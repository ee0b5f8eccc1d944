-- ===== src/Bus/Laws.antt =====
-- Which dependencies a use case gets, and which use case a message.
use fastapi_claude_template.Prelude.{
  String, ◌≡◌, refl, sym, ap, true, false, Option, none, some, List, [], ◌∷◌, map, All, ◌<>◌, ◌==◌,
  eq_iff, eq_refl, arith, Dict, lookup, insert, dict_keys, lookup-insert, ◌⊎◌, inl, inr, Bool-cases,
}
use fastapi_claude_template.Errors.{key_error, type_error}
use fastapi_claude_template.Exec.{ok, err, Exec, try_except, ◌>>=◌}
use fastapi_claude_template.Exec.Laws.{ok_path}
use fastapi_claude_template.Bus.{
  Dependency, UseCase, UseCaseClass, RequestBus, factory, is_missing, missing, or_provided,
  missing_details, predict_dependency_or_raise, resolved, create_use_case_factory, register,
  get_use_case, not_registered, send,
}

List-cases : {A : Type 0} (xs : List A) → (xs ≡ []) ⊎ ((x : A) × (ys : List A) × (xs ≡ x ∷ ys))
List-cases [] = inl refl
List-cases (x ∷ ys) = inr (x, ys, refl)

module _ {A : Type 0} (required : Dict A) where
  -- The value of each parameter: what was set for it, or what the signature has
  abbrev pub prepared : Dict A → Dict A
  prepared provided = map (λ e. (e.0, or_provided e.1 (lookup e.0 required))) provided

  -- `Option.map` of `prepared` on one value
  abbrev pub prepared_value : String → Option A → Option A
  prepared_value k none = none
  prepared_value k (some v) = some (or_provided v (lookup k required))

  dict_keys-prepared : (provided : Dict A) → dict_keys (prepared provided) ≡ dict_keys provided
  unfolding dict_keys
  dict_keys-prepared [] = refl
  dict_keys-prepared ((k, v) ∷ provided) = ap (λ ks. k ∷ ks) (dict_keys-prepared provided)

  lookup-prepared :
      (k : String) (provided : Dict A)
      → lookup k (prepared provided) ≡ prepared_value k (lookup k provided)
  unfolding lookup
  lookup-prepared k [] = refl
  lookup-prepared k ((j, v) ∷ provided) = ground (arith, eq_iff j k, lookup-prepared k provided)

  lacking_empty :
      (non_checkable : List String) (provided : Dict A)
      → All (λ e. is_missing required non_checkable e.0 ≡ false) provided
      → missing provided required non_checkable ≡ []
  lacking_empty non_checkable [] h = refl
  lacking_empty non_checkable (e ∷ provided) h = rw h.0 (lacking_empty non_checkable provided h.1)

  lacking_found :
      (non_checkable : List String) (k : String) (v : A) (provided : Dict A)
      → lookup k provided ≡ some v
      → is_missing required non_checkable k ≡ true
      → (e : String × A) × (es : Dict A) × (missing provided required non_checkable ≡ e ∷ es)
  unfolding lookup
  lacking_found non_checkable k v [] h m = cc
  lacking_found non_checkable k v ((j, w) ∷ provided) h m =
      elim (Bool-cases (is_missing required non_checkable j)) [
        | inl e ↦ ((j, w), missing provided required non_checkable, rw e refl)
        | inr e ↦
            let (found, rest, f) =
              lacking_found non_checkable k v provided (ground (arith, eq_iff j k)) m in
            (found, rest, rw e f)
      ]

module _ {S A : Type 0} (show : A → String) where
  -- When nothing is missing, the prediction has exactly the parameters that were provided, each with
  -- what was set for it, or else with what the signature has, and nothing else happens.
  pub predict_dependency_or_raise_ok :
      (provided required : Dict A) (non_checkable : List String) (k : String) (s : S)
      → All (λ e. is_missing required non_checkable e.0 ≡ false) provided
      → (predict_dependency_or_raise show provided required non_checkable s
          ≡ (ok (prepared required provided), s))
        × (dict_keys (prepared required provided) ≡ dict_keys provided)
        × (lookup k (prepared required provided) ≡ prepared_value required k (lookup k provided))
  unfolding predict_dependency_or_raise
  predict_dependency_or_raise_ok provided required non_checkable k s h = (
    rw (lacking_empty required non_checkable provided h) refl,
    dict_keys-prepared required provided,
    lookup-prepared required k provided,
  )

  -- A parameter that was neither set nor is exempt makes the prediction a TypeError.
  pub predict_dependency_or_raise_fails :
      (provided required : Dict A) (non_checkable : List String) (k : String) (v : A) (s : S)
      → lookup k provided ≡ some v
      → is_missing required non_checkable k ≡ true
      → (m : String) × (predict_dependency_or_raise show provided required non_checkable s
          ≡ (err (type_error m), s))
  unfolding predict_dependency_or_raise
  predict_dependency_or_raise_fails provided required non_checkable k v s h m =
      let (e, es, found) = lacking_found required non_checkable k v provided h m in
      (
        "Did you forget to set dependency for " <> missing_details show (e ∷ es) <> "?",
        rw found refl,
      )

module _ {S V Q R : Type 0} (show : Dependency S V → String) where
  registry-register :
      {T : Type 0} (request : String) (use_case : UseCaseClass S V Q R)
      (self self' : RequestBus S V Q R) (t t' : T)
      → register show request use_case self t ≡ (ok self', t')
      → self'.registry
        ≡ insert request
            (create_use_case_factory use_case (prepared self.dependencies use_case.params))
            self.registry
  unfolding register predict_dependency_or_raise
  registry-register request use_case self self' t t' h =
      elim (List-cases (missing use_case.params self.dependencies ("request" ∷ []))) [
        | inl e ↦ ap (λ b. b.registry) (sym (ok_path (ap (λ x. x.0) (rw e at h))))
        | inr (d, ds, e) ↦ cc (rw e at h)
      ]

  -- A class whose registration returned serves the requests of its type, with the dependencies that
  -- were set in place of its parameters; requests of other types are served as before.
  pub send-register :
      {T : Type 0} (request other : String) (use_case : UseCaseClass S V Q R)
      (self self' : RequestBus S V Q R) (message : Q) (t t' : T) (s : S)
      → register show request use_case self t ≡ (ok self', t')
      → (request == other) ≡ false
      → (send self' request message s
          ≡ (try_except
                  (resolved (prepared self.dependencies use_case.params) >>= use_case.new)
                  (not_registered request)
                >>= λ u. u message)
              s)
        × (send self' other message s ≡ send self other message s)
  unfolding send get_use_case register
  send-register request other use_case self self' message t t' s h different =
      let set = registry-register request use_case self self' t t' h in
      let made = create_use_case_factory use_case (prepared self.dependencies use_case.params) in
      (
        rw (set, lookup-insert request request made self.registry, eq_refl request) refl,
        rw (set, lookup-insert request other made self.registry, different) refl,
      )

module _ {S V Q R : Type 0} where
  -- A request whose type is not registered is refused with a KeyError that names it, and so is one
  -- whose use case has a dependency that raises a KeyError itself.
  pub send-key_error :
      (self : RequestBus S V Q R) (name m : String) (f : Exec S (UseCase S Q R)) (message : Q)
      (s s' : S)
      → (lookup name self.registry ≡ none)
        ⊎ ((lookup name self.registry ≡ some (factory f)) × (f s ≡ (err (key_error m), s')))
      → (send self name message s).0
        ≡ err (key_error ("Use case for `" <> name <> "` is not registered"))
  unfolding send get_use_case
  send-key_error self name m f message s s' (inl e) = rw e refl
  send-key_error self name m f message s s' (inr (e, raised)) = rw (e, raised) refl
