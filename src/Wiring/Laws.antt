-- ===== src/Wiring/Laws.antt =====
-- Which container resolves, and how often a repository is made.
use fastapi_claude_template.Prelude.{
  String, ◌≡◌, refl, sym, ap, ◌∙◌, none, some, Option, List, [], ◌∷◌, ◌++◌, reverse, reverse-cons,
  lookup, lookup-insert, eq_refl, Option-cases, inl, inr,
}
use mathlib.Core.List.{append_assoc, append-nil}
use fastapi_claude_template.Exec.{ok, Exec, Result}
use fastapi_claude_template.Exec.Laws.{bind-eq-ok}
use fastapi_claude_template.Wiring.{
  Container, root, child, made, DynamicContainer, new_container, add_providers, Gateway, from_cache,
  remember, on_inner,
}

module _ {P : Type 0} where
  -- The sets of providers that a container asks in turn: its own, then its parent's
  abbrev pub asked : Container P → List (List P)
  asked (root providers) = providers ∷ []
  asked (child providers parent) = providers ∷ asked parent

  abbrev pub asked_by : Option (Container P) → List (List P)
  asked_by none = []
  asked_by (some c) = asked c

  asked-made :
      (providers : List P) (parent : Option (Container P))
      → asked (made providers parent) ≡ providers ∷ asked_by parent
  asked-made providers none = refl
  asked-made providers (some c) = refl

  abbrev pub add_all : List (List P) → DynamicContainer P → DynamicContainer P
  add_all [] self = self
  add_all (providers ∷ more) self = add_all more (add_providers providers self)

  asked-add_all :
      (sets : List (List P)) (self : DynamicContainer P)
      → (asked_by (add_all sets self).container ≡ reverse sets ++ asked_by self.container)
        × (asked_by (add_all sets self).sync_container
            ≡ reverse sets ++ asked_by self.sync_container)
  unfolding add_providers
  asked-add_all [] self = (refl, refl)
  asked-add_all (providers ∷ sets) self =
      let (c, d) = asked-add_all sets (add_providers providers self) in
      (
        c
            ∙ rw (asked-made providers self.container, reverse-cons providers sets)
                (sym (append_assoc (reverse sets) (providers ∷ []) _)),
        d
            ∙ rw (asked-made providers self.sync_container, reverse-cons providers sets)
                (sym (append_assoc (reverse sets) (providers ∷ []) _)),
      )

  -- After any sequence of additions the container asks the sets of providers from the last one added
  -- to the first, and so does the synchronous one.
  pub container-add_all :
      (sets : List (List P))
      → (asked_by (add_all sets new_container).container ≡ reverse sets)
        × (asked_by (add_all sets new_container).sync_container ≡ reverse sets)
  container-add_all sets =
      let (c, d) = asked-add_all sets new_container in
      (c ∙ append-nil (reverse sets), d ∙ append-nil (reverse sets))

module _ {S R : Type 0} where
  returned :
      {r r' : R} {g g' : Gateway S R}
      → ◌≡◌ {A = Result R × Gateway S R} (ok r, g) (ok r', g')
      → (r ≡ r') × (g ≡ g')
  returned h = (cc, cc)

  lookup-from_cache :
      (key : String) (factory : Exec S R) (g g' : Gateway S R) (r : R)
      → from_cache key factory g ≡ (ok r, g')
      → lookup key g'.cache ≡ some r
  unfolding from_cache
  lookup-from_cache key factory g g' r h = elim (Option-cases (lookup key g.cache)) [
    | inl e ↦
        let (r1, _, h1) = bind-eq-ok (on_inner factory) (remember key) g (rw e at h) in
        let (same, ends) = returned h1 in
        ap (λ x. lookup key x.cache) (sym ends)
        ∙ lookup-insert key key r1 g.cache
        ∙ rw (eq_refl key) (ap some same)
    | inr (r1, e) ↦
        let (same, ends) = returned (rw e at h) in
        ap (λ x. lookup key x.cache) (sym ends) ∙ e ∙ ap some same
  ]

  -- A repository is made once: the second access gives what the first one gave, whatever constructor
  -- it names, and changes nothing.
  pub from_cache-again :
      (key : String) (factory factory' : Exec S R) (g g' : Gateway S R) (r : R)
      → from_cache key factory g ≡ (ok r, g')
      → from_cache key factory' g' ≡ (ok r, g')
  unfolding from_cache
  from_cache-again key factory factory' g g' r h = rw (lookup-from_cache key factory g g' r h) refl
