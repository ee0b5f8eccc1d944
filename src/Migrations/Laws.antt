-- ===== src/Migrations/Laws.antt =====
-- The revisions one after another: the schema that they leave, and the way back.
use fastapi_claude_template.Prelude.{
  String, ◌≡◌, refl, sym, ap, ◌∙◌, subst, fun_ext, Option-cases, true, false, none, some, List, [],
  ◌∷◌, ◌++◌, ◌==◌, ◌<>◌, All, eq_iff, Bool-cases, inl, inr,
}
use fastapi_claude_template.Exec.{ok}
use fastapi_claude_template.Models.{
  Table, Index, role_model, user_model, role_type_enum, table_of, tablename, indexes_of,
}
use fastapi_claude_template.Migrations.{
  Operations, role_table, user_table, role_name_index, user_active_index, user_login_index,
  insert_roles, upgrade_initial, downgrade_initial, upgrade_unique_login, downgrade_unique_login,
  upgrade_head, downgrade_base,
}
use fastapi_claude_template.Migrations.Catalogs.{
  Catalog, put, off_table, with_table, without_table, with_index, without_index, with_values,
  accepts_in, refers, Creatable, has_columns,
}
use fastapi_claude_template.Migrations.Database.{IsDatabase, Leaves, Takes, index_allowed, then}

abbrev unique_login_index : Index
unique_login_index = record user_login_index { unique = true }

-- A schema with neither the tables nor the indexes of the service, nor anything on them
pub record IsFree (c : Catalog) : Type 0 where
  pub no_role : c.tables "role" ≡ none
  pub no_user : c.tables "user" ≡ none
  pub no_role_name : c.indexes "ix_role_name" ≡ none
  pub no_user_active : c.indexes "ix_user_active" ≡ none
  pub no_user_login : c.indexes "ix_user_login" ≡ none
  pub nothing_on_role :
      (n : String) (i : Index) → c.indexes n ≡ some i → (i.table == "role") ≡ false
  pub nothing_on_user :
      (n : String) (i : Index) → c.indexes n ≡ some i → (i.table == "user") ≡ false
  pub no_reference :
      (n : String) (u : Table)
      → c.tables n ≡ some u
      → (refers u role_table ≡ false) × (refers u user_table ≡ false)

abbrev initial_catalog : Catalog → Catalog
initial_catalog c = with_values "role" "name" ("Admin" ∷ "User" ∷ []) (
    with_index user_login_index (
      with_index user_active_index
        (with_table user_table (with_index role_name_index (with_table role_table c)))))

abbrev head_catalog : Catalog → Catalog
head_catalog c = with_index unique_login_index (without_index "ix_user_login" (initial_catalog c))

some_path {ℓ} : {A : Type ℓ} {a b : A} → some a ≡ some b → a ≡ b
some_path h = cc

module _ {S : Type 0} (op : Operations S) (l : IsDatabase op) where
  open l use {catalog}

  -- Each operation at any database that shows a catalog
  created :
      (t : Table) {c : Catalog}
      → c.tables t.name ≡ none
      → Creatable c t
      → Takes catalog (op.create_table t) c (with_table t c)
  created t free allowed = record {
    run = λ s e.
        subst
          (λ c.
            c.tables t.name ≡ none
            → Creatable c t
            → Leaves catalog (op.create_table t) s (with_table t c))
          e (l.create_table_lem t s) free allowed;
  }

  indexed :
      (i : Index) (t : Table) {c : Catalog}
      → c.indexes i.name ≡ none
      → c.tables i.table ≡ some t
      → has_columns i.columns t.columns ≡ true
      → index_allowed i c ≡ true
      → Takes catalog (op.create_index i) c (with_index i c)
  indexed i t free there there_too allowed = record {
    run = λ s e.
        subst
          (λ c.
            c.indexes i.name ≡ none
            → c.tables i.table ≡ some t
            → has_columns i.columns t.columns ≡ true
            → index_allowed i c ≡ true
            → Leaves catalog (op.create_index i) s (with_index i c))
          e (l.create_index_lem i t s) free there there_too allowed;
  }

  unindexed :
      (i : Index) {c : Catalog}
      → c.indexes i.name ≡ some i
      → Takes catalog (op.drop_index i.name i.table) c (without_index i.name c)
  unindexed i there = record {
    run = λ s e.
        subst
          (λ c.
            c.indexes i.name ≡ some i
            → Leaves catalog (op.drop_index i.name i.table) s (without_index i.name c))
          e (l.drop_index_lem i s) there;
  }

  inserted :
      {c : Catalog}
      → accepts_in "name" (c.tables "role") ≡ true
      → Takes catalog
          (op.execute insert_roles)
          c
          (with_values "role" "name" ("Admin" ∷ "User" ∷ []) c)
  inserted accepted = record {
    run = λ s e.
        subst
          (λ c.
            accepts_in "name" (c.tables "role") ≡ true
            → Leaves catalog (op.execute insert_roles) s
                (with_values "role" "name" ("Admin" ∷ "User" ∷ []) c))
          e (l.execute_insert s) accepted;
  }

  dropped :
      (t : Table) {c : Catalog}
      → c.tables t.name ≡ some t
      → ((name : String) (u : Table)
          → (t.name == name) ≡ false
          → c.tables name ≡ some u
          → refers u t ≡ false)
      → Takes catalog (op.drop_table t.name) c (without_table t.name c)
  dropped t there unreferred = record {
    run = λ s e.
        subst
          (λ c.
            c.tables t.name ≡ some t
            → ((name : String) (u : Table)
                → (t.name == name) ≡ false
                → c.tables name ≡ some u
                → refers u t ≡ false)
            → Leaves catalog (op.drop_table t.name) s (without_table t.name c))
          e (l.drop_table_lem t s) there unreferred;
  }

  upgrade_initial-Takes :
      (c : Catalog) → IsFree c → Takes catalog (upgrade_initial op) c (initial_catalog c)
  unfolding upgrade_initial
  upgrade_initial-Takes c free = then (created role_table free.no_role (refl, tt)) (
      then (indexed role_name_index role_table free.no_role_name refl refl refl) (
        then
          (created user_table free.no_user
            (refl, ((role_table, "uuid", refl, refl, refl, refl), tt)))
          (then (indexed user_active_index user_table free.no_user_active refl refl refl) (
            then (indexed user_login_index user_table free.no_user_login refl refl refl)
              (inserted refl)))))

  upgrade_head-Takes : (c : Catalog) → IsFree c → Takes catalog (upgrade_head op) c (head_catalog c)
  unfolding upgrade_head upgrade_unique_login
  upgrade_head-Takes c free = then (upgrade_initial-Takes c free) (
      then (unindexed user_login_index refl)
        (indexed unique_login_index user_table refl refl refl refl))

  head_refers :
      (c : Catalog) (t : Table)
      → ((n : String) (u : Table) → c.tables n ≡ some u → refers u t ≡ false)
      → refers role_table t ≡ false
      → (name : String) (u : Table) → ("user" == name) ≡ false
      → put "user" (some user_table) (put "role" (some role_table) c.tables) name ≡ some u
      → refers u t ≡ false
  head_refers c t outside role_free name u other h = elim (Bool-cases ("role" == name)) [
    | inl e ↦ subst (λ u. refers u t ≡ false) (some_path (rw (other, e) at h)) role_free
    | inr e ↦ outside name u (rw (other, e) at h)
  ]

  role_refers :
      (c : Catalog)
      → ((n : String) (u : Table) → c.tables n ≡ some u → refers u role_table ≡ false)
      → (name : String) (u : Table) → ("role" == name) ≡ false
      → put "user" none (put "user" (some user_table) (put "role" (some role_table) c.tables)) name
        ≡ some u
      → refers u role_table ≡ false
  role_refers c outside name u other h = elim (Bool-cases ("user" == name)) [
    | inl e ↦ cc (rw e at h)
    | inr e ↦ outside name u (rw (other, e) at h)
  ]

  -- The schema at head with whatever rows the tables hold
  abbrev in_service : Catalog → (String → String → List String) → Catalog
  in_service c v = record (head_catalog c) { values = v }

  abbrev base_catalog : Catalog → (String → String → List String) → Catalog
  base_catalog c v = without_table "role" (
      without_index "ix_role_name" (
        without_table "user" (
          without_index "ix_user_active" (
            without_index "ix_user_login"
              (with_index user_login_index (without_index "ix_user_login" (in_service c v)))))))

  downgrade_base-Takes :
      (c : Catalog) (v : String → String → List String)
      → IsFree c
      → Takes catalog (downgrade_base op) (in_service c v) (base_catalog c v)
  unfolding downgrade_base downgrade_unique_login downgrade_initial
  downgrade_base-Takes c v free =
      then
        (then (unindexed unique_login_index refl)
          (indexed user_login_index user_table refl refl refl refl))
        (then (unindexed user_login_index refl) (
          then (unindexed user_active_index refl) (
            then
              (dropped user_table refl
                (head_refers c user_table (λ n u h. (free.no_reference n u h).1) refl))
              (then (unindexed role_name_index refl)
                (dropped role_table refl (role_refers c (λ n u h. (free.no_reference n u h).0)))))))

  base_tables :
      (c : Catalog) (v : String → String → List String) (n : String)
      → IsFree c
      → (base_catalog c v).tables n ≡ c.tables n
  base_tables c v n free = elim (Bool-cases ("role" == n)) [
    | inl e ↦ rw e (subst (λ n. none ≡ c.tables n) ((eq_iff "role" n).0 e) (sym free.no_role))
    | inr e ↦ rw e (elim (Bool-cases ("user" == n)) [
      | inl e' ↦ rw e' (subst (λ n. none ≡ c.tables n) ((eq_iff "user" n).0 e') (sym free.no_user))
      | inr e' ↦ rw e' refl
    ])
  ]

  off_others :
      (c : Catalog) (name n : String)
      → ((n : String) (i : Index) → c.indexes n ≡ some i → (i.table == name) ≡ false)
      → off_table name (c.indexes n) ≡ c.indexes n
  off_others c name n outside = elim (Option-cases (c.indexes n)) [
    | inl e ↦ rw e refl
    | inr (i, e) ↦ rw (e, outside n i e) refl
  ]

  base_indexes :
      (c : Catalog) (v : String → String → List String) (n : String)
      → IsFree c
      → (base_catalog c v).indexes n ≡ c.indexes n
  base_indexes c v n free = elim (Bool-cases ("ix_role_name" == n)) [
    | inl e ↦
        rw e
          (subst (λ n. none ≡ c.indexes n) ((eq_iff "ix_role_name" n).0 e) (sym free.no_role_name))
    | inr e ↦ rw e (elim (Bool-cases ("ix_user_active" == n)) [
      | inl e' ↦ rw e' (
          subst (λ n. none ≡ c.indexes n) ((eq_iff "ix_user_active" n).0 e')
            (sym free.no_user_active))
      | inr e' ↦ rw e' (elim (Bool-cases ("ix_user_login" == n)) [
        | inl e'' ↦ rw e'' (
            subst (λ n. none ≡ c.indexes n) ((eq_iff "ix_user_login" n).0 e'')
              (sym free.no_user_login))
        | inr e'' ↦
            rw
              (
                e'',
                off_others c "user" n free.nothing_on_user,
                off_others c "role" n free.nothing_on_role,
              )
              refl
      ])
    ])
  ]

  -- From a database that has none of the service's tables and indexes nor anything on them, the two
  -- upgrades succeed and leave the tables that the models declare, each index of the models under
  -- SQLAlchemy's name for it, the login's unique, one row for each role, and no user.
  pub upgrade_head_lem :
      (index_name : String → String → String) (s : S)
      → ((table column : String) → index_name table column ≡ "ix_" <> table <> "_" <> column)
      → IsFree (catalog s)
      → let (r, s') = upgrade_head op s in
        (r ≡ ok tt)
        × ((catalog s').tables "role" ≡ some (table_of role_model))
        × ((catalog s').tables "user" ≡ some (table_of user_model))
        × All
            (λ i. (catalog s').indexes i.name ≡ some i)
            (indexes_of index_name role_model ++ indexes_of index_name user_model)
        × ((catalog s').values "role" "name" ≡ role_type_enum)
        × ((catalog s').values "user" "login" ≡ [])
  unfolding table_of tablename role_model user_model indexes_of
  upgrade_head_lem index_name s named free =
      let run = (upgrade_head-Takes (catalog s) free).run s refl in
      (
        run.0,
        rw run.1 refl,
        rw run.1 refl,
        rw (run.1, named "role" "name", named "user" "login", named "user" "active")
            (refl, (refl, (refl, tt))),
        rw run.1 refl,
        rw run.1 refl,
      )

  -- Whatever rows the service has written since, the two downgrades succeed and take a database at
  -- head back to the tables and the indexes that it had before the upgrades, when it had none of
  -- the service's then.
  pub downgrade_base-upgrade_head :
      (s s' : S)
      → IsFree (catalog s)
      → (catalog s').tables ≡ (catalog (upgrade_head op s).1).tables
      → (catalog s').indexes ≡ (catalog (upgrade_head op s).1).indexes
      → let (r, t) = downgrade_base op s' in
        (r ≡ ok tt)
        × ((catalog t).tables ≡ (catalog s).tables)
        × ((catalog t).indexes ≡ (catalog s).indexes)
  downgrade_base-upgrade_head s s' free same_tables same_indexes =
      let up = (upgrade_head-Takes (catalog s) free).run s refl in
      let v = (catalog s').values in
      let shown : catalog s' ≡ in_service (catalog s) v = λ i. record {
        tables = (same_tables ∙ ap (λ c. c.tables) up.1) i;
        indexes = (same_indexes ∙ ap (λ c. c.indexes) up.1) i;
        values = v;
      } in
      let down = (downgrade_base-Takes (catalog s) v free).run s' shown in
      (
        down.0,
        ap (λ c. c.tables) down.1 ∙ fun_ext (λ n. base_tables (catalog s) v n free),
        ap (λ c. c.indexes) down.1 ∙ fun_ext (λ n. base_indexes (catalog s) v n free),
      )
