-- ===== src/Tests/Rows.antt =====
-- A database that meets `IsTransactional`: the rows that are committed, and those of the session.
use fastapi_claude_template.Prelude.{
  String, ◌≡◌, refl, Bool, true, false, not, ◌&&◌, Option, some, List, [], ◌∷◌, keep, length, any,
  lookup, ◌==◌, if◌then◌else◌,
}
use fastapi_claude_template.Errors.{integrity}
use fastapi_claude_template.Exec.{ok, err, Exec}
use fastapi_claude_template.Db.{
  RoleName, Role, User, Value, Values, text, Clause, equals, Table, Session,
}
use fastapi_claude_template.Db.Manager.Atomic.{IsTransactional}

pub record Rows : Type 0 where
  pub stored : List User
  pub seen : List User
  pub open_ : Bool

abbrev pub text_of : Option Value → String
text_of (some (text s)) = s
text_of _ = ""

abbrev pub member : Role
member = record { uuid = "r1"; name = RoleName.user }

abbrev pub user_of : Values → User
unfolding lookup
user_of v = record {
  uuid = "u";
  login = text_of (lookup "login" v);
  password = text_of (lookup "password" v);
  active = true;
  role_uuid = text_of (lookup "role_uuid" v);
  role = some member;
}

abbrev pub satisfies : List Clause → User → Bool
satisfies [] u = true
satisfies (equals column (text s) ∷ cs) u =
    (if column == "uuid" then u.uuid == s else u.login == s) && satisfies cs u
satisfies (_ ∷ cs) u = satisfies cs u

abbrev pub some_row : List User → Bool
some_row [] = false
some_row (u ∷ us) = true

-- The login is unique.
abbrev pub store_user : Bool → User → Exec Rows (List User)
store_user true u d = (err (integrity "ix_user_login"), d)
store_user false u d = (ok (u ∷ []), record d { seen = u ∷ d.seen })

pub store_user-stored :
    (taken : Bool) (u : User) (d : Rows) → (store_user taken u d).1.stored ≡ d.stored
store_user-stored true u d = refl
store_user-stored false u d = refl

abbrev pub users : Table Rows User
users = record {
  insert = λ v d. store_user (any (λ u. u.login == (user_of v).login) d.seen) (user_of v) d;
  insert_many = λ vs d. (ok [], d);
  select = λ s d. (ok (keep (satisfies s.where_clauses) d.seen), d);
  update = λ c v d. (ok (keep (satisfies c) d.seen), record d { seen = d.seen });
  update_many = λ vs d. (ok tt, d);
  delete = λ c d.
      (ok (keep (satisfies c) d.seen), record d { seen = keep (λ u. not (satisfies c u)) d.seen });
  exists = λ c d. (ok (some_row (keep (satisfies c) d.seen)), d);
  count = λ c d. (ok (length (keep (satisfies c) d.seen)), d);
  upsert = λ v cs w d. (ok [], d);
  upsert_many = λ vs cs ws d. (ok [], d);
}

abbrev pub roles : Table Rows Role
roles = record {
  insert = λ v d. (ok [], d);
  insert_many = λ vs d. (ok [], d);
  select = λ s d. (ok (member ∷ []), d);
  update = λ c v d. (ok [], d);
  update_many = λ vs d. (ok tt, d);
  delete = λ c d. (ok [], d);
  exists = λ c d. (ok true, d);
  count = λ c d. (ok 1, d);
  upsert = λ v cs w d. (ok [], d);
  upsert_many = λ vs cs ws d. (ok [], d);
}

abbrev pub rows_session : Session Rows
rows_session = record {
  users = users;
  roles = roles;
  in_transaction = λ d. d.open_;
  is_active = λ d. true;
  begin = λ d. (ok tt, record d { open_ = true });
  commit = λ d. (ok tt, record { stored = d.seen; seen = d.seen; open_ = false });
  rollback = λ d. (ok tt, record { stored = d.stored; seen = d.stored; open_ = false });
  close = λ d. (ok tt, record { stored = d.stored; seen = d.stored; open_ = false });
}

abbrev pub rows_session-IsTransactional : IsTransactional (List User) rows_session
rows_session-IsTransactional = record {
  committed = λ d. d.stored;
  users = record {
    insert =
        λ v d. store_user-stored (any (λ u. u.login == (user_of v).login) d.seen) (user_of v) d;
    select = λ s d. refl;
    update = λ c v d. refl;
    delete = λ c d. refl;
    exists = λ c d. refl;
    count = λ c d. refl;
  };
  roles = record {
    insert = λ v d. refl;
    select = λ s d. refl;
    update = λ c v d. refl;
    delete = λ c d. refl;
    exists = λ c d. refl;
    count = λ c d. refl;
  };
  begin = λ d. refl;
  rollback = λ d. refl;
  close = λ d. refl;
  commit_failed = λ d d' e h. cc;
}
