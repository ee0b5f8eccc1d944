-- ===== src/Contracts/Laws.antt =====
-- The pages that a client can ask for, and who validates a password.
use fastapi_claude_template.Prelude.{ℕ, ◌≤◌, ◌≡◌, ◌↔◌, refl, sym, ap, Option, none, some, arith}
use fastapi_claude_template.Db.{OrderBy, desc}
use fastapi_claude_template.UseCases.{RegisterRequest, is_valid_request}
use fastapi_claude_template.Contracts.{
  ℤ, pos, negsuc, at_least, between, OffsetContract, validate_pagination, paged, or_default,
  accepts_credentials, accepts_password,
}

some_path {ℓ} : {A : Type ℓ} {a b : A} → some a ≡ some b → a ≡ b
some_path h = cc

-- What an integer of a query, with the default where it is left out, must be for the number that is
-- read from it
abbrev pub ReadsOffset : Option ℤ → ℕ → Type 0
ReadsOffset none n = n ≡ 0
ReadsOffset (some (pos k)) n = n ≡ k
ReadsOffset (some (negsuc k)) n = ⊥

abbrev pub ReadsLimit : Option ℤ → ℕ → Type 0
ReadsLimit none n = n ≡ 10
ReadsLimit (some (pos k)) n = (n ≡ k) × (10 ≤ k) × (k ≤ 200)
ReadsLimit (some (negsuc k)) n = ⊥

read_offset :
    (offset : Option ℤ) (n : ℕ)
    → (at_least 0 (or_default (pos 0) offset) ≡ some n) ↔ ReadsOffset offset n
unfolding at_least
read_offset none n = (λ h. cc, λ h. rw h refl)
read_offset (some (pos k)) n = (λ h. ground arith, λ h. ground arith)
read_offset (some (negsuc k)) n = (λ h. cc, λ h. absurd h)

read_limit :
    (limit : Option ℤ) (n : ℕ)
    → (between 10 200 (or_default (pos 10) limit) ≡ some n) ↔ ReadsLimit limit n
unfolding between
read_limit none n = (λ h. cc, λ h. rw h refl)
read_limit (some (pos k)) n = (λ h. ground arith, λ h. ground arith)
read_limit (some (negsuc k)) n = (λ h. cc, λ h. absurd h)

-- What `paged` returned was made of what it was given.
paged-eq-some :
    (order_by : OrderBy) (offset limit : Option ℕ) (p : OffsetContract)
    → paged order_by offset limit ≡ some p
    → (p.order_by ≡ order_by) × (offset ≡ some p.offset) × (limit ≡ some p.limit)
paged-eq-some order_by none limit p h = cc
paged-eq-some order_by (some offset) none p h = cc
paged-eq-some order_by (some offset) (some limit) p h =
    let same = some_path h in
    (ap (λ q. q.order_by) (sym same), ap (λ q. some q.offset) same, ap (λ q. some q.limit) same)

-- A query is read as a page exactly when its offset is not negative and its limit is between 10 and
-- 200, each of them or its default, 0 and 10; the order is the one given, or else descending. So no
-- page of more than 200 rows is ever asked for.
pub validate_pagination_lem :
    (order_by : Option OrderBy) (offset limit : Option ℤ) (p : OffsetContract)
    → (validate_pagination order_by offset limit ≡ some p) ↔ (
        (p.order_by ≡ or_default desc order_by)
        × ReadsOffset offset p.offset
        × ReadsLimit limit p.limit)
unfolding validate_pagination
validate_pagination_lem order_by offset limit p = (
  λ h.
      let (order, at, most) = paged-eq-some (or_default desc order_by) _ _ p h in
      (order, (read_offset offset p.offset).0 at, (read_limit limit p.limit).0 most),
  λ h. rw ((read_offset offset p.offset).1 h.1, (read_limit limit p.limit).1 h.2, ← h.0) refl,
)

limit_bounds : (limit : Option ℤ) (n : ℕ) → ReadsLimit limit n → (10 ≤ n) × (n ≤ 200)
limit_bounds none n h = omega arith
limit_bounds (some (pos k)) n h = omega arith
limit_bounds (some (negsuc k)) n h = absurd h

-- The bodies that the contracts of the login and the registration accept are those that the requests
-- of the use cases accept.
pub accepts_credentials_lem :
    (body : RegisterRequest) → accepts_credentials body ≡ is_valid_request body
unfolding accepts_credentials accepts_password
accepts_credentials_lem body = ground arith
