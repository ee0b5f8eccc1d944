-- ===== src/Contracts.antt =====
-- src/presentation/http/v1/contracts: what the bodies and the queries of requests must satisfy before an
-- endpoint is called. Pydantic reads the texts; `Field(min_length, max_length, ge, le)` is what its
-- documentation says. An integer of a query may be negative.
pub mod Laws
use Prim.Native.String.{count}
use fastapi_claude_template.Prelude.{
  ℕ, suc, ◌+◌, String, Bool, true, false, ◌&&◌, Option, none, some, List, [], ◌∷◌, leb,
  if◌then◌else◌,
}
use fastapi_claude_template.Db.{OrderBy, desc}
use fastapi_claude_template.UseCases.{
  RegisterRequest, max_login_length, min_password_length, max_password_length,
}
use fastapi_claude_template.UseCases.Users.{Field, unset, sent_null, sent, OffsetPagination}

-- `negsuc n` is -(n + 1).
pub data ℤ : Type 0 where
  pos : ℕ → ℤ
  negsuc : ℕ → ℤ

-- `Field(ge=low)` and `Field(ge=low, le=high)` on an integer; what is out of range is refused
unfoldable pub at_least : ℕ → ℤ → Option ℕ
at_least low (pos n) = if leb low n then some n else none
at_least low (negsuc n) = none

unfoldable pub between : ℕ → ℕ → ℤ → Option ℕ
between low high (pos n) = if leb low n && leb n high then some n else none
between low high (negsuc n) = none

-- contracts/auth.py: `Login` and `Register`, and the password of `UpdateSelf` and `AdminUpdateUser`
unfoldable pub accepts_password : String → Bool
accepts_password password =
    leb min_password_length (count password) && leb (count password) max_password_length

unfoldable pub accepts_credentials : RegisterRequest → Bool
unfolding accepts_password
accepts_credentials body = leb (count body.login) max_login_length && accepts_password body.password

unfoldable pub accepts_new_password : Field String → Bool
unfolding accepts_password
accepts_new_password unset = true
accepts_new_password sent_null = true
accepts_new_password (sent password) = accepts_password password

-- contracts/pagination.py
abbrev pub min_pagination_limit : ℕ
min_pagination_limit = 10

abbrev pub max_pagination_limit : ℕ
max_pagination_limit = 200

-- contracts/pagination.py: `OffsetPagination`
pub record OffsetContract : Type 0 where
  pub order_by : OrderBy
  pub offset : ℕ
  pub limit : ℕ

abbrev pub or_default : {A : Type 0} → A → Option A → A
or_default a none = a
or_default a (some b) = b

abbrev pub paged : OrderBy → Option ℕ → Option ℕ → Option OffsetContract
paged order_by none limit = none
paged order_by (some offset) none = none
paged order_by (some offset) (some limit) =
    some (record { order_by = order_by; offset = offset; limit = limit })

-- A query with what it leaves out; `none` is a validation error.
unfoldable pub validate_pagination : Option OrderBy → Option ℤ → Option ℤ → Option OffsetContract
unfolding at_least between
validate_pagination order_by offset limit =
    paged (or_default desc order_by) (at_least 0 (or_default (pos 0) offset)) (
      between min_pagination_limit max_pagination_limit
        (or_default (pos min_pagination_limit) limit))

-- `OffsetPagination(**pagination.model_dump())` of the endpoint
unfoldable pub model_dump : OffsetContract → OffsetPagination
model_dump p = record { order_by = p.order_by; offset = p.offset; limit = some p.limit }

-- contracts/status.py, and the health check's answer
pub record Status : Type 0 where
  pub status : Bool

unfoldable pub healthcheck_endpoint : Status
healthcheck_endpoint = record { status = true }
