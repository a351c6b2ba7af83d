-- ===== src/Core/Users.antt =====
-- internal/core/user.go and internal/core/user_repository.go: the users table. Its keys are `id` and,
-- by the constraint `uniq_users_uid`, `uid`. Every method is given how the database answers.
pub mod Laws
use livelook_sfu.Common.{
  ℕ, ◌≡◌, Bool, true, false, ◌&&◌, Option, none, some, List, [], ◌∷◌, snoc, String, ◌==◌, string_eq,
  if◌then◌else◌, equal_fold, Outcome, ok, err, panic, Error, external,
}
use livelook_sfu.Eventbus.Rpc.{UserSessionId}
use livelook_sfu.Eventbus.Json.{Json, set_string, read_struct}
use livelook_sfu.Eventbus.Decoding.{and_then}

-- `User`, which is a row of the table as well.
pub record User : Type 0 where
  pub user_id : UserSessionId
  pub uid : String
  pub name : String
  pub created_at : Option ℕ
  pub is_admin : Bool
  pub email : Option String
  pub password : Option String

abbrev pub admin_session_name_key : String
admin_session_name_key = "_livelook_admin_session"

-- `NewUser`, with the UUID that it makes.
unfoldable pub new_user : UserSessionId → User
new_user uuid = record {
  user_id = uuid;
  uid = "";
  name = "";
  created_at = none;
  is_admin = false;
  email = none;
  password = none;
}

-- Only three fields of a user are read from JSON.
abbrev pub set_user : String → Json → User → Outcome User
set_user key v u =
    if equal_fold key "id"
    then and_then (set_string v u.user_id) (λ s. ok (record u { user_id = s }))
    else if equal_fold key "uid"
    then and_then (set_string v u.uid) (λ s. ok (record u { uid = s }))
    else if equal_fold key "name"
    then and_then (set_string v u.name) (λ s. ok (record u { name = s }))
    else ok u

unfoldable pub read_user : User → Json → Outcome User
unfolding read_struct
read_user u = read_struct set_user u

-- `sql.ErrNoRows`, and the violation of the primary key.
abbrev pub no_rows : Error
no_rows = external 1

abbrev pub duplicate_id : Error
duplicate_id = external 2

-- The first row for which a condition holds: LIMIT 1.
unfoldable pub first_row : (User → Bool) → List User → Option User
first_row test [] = none
first_row test (u ∷ rows) = if test u then some u else first_row test rows

abbrev pub found_row : Option User → Outcome User
found_row none = err no_rows
found_row (some u) = ok u

abbrev pub selected : Option Error → Option User → Outcome User
selected (some e) row = err e
selected none row = found_row row

-- `Find`
unfoldable pub find_user : Option Error → String → List User → Outcome User
unfolding first_row
find_user reply id table = selected reply (first_row (λ u. u.user_id == id) table)

-- `FindByUID` of the repository, and `FindUserByUID`.
unfoldable pub find_user_by_uid : Option Error → String → List User → Outcome User
unfolding first_row
find_user_by_uid reply uid table = selected reply (first_row (λ u. u.uid == uid) table)

-- `crypt` of pgcrypto, and `lower`.
pub record Sql : Type 0 where
  pub crypt : String → String → String
  pub lower : String → String

-- WHERE password = crypt($1, password) AND lower(email) = lower($2) AND is_admin; a comparison with
-- NULL is not true.
abbrev pub matching : Sql → String → String → Option String → Option String → Bool → Bool
matching sql email password none mail admin = false
matching sql email password (some p) none admin = false
matching sql email password (some p) (some e) admin =
    p == sql.crypt password p && sql.lower e == sql.lower email && admin

abbrev pub may_log_in : Sql → String → String → User → Bool
may_log_in sql email password u = matching sql email password u.password u.email u.is_admin

abbrev pub nil_if_none : Option User → Outcome (Option User)
nil_if_none none = ok none
nil_if_none (some u) = ok (some u)

-- `AuthAdminUser`, which passes over `sql.ErrNoRows` and returns nil.
unfoldable pub auth_admin_user :
    Sql → Option Error → String → String → List User → Outcome (Option User)
unfolding first_row
auth_admin_user sql (some e) email password table = err e
auth_admin_user sql none email password table =
    nil_if_none (first_row (may_log_in sql email password) table)

-- INSERT INTO users (id, uid, name, created_at): the other columns have their defaults.
abbrev pub user_row : ℕ → User → User
user_row now u = record (new_user u.user_id) { uid = u.uid; name = u.name; created_at = some now }

-- DO UPDATE SET name = EXCLUDED.name
unfoldable pub renamed : String → String → List User → List User
renamed uid name [] = []
renamed uid name (u ∷ rows) =
    (if u.uid == uid then record u { name = name } else u) ∷ renamed uid name rows

-- The row of the same `uid`, if there is one, then one of the same `id`.
abbrev pub upserted : ℕ → User → Option User → Option User → List User → Outcome User × List User
upserted now u (some row) same_id table =
    (ok (record u { user_id = row.user_id }), renamed u.uid u.name table)
upserted now u none (some row) table = (err duplicate_id, table)
upserted now u none none table = (ok u, snoc table (user_row now u))

-- `Save`
unfoldable pub save_user : Option Error → ℕ → User → List User → Outcome User × List User
unfolding first_row renamed new_user
save_user (some e) now u table = (err e, table)
save_user none now u table =
    upserted now u (first_row (λ row. row.uid == u.uid) table)
      (first_row (λ row. row.user_id == u.user_id) table) table

-- `UserRoleName`
pub data UserRoleName : Type 0 where
  role_user role_admin : UserRoleName

pub record UserRole : Type 0 where
  pub role_id : String
  pub role_name : UserRoleName
  pub role_user_id : String
