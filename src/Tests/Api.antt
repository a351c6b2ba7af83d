-- ===== src/Tests/Api.antt =====
-- The middleware at a concrete request.
use livelook_sfu.Common.{◌≡◌, refl, ◌⊎◌, false, none, some, ok}
use livelook_sfu.Core.Users.{User}
use livelook_sfu.Api.Auth.{AuthReplies, next_served, default_middleware}
use livelook_sfu.Api.Auth.Laws.{IsAdmin, HasToken, default_middleware_lem}

abbrev pub alice : User
alice = record {
  user_id = "alice";
  uid = "uid";
  name = "Alice";
  created_at = none;
  is_admin = false;
  email = none;
  password = none;
}

-- An admin session of a user who is no admin, with a token.
abbrev request : AuthReplies
request = record {
  admin_id = some "bob";
  auth_header = "token";
  find = λ id. ok (record alice { user_id = "bob" });
  dial_reply = none;
  verify = λ token. ok "uid";
  find_by_uid = λ uid. ok alice;
}

request_served : default_middleware request ≡ next_served alice
unfolding default_middleware
request_served = refl

default_middleware_lem_example : IsAdmin request alice ⊎ HasToken request alice
default_middleware_lem_example = default_middleware_lem request alice request_served
