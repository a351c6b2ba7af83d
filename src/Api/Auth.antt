-- ===== src/Api/Auth.antt =====
-- internal/api/auth_middleware.go: the middleware that finds the user of a request.
pub mod Laws
use livelook_sfu.Common.{
  Bool, true, false, Option, none, some, String, ◌==◌, string_eq, if◌then◌else◌, Outcome, ok, err,
  panic, Error, external,
}
use livelook_sfu.Core.Users.{User}

-- What a request comes with, and what the code that is called answers: the `id` of the admin
-- session, the header X-Auth, the user repository, and the authentication service.
pub record AuthReplies : Type 0 where
  pub admin_id : Option String
  pub auth_header : String
  pub find : String → Outcome User
  pub dial_reply : Option Error
  pub verify : String → Outcome String
  pub find_by_uid : String → Outcome User

-- "can't get user from request context"
abbrev pub no_user_in_context : Error
no_user_in_context = external 3

-- Why `authFailed` is called.
pub data AuthError : Type 0 where
  empty_auth_token : AuthError
  auth_error : Error → AuthError

-- The next handler is called with a user in its context, or `authFailed` is.
pub data AuthResult : Type 0 where
  next_served : User → AuthResult
  auth_failed : AuthError → AuthResult
  auth_crashed : AuthResult

abbrev pub served_user : Outcome User → AuthResult
served_user (ok u) = next_served u
served_user (err e) = auth_failed (auth_error e)
served_user panic = auth_crashed

abbrev pub verified : AuthReplies → Outcome String → AuthResult
verified replies (ok uid) = served_user (replies.find_by_uid uid)
verified replies (err e) = auth_failed (auth_error e)
verified replies panic = auth_crashed

abbrev pub dialled : AuthReplies → Option Error → AuthResult
dialled replies (some e) = auth_failed (auth_error e)
dialled replies none = verified replies (replies.verify replies.auth_header)

abbrev pub with_token : AuthReplies → Bool → AuthResult
with_token replies true = auth_failed empty_auth_token
with_token replies false = dialled replies replies.dial_reply

abbrev pub by_token : AuthReplies → AuthResult
by_token replies = with_token replies (replies.auth_header == "")

abbrev pub if_admin : AuthReplies → User → Bool → AuthResult
if_admin replies u true = next_served u
if_admin replies u false = by_token replies

abbrev pub as_admin : AuthReplies → Outcome User → AuthResult
as_admin replies (ok u) = if_admin replies u u.is_admin
as_admin replies (err e) = by_token replies
as_admin replies panic = auth_crashed

abbrev pub by_session : AuthReplies → Option String → AuthResult
by_session replies none = by_token replies
by_session replies (some id) = as_admin replies (replies.find id)

-- The handler that `defaultMiddleware` returns.
unfoldable pub default_middleware : AuthReplies → AuthResult
default_middleware replies = by_session replies replies.admin_id

-- `userFromRequest`, of the context of a request.
abbrev pub user_from_request : Option User → Outcome User
user_from_request none = err no_user_in_context
user_from_request (some u) = ok u
