-- ===== src/Api/App/Laws.antt =====
-- What a request to the API of internal/api/app.go can do, and who can make it.
use livelook_sfu.Common.{
  ◌≡◌, refl, ap, ◌∙◌, ◌⊎◌, inl, inr, Bool, true, false, Option, none, some, List, [], ◌∷◌, String,
  string_eq, Outcome, ok, err, panic, Error,
}
use livelook_sfu.Core.Users.{User, Sql, auth_admin_user, save_user}
use livelook_sfu.Core.Users.Laws.{nameless_outcome, save_user-login}
use livelook_sfu.Api.Auth.{
  AuthReplies, AuthResult, next_served, auth_failed, auth_crashed, default_middleware,
}
use livelook_sfu.Api.Auth.Laws.{IsAdmin, HasToken, default_middleware_lem}
use livelook_sfu.Api.Handlers.{create_user_handler, user_decoded, body_read, user_saved}
use livelook_sfu.Api.App.{
  Endpoint, get_admin_login, post_admin_login, delete_admin_login, get_streams, post_users,
  ApiState, Call, run_endpoint, admitted, guarded, is_protected, serve_request,
}

admitted-changes :
    (c : Call) (a : AuthReplies) (e : Endpoint) (x : AuthResult) (s : ApiState)
    → default_middleware a ≡ x
    → ((admitted c e x s).1 ≡ s) ⊎ ((u : User) × (IsAdmin a u ⊎ HasToken a u))
admitted-changes c a e (next_served u) s h = inr (u, default_middleware_lem a u h)
admitted-changes c a e (auth_failed reason) s h = inl refl
admitted-changes c a e auth_crashed s h = inl refl

-- A request changes the users, the covers or the files only as the admin of its session, or as the
-- user whose token has been verified.
pub serve_request-changes :
    (c : Call) (a : AuthReplies) (e : Endpoint) (s : ApiState)
    → ((serve_request c a e s).1 ≡ s) ⊎ ((u : User) × (IsAdmin a u ⊎ HasToken a u))
unfolding serve_request
serve_request-changes c a get_admin_login s = inl refl
serve_request-changes c a post_admin_login s = inl refl
serve_request-changes c a delete_admin_login s = inl refl
serve_request-changes c a get_streams s = inl refl
serve_request-changes c a e s = admitted-changes c a e (default_middleware a) s refl

module _ (sql : Sql) (reply : Option Error) (email password : String) where
  -- What a login as an admin answers, but for the name.
  abbrev pub login_of : List User → Outcome (Option User)
  login_of users = nameless_outcome (auth_admin_user sql reply email password users)

  user_saved-login :
      (encoding : Option Error) (x : Outcome User × List User) → (user_saved encoding x).1 ≡ x.1
  user_saved-login encoding (ok u, users) = refl
  user_saved-login encoding (err e, users) = refl
  user_saved-login encoding (panic, users) = refl

  user_decoded-login :
      (database encoding : Option Error) (now : _) (x : Outcome User) (users : List User)
      → login_of (user_decoded database encoding now x users).1 ≡ login_of users
  user_decoded-login database encoding now (ok u) users =
      ap login_of (user_saved-login encoding (save_user database now u users))
      ∙ save_user-login sql email password database reply now u users
  user_decoded-login database encoding now (err e) users = refl
  user_decoded-login database encoding now panic users = refl

  run_endpoint-login :
      (c : Call) (user : Option User) (e : Endpoint) (s : ApiState)
      → login_of (run_endpoint c user e s).1.users ≡ login_of s.users
  unfolding run_endpoint create_user_handler
  run_endpoint-login c user post_users s =
      user_decoded-login c.database_reply c.encoding_reply c.now (body_read c.uuid c.json_body)
        s.users
  run_endpoint-login c user e s = refl

  admitted-login :
      (c : Call) (e : Endpoint) (x : AuthResult) (s : ApiState)
      → login_of (admitted c e x s).1.users ≡ login_of s.users
  admitted-login c e (next_served u) s = run_endpoint-login c (some u) e s
  admitted-login c e (auth_failed reason) s = refl
  admitted-login c e auth_crashed s = refl

  serve_request-login :
      (c : Call) (a : AuthReplies) (e : Endpoint) (s : ApiState)
      → login_of (serve_request c a e s).1.users ≡ login_of s.users
  unfolding serve_request
  serve_request-login c a e s = guarded-login (is_protected e)
    where
      guarded-login : (b : Bool) → login_of (guarded c a e b s).1.users ≡ login_of s.users
      guarded-login true = admitted-login c e (default_middleware a) s
      guarded-login false = run_endpoint-login c none e s

-- The requests that a server takes, one after the other.
abbrev pub serve_requests : List (Call × AuthReplies × Endpoint) → ApiState → ApiState
serve_requests [] s = s
serve_requests ((c, a, e) ∷ rest) s = serve_requests rest (serve_request c a e s).1

-- No sequence of requests, of anyone, gives or takes the login of an admin: afterwards an email and a
-- password log in the same user as before, but for a name.
pub requests-login :
    (sql : Sql) (reply : Option Error) (email password : String)
    (requests : List (Call × AuthReplies × Endpoint)) (s : ApiState)
    → login_of sql reply email password (serve_requests requests s).users
      ≡ login_of sql reply email password s.users
requests-login sql reply email password [] s = refl
requests-login sql reply email password ((c, a, e) ∷ rest) s =
    requests-login sql reply email password rest (serve_request c a e s).1
    ∙ serve_request-login sql reply email password c a e s
