-- ===== src/Api/App.antt =====
-- `Router` of internal/api/app.go: which endpoints stand behind the middleware, and what a request to
-- each does. That chi finds the endpoint of a method and a path is its own business.
pub mod Laws
pub mod Logins
pub mod Covers
use livelook_sfu.Common.{
  ℕ, ◌≡◌, Bool, true, false, Option, none, some, List, [], ◌∷◌, String, if◌then◌else◌, Outcome, ok,
  err, panic, Error,
}
use livelook_sfu.Eventbus.Json.{Json}
use livelook_sfu.Eventbus.Rpc.{UserSessionId}
use livelook_sfu.Core.Images.{Bytes}
use livelook_sfu.Core.Sessions.{Session, SessionsTable}
use livelook_sfu.Core.Uploads.{Upload, DiskReplies}
use livelook_sfu.Core.Users.{User, Sql}
use livelook_sfu.Api.Auth.{
  AuthReplies, AuthResult, next_served, auth_failed, auth_crashed, default_middleware,
}
use livelook_sfu.Api.Response.{Response}
use livelook_sfu.Api.Handlers.{
  show_page, admin_login, admin_logout, stream_list_handler, create_user_handler, dialogs_handler,
  current_user_handler, auth_failed_func,
}
use livelook_sfu.Api.Handlers.Uploads.{Files, stream_update_handler, profile_image_handler}

pub data Endpoint : Type 0 where
  get_admin_login post_admin_login delete_admin_login get_admin : Endpoint
  get_streams put_stream post_users post_profile_images get_current_user : Endpoint
  get_dialogs get_dialog post_dialogs post_messages : Endpoint

-- The method and the pattern of each.
abbrev pub routes : List (Endpoint × String × String)
routes =
    (get_admin_login, "GET", "/admin/login")
    ∷ (post_admin_login, "POST", "/admin/login")
    ∷ (delete_admin_login, "DELETE", "/admin/login")
    ∷ (get_admin, "GET", "/admin/")
    ∷ (get_streams, "GET", "/api/v1/streams")
    ∷ (put_stream, "PUT", "/api/v1/stream")
    ∷ (post_users, "POST", "/api/v1/users")
    ∷ (post_profile_images, "POST", "/api/v1/profile/images")
    ∷ (get_dialogs, "GET", "/api/v1/dialogs")
    ∷ (get_dialog, "GET", "/api/v1/dialogs/{id}")
    ∷ (post_dialogs, "POST", "/api/v1/dialogs")
    ∷ (post_messages, "POST", "/api/v1/dialogs/{id}/messages")
    ∷ (get_current_user, "GET", "/api/v1/current_user")
    ∷ []

-- The routes that are declared outside `With(app.authMiddleware)`.
unfoldable pub is_protected : Endpoint → Bool
is_protected get_admin_login = false
is_protected post_admin_login = false
is_protected delete_admin_login = false
is_protected get_streams = false
is_protected _ = true

-- What the endpoints read and write.
pub record ApiState : Type 0 where
  pub users : List User
  pub session_rows : SessionsTable
  pub file_state : Files

-- A request, and how the calls answer that its handler makes.
pub record Call : Type 0 where
  pub sql : Sql
  pub root_url : String
  pub upload_root : Bytes
  pub template_reply : Option Error
  pub database_reply : Option Error
  pub find_session_reply : Option Error
  pub count_reply : Option Error
  pub select_reply : Option Error
  pub cookie_reply : Option Error
  pub encoding_reply : Option Error
  pub disk_replies : DiskReplies
  pub now : ℕ
  pub uuid : UserSessionId
  pub ordered_sessions : List Session
  pub form_email : String
  pub form_password : String
  pub json_body : Outcome Json
  pub form : Upload

abbrev pub unchanged : Outcome Response → ApiState → Outcome Response × ApiState
unchanged w s = (w, s)

abbrev pub with_files : ApiState → Outcome Response × Files → Outcome Response × ApiState
with_files s (w, f) = (w, record s { file_state = f })

abbrev pub with_users : ApiState → Outcome Response × List User → Outcome Response × ApiState
with_users s (w, us) = (w, record s { users = us })

-- The handler of each endpoint, with the user that the middleware has put into the context.
unfoldable pub run_endpoint : Call → Option User → Endpoint → ApiState → Outcome Response × ApiState
unfolding show_page admin_login admin_logout stream_list_handler create_user_handler dialogs_handler
    current_user_handler stream_update_handler profile_image_handler
run_endpoint c user get_admin_login s = unchanged (show_page c.template_reply) s
run_endpoint c user post_admin_login s =
    unchanged
      (admin_login c.sql c.root_url c.database_reply c.template_reply c.cookie_reply c.form_email
        c.form_password s.users)
      s
run_endpoint c user delete_admin_login s = unchanged (admin_logout c.root_url) s
run_endpoint c user get_admin s = unchanged (show_page c.template_reply) s
run_endpoint c user get_streams s =
    unchanged (stream_list_handler c.count_reply c.select_reply c.encoding_reply c.ordered_sessions)
      s
run_endpoint c user put_stream s = with_files s (
    stream_update_handler c.disk_replies c.upload_root c.find_session_reply c.database_reply c.now
      c.form s.session_rows user s.file_state)
run_endpoint c user post_users s =
    with_users s
      (create_user_handler c.database_reply c.encoding_reply c.now c.uuid c.json_body s.users)
run_endpoint c user post_profile_images s =
    with_files s (profile_image_handler c.disk_replies c.upload_root c.form user s.file_state)
run_endpoint c user get_dialogs s = unchanged dialogs_handler s
run_endpoint c user get_dialog s = unchanged dialogs_handler s
run_endpoint c user post_dialogs s = unchanged dialogs_handler s
run_endpoint c user post_messages s = unchanged dialogs_handler s
run_endpoint c user get_current_user s = unchanged (current_user_handler c.encoding_reply user) s

abbrev pub admitted : Call → Endpoint → AuthResult → ApiState → Outcome Response × ApiState
admitted c e (next_served u) s = run_endpoint c (some u) e s
admitted c e (auth_failed reason) s = (auth_failed_func, s)
admitted c e auth_crashed s = (panic, s)

abbrev pub guarded : Call → AuthReplies → Endpoint → Bool → ApiState → Outcome Response × ApiState
guarded c auth e true s = admitted c e (default_middleware auth) s
guarded c auth e false s = run_endpoint c none e s

-- A request to an endpoint.
unfoldable pub serve_request :
    Call → AuthReplies → Endpoint → ApiState → Outcome Response × ApiState
unfolding is_protected run_endpoint default_middleware auth_failed_func
serve_request c auth e s = guarded c auth e (is_protected e) s
