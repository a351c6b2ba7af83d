-- ===== src/Tests/App.antt =====
-- The API with an admin and a user.
use livelook_sfu.Common.{◌≡◌, ◌⊎◌, refl, true, none, some, [], ◌∷◌, ok, err, codes, lookup}
use livelook_sfu.Eventbus.Json.{str, obj, entry, no_members}
use livelook_sfu.Core.Users.{User, Sql, find_user, no_rows}
use livelook_sfu.Core.Users.Laws.{Row, LogsIn}
use livelook_sfu.Api.Auth.{AuthReplies, next_served, default_middleware}
use livelook_sfu.Api.Auth.Laws.{IsAdmin, HasToken}
use livelook_sfu.Api.Response.{Response, no_response, write_header}
use livelook_sfu.Api.Handlers.{admin_login}
use livelook_sfu.Api.App.{ApiState, Call, put_stream, post_users, delete_admin_login, serve_request}
use livelook_sfu.Api.App.Laws.{login_of, serve_requests, serve_request-changes, requests-login}
use livelook_sfu.Api.App.Logins.{login_passes}
use livelook_sfu.Core.Uploads.Laws.{IsCovered}
use livelook_sfu.Api.App.Covers.{put_stream-missing_session}
use livelook_sfu.Tests.Api.{alice}

abbrev root : User
root = record {
  user_id = "1";
  uid = "root";
  name = "Root";
  created_at = none;
  is_admin = true;
  email = some "root@localhost";
  password = some "hash";
}

-- The hash of every password is that of the stored one where it is "secret".
abbrev sql : Sql
sql = record { crypt = λ password salt. password; lower = λ s. s }

abbrev state : ApiState
state = record {
  users = record root { password = some "secret" } ∷ alice ∷ [];
  session_rows = record { rows = []; next_id = 1 };
  file_state = record { cover_rows = []; files = [] };
}

abbrev call : Call
call = record {
  sql = sql;
  root_url = "https://localhost:3001";
  upload_root = codes "/srv";
  template_reply = none;
  database_reply = none;
  find_session_reply = none;
  count_reply = none;
  select_reply = none;
  cookie_reply = none;
  encoding_reply = none;
  disk_replies = record { mkdir_reply = none; open_reply = none; copy_reply = none };
  now = 7;
  uuid = "2";
  ordered_sessions = [];
  form_email = "root@localhost";
  form_password = "secret";
  json_body = ok (obj (entry "uid" (str "root") (entry "name" (str "Mallory") no_members)));
  form = record { parse_reply = none; form_file = ok (codes "a.png", 1 ∷ []); form_value = [] };
}

-- A request with the token of alice.
abbrev token_request : AuthReplies
token_request = record {
  admin_id = none;
  auth_header = "token";
  find = λ id. err no_rows;
  dial_reply = none;
  verify = λ token. ok "uid";
  find_by_uid = λ uid. ok alice;
}

abbrev nobody : AuthReplies
nobody = record token_request { auth_header = "" }

serve_request-changes_example :
    ((serve_request call token_request post_users state).1 ≡ state)
    ⊎ ((u : User) × (IsAdmin token_request u ⊎ HasToken token_request u))
serve_request-changes_example = serve_request-changes call token_request post_users state

requests-login_example :
    login_of sql none "root@localhost" "secret"
      (serve_requests
        ((call, token_request, post_users) ∷ (call, nobody, post_users) ∷ [])
        state).users
    ≡ login_of sql none "root@localhost" "secret" state.users
requests-login_example =
    requests-login sql none "root@localhost" "secret"
      ((call, token_request, post_users) ∷ (call, nobody, post_users) ∷ []) state

abbrev cookie : Response
cookie = record no_response {
  status = some 302;
  location = some "https://localhost:3001/admin";
  admin_session = some "1";
}

login_passes_example :
    (u : User) × Row u state.users
    × LogsIn sql "root@localhost" "secret" u
    × (u.user_id ≡ "1")
    × (default_middleware
          (record nobody { admin_id = some "1"; find = λ i. find_user none i state.users })
        ≡ next_served u)
unfolding serve_request admin_login
login_passes_example =
    login_passes call nobody nobody state cookie "1" (((λ e. cc e), tt), (tt, tt)) refl refl

put_stream-missing_session_example :
    ((serve_request call token_request put_stream state).0 ≡ ok (write_header 422 no_response))
    × IsCovered 0
        (codes "a.png")
        call.form.form_value
        call.now
        state.file_state.cover_rows
        (serve_request call token_request put_stream state).1.file_state.cover_rows
    × ((serve_request call token_request put_stream state).1.file_state.files
        ≡ state.file_state.files)
unfolding default_middleware lookup
put_stream-missing_session_example =
    put_stream-missing_session call token_request alice state (codes "a.png") (1 ∷ []) refl refl
      refl refl refl refl

-- The session of the admin outlives a DELETE of the login.
logout_keeps_session :
    (serve_request call nobody delete_admin_login state).0
    ≡ ok (write_header 302 (record no_response { location = some "https://localhost:3001/login" }))
unfolding serve_request
logout_keeps_session = refl
