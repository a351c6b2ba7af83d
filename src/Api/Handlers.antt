-- ===== src/Api/Handlers.antt =====
-- The handlers of internal/api/app.go and of the list of internal/api/streams_handler.go. Every
-- handler is given how the calls that it makes answer.
pub mod Uploads
use livelook_sfu.Common.{
  ℕ, ◌≡◌, Bool, true, false, Option, none, some, List, [], ◌∷◌, ◌++◌, String, codes, Outcome, ok,
  err, panic, Error, pos,
}
use Prim.Native.String.{◌++◌ as append_text}
use livelook_sfu.Eventbus.Json.{Json}
use livelook_sfu.Eventbus.Rpc.{UserSessionId}
use livelook_sfu.Core.Images.{Bytes, ImageFile}
use livelook_sfu.Core.Sessions.{Session, SessionsTable, OnlineStreams, find_by_user_id, get_all}
use livelook_sfu.Core.Uploads.{
  Upload, DiskReplies, Uploaded, CoverRow, Disk, stream_image_upload_handle,
  user_profile_image_upload_handle,
}
use livelook_sfu.Core.Users.{User, Sql, new_user, read_user, auth_admin_user, save_user}
use livelook_sfu.Api.Auth.{user_from_request}
use livelook_sfu.Api.Response.{Response, no_response, write_header, write_body, page, encoded}

-- GET /admin/login and GET /admin
unfoldable pub show_page : Option Error → Outcome Response
show_page template = ok (page template no_response)

abbrev pub session_saved : String → UserSessionId → Option Error → Outcome Response
session_saved root_url id (some e) = ok (write_header 401 no_response)
session_saved root_url id none = ok (
    write_header 302 (record no_response {
      admin_session = some id;
      location = some (append_text root_url "/admin");
    }))

abbrev pub logged_in :
    String → Option Error → Option Error → Outcome (Option User) → Outcome Response
logged_in root_url template session (err e) = ok (write_header 401 no_response)
logged_in root_url template session panic = panic
logged_in root_url template session (ok none) = ok (page template (write_header 401 no_response))
logged_in root_url template session (ok (some u)) = session_saved root_url u.user_id session

-- POST /admin/login
unfoldable pub admin_login :
    Sql
    → String
    → Option Error
    → Option Error
    → Option Error
    → String
    → String
    → List User
    → Outcome Response
unfolding auth_admin_user
admin_login sql root_url database template session email password users =
    logged_in root_url template session (auth_admin_user sql database email password users)

-- DELETE /admin/login, which sets no cookie.
unfoldable pub admin_logout : String → Outcome Response
admin_logout root_url =
    ok (write_header 302 (record no_response { location = some (append_text root_url "/login") }))

abbrev pub streams_listed : Option Error → Outcome OnlineStreams → Outcome Response
streams_listed encoding (err e) = ok (write_header 404 no_response)
streams_listed encoding panic = panic
streams_listed encoding (ok s) =
    ok (encoded 500 encoding (record no_response { page_total = some s.page_count }))

-- `StreamListHandler`
unfoldable pub stream_list_handler :
    Option Error → Option Error → Option Error → List Session → Outcome Response
unfolding get_all
stream_list_handler count select encoding ordered =
    streams_listed encoding (get_all 1 50 count select ordered)

abbrev pub user_saved : Option Error → Outcome User × List User → Outcome Response × List User
user_saved encoding (ok u, users) = (ok (encoded 400 encoding no_response), users)
user_saved encoding (err e, users) = (ok (write_header 400 no_response), users)
user_saved encoding (panic, users) = (panic, users)

abbrev pub user_decoded :
    Option Error → Option Error → ℕ → Outcome User → List User → Outcome Response × List User
user_decoded database encoding now (ok u) users =
    user_saved encoding (save_user database now u users)
user_decoded database encoding now (err e) users = (ok (write_header 400 no_response), users)
user_decoded database encoding now panic users = (panic, users)

abbrev pub body_read : UserSessionId → Outcome Json → Outcome User
body_read uuid (ok body) = read_user (new_user uuid) body
body_read uuid (err e) = err e
body_read uuid panic = panic

-- POST /api/v1/users
unfoldable pub create_user_handler :
    Option Error
    → Option Error
    → ℕ
    → UserSessionId
    → Outcome Json
    → List User
    → Outcome Response × List User
unfolding new_user read_user save_user
create_user_handler database encoding now uuid body users =
    user_decoded database encoding now (body_read uuid body) users

-- The four endpoints of dialogs.
unfoldable pub dialogs_handler : Outcome Response
dialogs_handler = ok (write_header 501 no_response)

abbrev pub user_shown : Option Error → Outcome User → Outcome Response
user_shown encoding (ok u) = ok (encoded 400 encoding no_response)
user_shown encoding (err e) = ok (write_header 400 no_response)
user_shown encoding panic = panic

-- GET /api/v1/current_user
unfoldable pub current_user_handler : Option Error → Option User → Outcome Response
current_user_handler encoding user = user_shown encoding (user_from_request user)

-- `authFailedFunc`
unfoldable pub auth_failed_func : Outcome Response
auth_failed_func = ok (write_header 401 no_response)
