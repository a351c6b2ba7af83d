-- ===== src/Api/App/Covers.antt =====
-- The cover of a stream, for a user who has no session.
use livelook_sfu.Common.{
  ◌≡◌, refl, sym, ap, subst, none, [], lookup, string_eq, Outcome, ok, pos, arith,
}
use livelook_sfu.Eventbus.Rpc.{UserSessionId}
use livelook_sfu.Core.Images.{Bytes, id_parts}
use livelook_sfu.Core.Sessions.{SessionsTable, session_of, find_by_user_id}
use livelook_sfu.Core.Users.{User}
use livelook_sfu.Core.Uploads.{update_covers, stream_image_upload_handle, store_file}
use livelook_sfu.Core.Uploads.Laws.{IsCovered, update_covers-IsCovered}
use livelook_sfu.Api.Auth.{AuthReplies, next_served, default_middleware}
use livelook_sfu.Api.Response.{Response, no_response, write_header}
use livelook_sfu.Api.Handlers.Uploads.{stream_update_handler}
use livelook_sfu.Api.App.{put_stream, ApiState, Call, serve_request}

find-missing :
    (user : UserSessionId) (table : SessionsTable)
    → lookup user table.rows ≡ none
    → find_by_user_id none user table ≡ ok (session_of "")
unfolding find_by_user_id
find-missing user table h = ground arith

answered_422 :
    (c : Call) (a : AuthReplies) (u : User) (s : ApiState) (name content : Bytes)
    → default_middleware a ≡ next_served u
    → lookup u.user_id s.session_rows.rows ≡ none
    → c.find_session_reply ≡ none
    → c.database_reply ≡ none
    → c.form.parse_reply ≡ none
    → c.form.form_file ≡ ok (name, content)
    → serve_request c a put_stream s ≡ (
      ok (write_header 422 no_response),
      record s {
        file_state = record s.file_state {
          cover_rows =
              update_covers c.now
                (record { id_partitions = []; image_id = pos 0; filename = name })
                c.form.form_value
                s.file_state.cover_rows;
        };
      },
    )
unfolding serve_request stream_update_handler stream_image_upload_handle store_file session_of
    id_parts
answered_422 c a u s name content passed missing found saved parsed file = rw passed (
    rw found
      (rw (find-missing u.user_id s.session_rows missing) (rw parsed (rw file (rw saved refl)))))

-- A user who has been admitted and has no session gets the status 422, not 404, for a cover that can be
-- read, where the database answers: the handler goes on with an empty session, whose ID is 0. The row
-- with the ID 0, if there is one, has then been given the name, the text and the time; the other rows
-- and the files are as they were.
pub put_stream-missing_session :
    (c : Call) (a : AuthReplies) (u : User) (s : ApiState) (name content : Bytes)
    → default_middleware a ≡ next_served u
    → lookup u.user_id s.session_rows.rows ≡ none
    → c.find_session_reply ≡ none
    → c.database_reply ≡ none
    → c.form.parse_reply ≡ none
    → c.form.form_file ≡ ok (name, content)
    → ((serve_request c a put_stream s).0 ≡ ok (write_header 422 no_response))
      × IsCovered 0 name c.form.form_value c.now s.file_state.cover_rows
          (serve_request c a put_stream s).1.file_state.cover_rows
      × ((serve_request c a put_stream s).1.file_state.files ≡ s.file_state.files)
put_stream-missing_session c a u s name content passed missing found saved parsed file =
    let e = answered_422 c a u s name content passed missing found saved parsed file in
    (
      ap (λ r. r.0) e,
      subst
          (λ (r : Outcome Response × ApiState).
            IsCovered 0 name c.form.form_value c.now s.file_state.cover_rows
              r.1.file_state.cover_rows)
          (sym e)
          (update_covers-IsCovered c.now 0 name c.form.form_value [] s.file_state.cover_rows),
      ap (λ (r : Outcome Response × ApiState). r.1.file_state.files) e,
    )
