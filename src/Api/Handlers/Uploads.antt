-- ===== src/Api/Handlers/Uploads.antt =====
-- The handlers that take a file: the cover of a stream, internal/api/streams_handler.go, and the image
-- of a profile, internal/api/app.go.
use livelook_sfu.Common.{
  ℕ, Option, none, some, List, [], String, codes, Outcome, ok, err, panic, Error, pos,
}
use livelook_sfu.Eventbus.Rpc.{UserSessionId}
use livelook_sfu.Core.Images.{Bytes, ImageFile}
use livelook_sfu.Core.Sessions.{Session, SessionsTable, find_by_user_id}
use livelook_sfu.Core.Uploads.{
  Upload, DiskReplies, Uploaded, CoverRow, Disk, stream_image_upload_handle,
  user_profile_image_upload_handle,
}
use livelook_sfu.Core.Users.{User}
use livelook_sfu.Api.Auth.{user_from_request}
use livelook_sfu.Api.Response.{Response, no_response, write_header}

-- What the uploads change.
pub record Files : Type 0 where
  pub cover_rows : List CoverRow
  pub files : Disk

-- `NewStreamImage` and `NewUserProfileImage`
abbrev pub name_or_empty : Option String → Bytes
name_or_empty none = []
name_or_empty (some s) = codes s

abbrev pub new_stream_image : Session → ImageFile
new_stream_image session = record {
  id_partitions = [];
  image_id = pos session.id;
  filename = name_or_empty session.image_filename;
}

abbrev pub new_user_profile_image : UserSessionId → ImageFile
new_user_profile_image user = record { id_partitions = []; image_id = pos 0; filename = [] }

abbrev pub uploaded_by : Outcome (Unit {0}) × Uploaded → Outcome Response × Files
uploaded_by (ok _, s) =
    (ok (write_header 200 no_response), record { cover_rows = s.covers; files = s.disk })
uploaded_by (err e, s) =
    (ok (write_header 422 no_response), record { cover_rows = s.covers; files = s.disk })
uploaded_by (panic, s) = (panic, record { cover_rows = s.covers; files = s.disk })

module _ (disk : DiskReplies) (root_dir : Bytes) where
  -- A session is never nil here, since `FindByUserID` makes one.
  abbrev pub cover_for :
      Option Error → ℕ → Upload → Outcome Session → Files → Outcome Response × Files
  cover_for database now upload (err e) f = (ok (write_header 500 no_response), f)
  cover_for database now upload panic f = (panic, f)
  cover_for database now upload (ok session) f = uploaded_by (
      stream_image_upload_handle disk root_dir database now upload
        (record { image = new_stream_image session; covers = f.cover_rows; disk = f.files }))

  abbrev pub cover_of :
      Option Error
      → Option Error
      → ℕ
      → Upload
      → SessionsTable
      → Outcome User
      → Files
      → Outcome Response × Files
  cover_of found database now upload table (err e) f = (ok (write_header 404 no_response), f)
  cover_of found database now upload table panic f = (panic, f)
  cover_of found database now upload table (ok u) f =
      cover_for database now upload (find_by_user_id found u.user_id table) f

  -- `StreamUpdateHandler`
  unfoldable pub stream_update_handler :
      Option Error
      → Option Error
      → ℕ
      → Upload
      → SessionsTable
      → Option User
      → Files
      → Outcome Response × Files
  unfolding find_by_user_id stream_image_upload_handle
  stream_update_handler found database now upload table user f =
      cover_of found database now upload table (user_from_request user) f

  abbrev pub profile_image_of : Upload → Outcome User → Files → Outcome Response × Files
  profile_image_of upload (err e) f = (ok (write_header 400 no_response), f)
  profile_image_of upload panic f = (panic, f)
  profile_image_of upload (ok u) f = uploaded_by (
      user_profile_image_upload_handle disk root_dir upload (record {
        image = new_user_profile_image u.user_id;
        covers = f.cover_rows;
        disk = f.files;
      }))

  -- POST /api/v1/profile/images
  unfoldable pub profile_image_handler : Upload → Option User → Files → Outcome Response × Files
  unfolding user_profile_image_upload_handle
  profile_image_handler upload user f = profile_image_of upload (user_from_request user) f
