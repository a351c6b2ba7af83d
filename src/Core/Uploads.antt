-- ===== src/Core/Uploads.antt =====
-- The uploads of internal/core/image.go, stream_image.go and user_profile_image.go, and what
-- internal/core/stream_image_db_store.go and user_profile_image_db_storage.go store.
pub mod Laws
use livelook_sfu.Common.{
  ℕ, zero, suc, Bool, true, false, Option, none, some, String, List, [], ◌∷◌, ◌++◌, length, drop,
  map, codes, lookup, insert, ◌==◌, bytes_eq, nat_eq, if◌then◌else◌, Outcome, ok, err, panic, Error,
  return_error, ℤ, pos, negsuc,
}
use livelook_sfu.Eventbus.Rpc.{UserSessionId}
use livelook_sfu.Core.Images.{Bytes, ImageFile, id_parts, dir, path}

-- The multipart form: its error, the file of the image (its name and its content), and the text.
pub record Upload : Type 0 where
  pub parse_reply : Option Error
  pub form_file : Outcome (Bytes × Bytes)
  pub form_value : Bytes

-- How the operating system answers. `copy_reply` is the error of `io.Copy` with the number of
-- bytes that have been written before it.
pub record DiskReplies : Type 0 where
  pub mkdir_reply : Option Error
  pub open_reply : Option Error
  pub copy_reply : Option (Error × ℕ)

abbrev pub Disk : Type 0
Disk = List (Bytes × Bytes)

-- Writing from the start of a file that is opened without O_TRUNC.
unfoldable pub overwrite : Bytes → Bytes → Bytes
overwrite content old = content ++ drop (length content) old

abbrev pub content_of : Option Bytes → Bytes
content_of none = []
content_of (some old) = old

unfoldable pub write_file : Bytes → Bytes → Disk → Disk
unfolding overwrite
write_file name content disk = insert name (overwrite content (content_of (lookup name disk))) disk

unfoldable pub prefix_of : ℕ → Bytes → Bytes
prefix_of n [] = []
prefix_of zero (c ∷ rest) = []
prefix_of (suc n) (c ∷ rest) = c ∷ prefix_of n rest

abbrev pub copied : Option (Error × ℕ) → Bytes → Bytes → Disk → Outcome (Unit {0}) × Disk
copied none name content disk = (ok tt, write_file name content disk)
copied (some (e, n)) name content disk = (err e, write_file name (prefix_of n content) disk)

-- `photoPath, _ := img.path(saveDir)`
abbrev pub path_or_empty : Outcome Bytes → Bytes
path_or_empty (ok p) = p
path_or_empty (err e) = []
path_or_empty panic = []

abbrev pub opened_file :
    DiskReplies → Option Error → Bytes → Bytes → Disk → Outcome (Unit {0}) × Disk
opened_file replies (some e) name content disk = (err e, disk)
opened_file replies none name content disk = copied replies.copy_reply name content disk

abbrev pub made_dir : DiskReplies → Option Error → Bytes → Bytes → Disk → Outcome (Unit {0}) × Disk
made_dir replies (some e) name content disk = (err e, disk)
made_dir replies none name content disk = opened_file replies replies.open_reply name content disk

abbrev pub in_dir : DiskReplies → Outcome Bytes → Bytes → Bytes → Disk → Outcome (Unit {0}) × Disk
in_dir replies (err e) name content disk = (err e, disk)
in_dir replies panic name content disk = (panic, disk)
in_dir replies (ok img_dir) name content disk =
    made_dir replies replies.mkdir_reply name content disk

abbrev pub with_parts :
    DiskReplies
    → Bytes
    → Bytes
    → ImageFile
    → Outcome (List Bytes)
    → Disk
    → (Outcome (Unit {0}) × Disk) × ImageFile
with_parts replies save_dir content img (err e) disk = ((err e, disk), img)
with_parts replies save_dir content img panic disk = ((panic, disk), img)
with_parts replies save_dir content img (ok parts) disk =
    let img' = record img { id_partitions = parts } in
    (in_dir replies (dir save_dir img') (path_or_empty (path save_dir img')) content disk, img')

-- The end of all three handlers, from the parts of the ID on.
unfoldable pub store_file :
    DiskReplies → Bytes → Bytes → ImageFile → Disk → (Outcome (Unit {0}) × Disk) × ImageFile
unfolding write_file prefix_of
store_file replies save_dir content img disk =
    with_parts replies save_dir content img (id_parts img) disk

-- A row of the sessions table, as far as the upload of a cover changes it.
pub record CoverRow : Type 0 where
  pub row_id : ℤ
  pub image_filename : Option Bytes
  pub title : Bytes
  pub updated_at : ℕ

-- `streamImageDbStore.Save`: UPDATE sessions SET … WHERE id = …
unfoldable pub int_beq : ℤ → ℤ → Bool
int_beq (pos m) (pos n) = m == n
int_beq (negsuc m) (negsuc n) = m == n
int_beq _ _ = false

unfoldable pub update_covers : ℕ → ImageFile → Bytes → List CoverRow → List CoverRow
unfolding int_beq
update_covers now img description [] = []
update_covers now img description (row ∷ rows) =
    (if int_beq row.row_id img.image_id
      then record row { image_filename = some img.filename; title = description; updated_at = now }
      else row)
    ∷ update_covers now img description rows

-- What an upload leaves: the image, the rows and the files.
pub record Uploaded : Type 0 where
  pub image : ImageFile
  pub covers : List CoverRow
  pub disk : Disk

abbrev pub on_disk :
    Uploaded → (Outcome (Unit {0}) × Disk) × ImageFile → Outcome (Unit {0}) × Uploaded
on_disk s ((r, disk), img) = (r, record s { image = img; disk = disk })

module _ (replies : DiskReplies) (root_dir : Bytes) where
  abbrev pub cover_saved :
      Option Error → ℕ → Bytes → Bytes → Uploaded → Outcome (Unit {0}) × Uploaded
  cover_saved (some e) now description content s = (err e, s)
  cover_saved none now description content s =
      let s' = record s { covers = update_covers now s.image description s.covers } in
      on_disk s'
        (store_file replies (root_dir ++ codes "/static/stream_images") content s'.image s'.disk)

  abbrev pub cover_named :
      Option Error → ℕ → Bytes → Outcome (Bytes × Bytes) → Uploaded → Outcome (Unit {0}) × Uploaded
  cover_named database now description (err e) s = (err e, s)
  cover_named database now description panic s = (panic, s)
  cover_named database now description (ok (name, content)) s =
      cover_saved database now description content
        (record s { image = record s.image { filename = name } })

  abbrev pub cover_parsed :
      Option Error → Option Error → ℕ → Upload → Uploaded → Outcome (Unit {0}) × Uploaded
  cover_parsed (some e) database now upload s = (err e, s)
  cover_parsed none database now upload s =
      cover_named database now upload.form_value upload.form_file s

  -- `StreamImage.UploadHandle`
  unfoldable pub stream_image_upload_handle :
      Option Error → ℕ → Upload → Uploaded → Outcome (Unit {0}) × Uploaded
  unfolding update_covers store_file
  stream_image_upload_handle database now upload s =
      cover_parsed upload.parse_reply database now upload s

  -- `userProfileImageDbStorage.Save`, which stores nothing.
  abbrev pub profile_image_save : ImageFile → Outcome ℤ
  profile_image_save img = ok (pos 100500)

  abbrev pub profile_saved : Bytes → Outcome ℤ → Uploaded → Outcome (Unit {0}) × Uploaded
  profile_saved content (err e) s = (err e, s)
  profile_saved content panic s = (panic, s)
  profile_saved content (ok id) s =
      let img = record s.image { image_id = id } in
      on_disk (record s { image = img })
        (store_file replies (root_dir ++ codes "/static/user_profile_images") content img s.disk)

  abbrev pub profile_named : Outcome (Bytes × Bytes) → Uploaded → Outcome (Unit {0}) × Uploaded
  profile_named (err e) s = (err e, s)
  profile_named panic s = (panic, s)
  profile_named (ok (name, content)) s =
      let img = record s.image { filename = name } in
      profile_saved content (profile_image_save img) (record s { image = img })

  abbrev pub profile_parsed : Option Error → Upload → Uploaded → Outcome (Unit {0}) × Uploaded
  profile_parsed (some e) upload s = (err e, s)
  profile_parsed none upload s = profile_named upload.form_file s

  -- `UserProfileImage.UploadHandle`
  unfoldable pub user_profile_image_upload_handle :
      Upload → Uploaded → Outcome (Unit {0}) × Uploaded
  unfolding store_file
  user_profile_image_upload_handle upload s = profile_parsed upload.parse_reply upload s
