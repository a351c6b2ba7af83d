-- ===== src/Tests/Images.antt =====
-- The paths and the uploads at concrete inputs.
use livelook_sfu.Common.{
  ◌≡◌, ◌≢◌, refl, false, none, some, List, [], ◌∷◌, ◌++◌, All, codes, lookup, bytes_eq, bytes_beq,
  arith, ok, pos,
}
use livelook_sfu.Core.Images.{Bytes, path, dir, ext, id_parts, join_slash, split_last}
use livelook_sfu.Core.Images.Spelling.{IsDigit, has_slash}
use livelook_sfu.Core.Images.Paths.{stored_image, path_injective, path_beneath}
use livelook_sfu.Core.Uploads.{
  Disk, CoverRow, stream_image_upload_handle, user_profile_image_upload_handle,
}
use livelook_sfu.Core.Uploads.Laws.{
  disk_works, form, IsStored, IsCovered, stream_images, profile_images, stream_image_upload-ok,
  user_profile_image_upload-ok, shorter_upload_corrupts,
}

path_injective_example :
    path (codes "/p") (stored_image 1234 (codes "a.jpg"))
    ≢ path (codes "/p") (stored_image 12340 (codes "b"))
path_injective_example =
    path_injective (codes "/p") (codes "a.jpg") (codes "b") 1234 12340 (omega arith) (omega arith)
      (omega arith) (omega arith) (omega arith)

path_beneath_example :
    (dirs : List Bytes) × (name : Bytes) × (path (codes "/p") (stored_image 1234 (codes "a./../b"))
      ≡ ok (codes "/p" ++ (b'/' ∷ (join_slash dirs ++ (b'/' ∷ name)))))
    × All (All IsDigit) dirs
    × (has_slash name ≡ false)
path_beneath_example = path_beneath (codes "/p") (codes "a./../b") 1234 (omega arith) (omega arith)

abbrev cover_file : Bytes
cover_file = codes "/srv/static/stream_images/000/000/007_original.png"

cover_path : path (stream_images (codes "/srv")) (stored_image 7 (codes "me.png")) ≡ ok cover_file
unfolding path dir ext id_parts split_last join_slash
cover_path = refl

abbrev old_cover : Disk
old_cover = (cover_file, codes "long one") ∷ []

abbrev cover_rows : List CoverRow
cover_rows = record { row_id = pos 7; image_filename = none; title = []; updated_at = 0 } ∷ []

stream_image_upload-ok_example :
    let r =
      stream_image_upload_handle disk_works
        (codes "/srv")
        none
        5
        (form (codes "me.png") (codes "short") (codes "Hi"))
        (record { image = stored_image 7 []; covers = cover_rows; disk = old_cover }) in
    (r.0 ≡ ok tt)
    × IsCovered 7 (codes "me.png") (codes "Hi") 5 cover_rows r.1.covers
    × IsStored (stream_images (codes "/srv")) (codes "me.png") (codes "short") 7 old_cover r.1.disk
stream_image_upload-ok_example =
    stream_image_upload-ok (codes "/srv") (codes "me.png") (codes "short") (codes "Hi") [] 7 5
      cover_rows old_cover (omega arith) (omega arith)

user_profile_image_upload-ok_example :
    let r =
      user_profile_image_upload_handle disk_works
        (codes "/srv")
        (form (codes "me.png") (codes "short") [])
        (record {
          image = record { id_partitions = []; image_id = pos 0; filename = [] };
          covers = [];
          disk = [];
        }) in
    (r.0 ≡ ok tt)
    × IsStored (profile_images (codes "/srv")) (codes "me.png") (codes "short") 100500 [] r.1.disk
user_profile_image_upload-ok_example =
    user_profile_image_upload-ok (codes "/srv") (codes "me.png") (codes "short") [] [] (pos 0) [] []

old_cover_found : lookup cover_file old_cover ≡ some (codes "long one")
unfolding lookup bytes_beq
old_cover_found = refl

shorter_upload_corrupts_example :
    let r =
      stream_image_upload_handle disk_works
        (codes "/srv")
        none
        5
        (form (codes "me.png") (codes "short") (codes "Hi"))
        (record { image = stored_image 7 []; covers = cover_rows; disk = old_cover }) in
    lookup cover_file r.1.disk ≢ some (codes "short")
shorter_upload_corrupts_example =
    shorter_upload_corrupts (codes "/srv") (codes "me.png") (codes "short") (codes "Hi") []
      cover_file (codes "long one") 7 5 cover_rows old_cover (omega arith) (omega arith) cover_path
      old_cover_found (omega arith)
