-- ===== src/Core/Images.antt =====
-- internal/core/image.go, stream_image.go and user_profile_image.go: where the images of the
-- users are stored and how they are uploaded. A text is the list of its bytes.
pub mod Spelling
pub mod Paths
use livelook_sfu.Common.{
  ℕ, zero, suc, ◌+◌, Bool, true, false, Option, none, some, String, List, [], ◌∷◌, ◌++◌, length,
  drop, codes, ◌==◌, nat_eq, if◌then◌else◌, Outcome, ok, err, panic, Error, ℤ, pos, negsuc,
}
use livelook_sfu.Core.IdPartition.{id_partition, decimal}

abbrev pub Bytes : Type 0
Bytes = List ℕ

-- `strings.Join(parts, "/")`
unfoldable pub join_slash : List Bytes → Bytes
join_slash [] = []
join_slash (x ∷ []) = x
join_slash (x ∷ y ∷ rest) = x ++ (b'/' ∷ join_slash (y ∷ rest))

-- `filepath.Ext(path)`: from the last dot of the last element. `ext_from` reads from the left,
-- with what it has found so far.
unfoldable pub ext_from : Bytes → Bytes → Bytes
ext_from found [] = found
ext_from found (c ∷ rest) =
    let reset = ext_from [] rest in
    let dot = ext_from (c ∷ rest) rest in
    let more = ext_from found rest in if c == b'/' then reset else if c == b'.' then dot else more

unfoldable pub ext : Bytes → Bytes
unfolding ext_from
ext path = ext_from [] path

-- `%d` of an int64
unfoldable pub show_int : ℤ → Bytes
unfolding decimal
show_int (pos n) = decimal 20 n []
show_int (negsuc n) = b'-' ∷ decimal 20 (suc n) []

-- The fields of an image that the paths depend on: `idPartitions`, the ID and `Filename`.
pub record ImageFile : Type 0 where
  pub id_partitions : List Bytes
  pub image_id : ℤ
  pub filename : Bytes

-- The parts that are kept, else those of the ID.
unfoldable pub id_parts : ImageFile → Outcome (List Bytes)
unfolding id_partition
id_parts img = elim img.id_partitions [ [] ↦ id_partition img.image_id | p ∷ ps ↦ ok (p ∷ ps) ]

-- `dirs[:len(dirs)-1]` and `dirs[len(dirs)-1]`, which panic on an empty slice.
unfoldable pub split_last : List Bytes → Option (List Bytes × Bytes)
split_last [] = none
split_last (x ∷ rest) = elim (split_last rest) [
  | none ↦ some ([], x)
  | some (dirs, last) ↦ some (x ∷ dirs, last)
]

abbrev pub dir_over : Bytes → Option (List Bytes × Bytes) → Outcome Bytes
dir_over prefix none = panic
dir_over prefix (some (dirs, last)) = ok (prefix ++ (b'/' ∷ join_slash dirs))

abbrev pub dir_of : Bytes → Outcome (List Bytes) → Outcome Bytes
dir_of prefix (ok dirs) = dir_over prefix (split_last dirs)
dir_of prefix (err e) = err e
dir_of prefix panic = panic

-- `dir` (`Dir` of the other two types)
unfoldable pub dir : Bytes → ImageFile → Outcome Bytes
dir prefix img = dir_of prefix (id_parts img)

abbrev pub original : Bytes
original = codes "_original"

-- dirs[len(dirs)-1] + "_original" + filepath.Ext(img.Filename)
abbrev pub file_name : Bytes → Bytes → Bytes
file_name last filename = last ++ (original ++ ext filename)

abbrev pub path_over : Bytes → Bytes → Option (List Bytes × Bytes) → Outcome Bytes
path_over photo_dir filename none = panic
path_over photo_dir filename (some (dirs, last)) =
    ok (photo_dir ++ (b'/' ∷ file_name last filename))

abbrev pub path_in : Bytes → ImageFile → Outcome (List Bytes) → Outcome Bytes
path_in photo_dir img (ok dirs) = path_over photo_dir img.filename (split_last dirs)
path_in photo_dir img (err e) = err e
path_in photo_dir img panic = panic

abbrev pub path_of : ImageFile → Outcome Bytes → Outcome Bytes
path_of img (ok photo_dir) = path_in photo_dir img (id_parts img)
path_of img (err e) = err e
path_of img panic = panic

-- `path` (`Path` of the other two types)
unfoldable pub path : Bytes → ImageFile → Outcome Bytes
path prefix img = path_of img (dir prefix img)

-- The URL pattern of the stream images and of the profile images, with its two arguments.
abbrev pub image_url : ℤ → Outcome Bytes → Outcome Bytes
image_url stamp (ok img_path) =
    ok (codes "/rs/fit/760/760/sm/0/plain/local://" ++ (img_path ++ (b'?' ∷ show_int stamp)))
image_url stamp (err e) = err e
image_url stamp panic = panic

-- `StreamImage.URL` is given `UpdatedAt.Unix()`, `UserProfileImage.URL` `CreatedAt.UnixNano()`.
unfoldable pub stream_image_url : ℤ → ImageFile → Outcome Bytes
unfolding path show_int
stream_image_url updated_unix img = image_url updated_unix (path (codes "/stream_images") img)

unfoldable pub user_profile_image_url : ℤ → ImageFile → Outcome Bytes
unfolding path show_int
user_profile_image_url created_unix_nano img =
    image_url created_unix_nano (path (codes "/user_profile_images") img)
