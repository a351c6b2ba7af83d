-- ===== src/Core/Uploads/Laws.antt =====
-- What an upload leaves behind.
use livelook_sfu.Common.{
  ℕ, zero, suc, ◌<◌, ◌^◌, ◌≡◌, ◌≢◌, refl, ap, ◌∙◌, subst, none, some, List, [], ◌∷◌, ◌++◌, length,
  length-append, drop, lookup, lookup-insert, codes, ◌==◌, bytes_eq, bytes_beq_iff, if◌then◌else◌,
  arith, ok, ℤ, pos, negsuc, get_elem?, Option, true, ◌↔◌, nat_beq_iff,
}
use livelook_sfu.Core.Images.{Bytes, ImageFile, path}
use livelook_sfu.Core.Images.Spelling.{body}
use livelook_sfu.Core.Images.Paths.{
  stored_image, path-body, dir-body, id_parts-stored, Parts, stored-Parts,
}
use livelook_sfu.Core.Uploads.{
  Upload, DiskReplies, Disk, overwrite, content_of, write_file, store_file, CoverRow, int_beq,
  update_covers, stream_image_upload_handle, user_profile_image_upload_handle, with_parts, in_dir,
  path_or_empty,
}

-- The operating system does what it is asked to.
abbrev pub disk_works : DiskReplies
disk_works = record { mkdir_reply = none; open_reply = none; copy_reply = none }

-- A form with an image.
abbrev pub form : Bytes → Bytes → Bytes → Upload
form name content text = record {
  parse_reply = none;
  form_file = ok (name, content);
  form_value = text;
}

store_file-ok :
    (save_dir content name : Bytes) (id : ℕ) (disk : Disk) (p : Parts id)
    → store_file disk_works save_dir content (stored_image id name) disk ≡ (
      (ok tt, write_file (save_dir ++ (b'/' ∷ body p.dirs p.last name)) content disk),
      record { id_partitions = p.parts; image_id = pos id; filename = name },
    )
unfolding store_file
store_file-ok save_dir content name id disk p =
    ap (λ r. with_parts disk_works save_dir content (stored_image id name) r disk)
      (id_parts-stored id name ∙ p.partition)
    ∙ ap (λ d. (in_dir disk_works d (path_or_empty (path save_dir img)) content disk, img))
        (dir-body save_dir img p.parts p.dirs p.last (p.kept name) p.is_split)
    ∙ ap (λ f. ((ok tt, write_file (path_or_empty f) content disk), img))
        (path-body save_dir name img p.parts p.dirs p.last (p.kept name) p.is_split)
  where
    img : ImageFile
    img = record { id_partitions = p.parts; image_id = pos id; filename = name }

stored_path :
    (save_dir name : Bytes) (id : ℕ) (p : Parts id)
    → path save_dir (stored_image id name) ≡ ok (save_dir ++ (b'/' ∷ body p.dirs p.last name))
stored_path save_dir name id p =
    path-body save_dir name (stored_image id name) p.parts p.dirs p.last
      (id_parts-stored id name ∙ p.partition) p.is_split

lookup-write_file :
    (file content q : Bytes) (disk : Disk)
    → lookup q (write_file file content disk) ≡ (
        if file == q
        then some (overwrite content (content_of (lookup file disk)))
        else lookup q disk)
unfolding write_file
lookup-write_file file content q disk = lookup-insert file q _ disk

-- What an upload with the ID `id` beneath `save_dir` has done to the files.
pub record IsStored (save_dir name content : Bytes) (id : ℕ) (before after : Disk) : Type 0 where
  pub file : Bytes
  pub is_path : path save_dir (stored_image id name) ≡ ok file
  pub files :
      (q : Bytes)
      → lookup q after ≡ (
          if file == q
          then some (overwrite content (content_of (lookup file before)))
          else lookup q before)

abbrev pub profile_images : Bytes → Bytes
profile_images root_dir = root_dir ++ codes "/static/user_profile_images"

abbrev pub stream_images : Bytes → Bytes
stream_images root_dir = root_dir ++ codes "/static/stream_images"

int_beq-pos : (i : ℤ) (n : ℕ) → (int_beq i (pos n) ≡ true) ↔ (i ≡ pos n)
unfolding int_beq
int_beq-pos (pos m) n = (λ h. ap pos ((nat_beq_iff m n).0 h), λ h. (nat_beq_iff m n).1 (cc h))
int_beq-pos (negsuc m) n = (λ h. cc, λ h. cc)

length-update_covers :
    (now : ℕ) (img : ImageFile) (text : Bytes) (rows : List CoverRow)
    → length (update_covers now img text rows) ≡ length rows
unfolding update_covers
length-update_covers now img text [] = refl
length-update_covers now img text (row ∷ rows) = ap suc (length-update_covers now img text rows)

-- The row that is stored for an image.
abbrev pub cover_row : ℤ → Bytes → Bytes → ℕ → CoverRow
cover_row id name text now = record {
  row_id = id;
  image_filename = some name;
  title = text;
  updated_at = now;
}

-- The row with the ID `id` has the name, the text and the time; the others are as they were, and none
-- is added or lost.
pub record IsCovered (id : ℕ) (name text : Bytes) (now : ℕ) (before after : List CoverRow)
    : Type 0 where
  pub row_count : length after ≡ length before
  pub stored_rows :
      (i : ℕ) (row : CoverRow)
      → get_elem? before i ≡ some row
      → row.row_id ≡ pos id
      → get_elem? after i ≡ some (cover_row (pos id) name text now)
  pub other_rows :
      (i : ℕ) (row : CoverRow)
      → get_elem? before i ≡ some row
      → row.row_id ≢ pos id
      → get_elem? after i ≡ some row

stored_row :
    (now id : ℕ) (name text : Bytes) (parts : List Bytes) (rows : List CoverRow) (i : ℕ)
    (row : CoverRow)
    → get_elem? rows i ≡ some row
    → row.row_id ≡ pos id
    → get_elem?
        (update_covers now
          (record { id_partitions = parts; image_id = pos id; filename = name })
          text
          rows)
        i
      ≡ some (cover_row (pos id) name text now)
unfolding update_covers
stored_row now id name text parts [] i row h is = absurd (cc h)
stored_row now id name text parts (r ∷ rows) zero row h is =
    let there : r.row_id ≡ pos id = ap (λ x. row_id_of x) h ∙ is in
    rw ((int_beq-pos r.row_id id).1 there) (ap (λ x. some (cover_row x name text now)) there)
  where
    row_id_of : Option CoverRow → ℤ
    row_id_of none = pos id
    row_id_of (some x) = x.row_id
stored_row now id name text parts (r ∷ rows) (suc i) row h is =
    stored_row now id name text parts rows i row h is

other_row :
    (now id : ℕ) (img : ImageFile) (text : Bytes) (rows : List CoverRow) (i : ℕ) (row : CoverRow)
    → img.image_id ≡ pos id
    → get_elem? rows i ≡ some row
    → row.row_id ≢ pos id
    → get_elem? (update_covers now img text rows) i ≡ some row
unfolding update_covers
other_row now id img text [] i row own h not = absurd (cc h)
other_row now id img text (r ∷ rows) zero row own h not = ground (arith, int_beq-pos r.row_id id)
other_row now id img text (r ∷ rows) (suc i) row own h not =
    other_row now id img text rows i row own h not

pub update_covers-IsCovered :
    (now id : ℕ) (name text : Bytes) (parts : List Bytes) (rows : List CoverRow)
    → IsCovered id name text now rows (
        update_covers now
          (record { id_partitions = parts; image_id = pos id; filename = name })
          text
          rows)
update_covers-IsCovered now id name text parts rows = record {
  row_count = length-update_covers now _ text rows;
  stored_rows = λ i row h is. stored_row now id name text parts rows i row h is;
  other_rows = λ i row h not. other_row now id _ text rows i row refl h not;
}

-- An upload of a cover, where the database and the operating system do what they are asked to:
-- the row of the image has the name, the text and the time, and no other row changes; the file at the path of the ID is
-- overwritten from its start; and every other file is as it was.
pub stream_image_upload-ok :
    (root_dir name content text old_name : Bytes) (id now : ℕ) (covers : List CoverRow)
    (disk : Disk)
    → 0 < id
    → id < 2 ^ 63
    → let r =
        stream_image_upload_handle disk_works root_dir none now
          (form name content text)
          (record { image = stored_image id old_name; covers = covers; disk = disk }) in
      (r.0 ≡ ok tt)
      × IsCovered id name text now covers r.1.covers
      × IsStored (stream_images root_dir) name content id disk r.1.disk
unfolding stream_image_upload_handle
stream_image_upload-ok root_dir name content text old_name id now covers disk h small =
    let p = stored-Parts id h small in
    let e = store_file-ok (stream_images root_dir) content name id disk p in
    let file = stream_images root_dir ++ (b'/' ∷ body p.dirs p.last name) in
    (
      ap (λ r. r.0.0) e,
      update_covers-IsCovered now id name text [] covers,
      record {
        file = file;
        is_path = stored_path (stream_images root_dir) name id p;
        files = λ q. ap (λ r. lookup q r.0.1) e ∙ lookup-write_file file content q disk;
      },
    )

-- An upload of a profile image, of any user, where the operating system does what it is asked
-- to, goes to the path of the ID 100500.
pub user_profile_image_upload-ok :
    (root_dir name content text old_name : Bytes) (old_id : ℤ) (covers : List CoverRow)
    (disk : Disk)
    → let r =
        user_profile_image_upload_handle disk_works root_dir (form name content text) (record {
          image = record { id_partitions = []; image_id = old_id; filename = old_name };
          covers = covers;
          disk = disk;
        }) in
      (r.0 ≡ ok tt) × IsStored (profile_images root_dir) name content 100500 disk r.1.disk
unfolding user_profile_image_upload_handle
user_profile_image_upload-ok root_dir name content text old_name old_id covers disk =
    let p = stored-Parts 100500 (omega arith) (omega arith) in
    let e = store_file-ok (profile_images root_dir) content name 100500 disk p in
    let file = profile_images root_dir ++ (b'/' ∷ body p.dirs p.last name) in
    (
      ap (λ r. r.0.0) e,
      record {
        file = file;
        is_path = stored_path (profile_images root_dir) name 100500 p;
        files = λ q. ap (λ r. lookup q r.0.1) e ∙ lookup-write_file file content q disk;
      },
    )

length-drop : (n : ℕ) (xs : Bytes) → n < length xs → 0 < length (drop n xs)
length-drop zero xs h = h
length-drop (suc n) [] h = absurd (omega arith)
length-drop (suc n) (x ∷ xs) h = length-drop n xs (omega arith)

-- A cover that is shorter than the one that it replaces is not what its file holds afterwards:
-- the end of the older one is left.
pub shorter_upload_corrupts :
    (root_dir name content text old_name file old : Bytes) (id now : ℕ) (covers : List CoverRow)
    (disk : Disk)
    → 0 < id
    → id < 2 ^ 63
    → path (stream_images root_dir) (stored_image id name) ≡ ok file
    → lookup file disk ≡ some old
    → length content < length old
    → let r =
        stream_image_upload_handle disk_works root_dir none now
          (form name content text)
          (record { image = stored_image id old_name; covers = covers; disk = disk }) in
      lookup file r.1.disk ≢ some content
unfolding overwrite
shorter_upload_corrupts root_dir name content text old_name file old id now covers disk h small at
      was shorter is =
    let (_, _, s) =
      stream_image_upload-ok root_dir name content text old_name id now covers disk h small in
    let after =
      (stream_image_upload_handle disk_works root_dir none now (form name content text)
        (record { image = stored_image id old_name; covers = covers; disk = disk })).1.disk in
    let same : s.file ≡ file = cc (s.is_path, at) in
    let holds =
      subst
        (λ f. lookup file after ≡ (
          if f == file
          then some (overwrite content (content_of (lookup f disk)))
          else lookup file disk))
        same (s.files file) in
    let whole : content ++ drop (length content) old ≡ content =
      ground (arith, holds, is, was, bytes_beq_iff file file) in
    let left = length-drop (length content) old shorter in
    let sizes = ap length whole in omega (arith, length-append content (drop (length content) old))
