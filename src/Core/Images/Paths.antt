-- ===== src/Core/Images/Paths.antt =====
-- The paths of the images of internal/core/image.go.
use mathlib.Core.List.{flatten, append_assoc}
use livelook_sfu.Common.{
  ℕ, ◌<◌, ◌^◌, ◌≡◌, ◌≢◌, refl, ap, subst, sym, ◌∙◌, false, Option, none, some, List, [], ◌∷◌, ◌++◌,
  nat_eq, All, arith, length, nat_beq_iff, ok, pos,
}
use livelook_sfu.Core.IdPartition.Laws.{
  length-sprintf-ge, chunks, flatten-chunks, value-sprintf, value_from, id_partition-chunks,
}
use livelook_sfu.Core.IdPartition.{id_partition, sprintf_09d}
use livelook_sfu.Core.Images.{
  Bytes, ImageFile, join_slash, ext, id_parts, split_last, dir, path, original, file_name,
}
use livelook_sfu.Core.Images.Spelling.{
  has_slash, ext_from-slash, IsDigit, sprintf-IsDigit, chunks-IsDigit, Splits, split_last-Splits,
  skim, body, skim-body, All-split, flatten-snoc,
}

-- An image that has not been uploaded in this process.
abbrev pub stored_image : ℕ → Bytes → ImageFile
stored_image id filename = record { id_partitions = []; image_id = pos id; filename = filename }

pub path-body :
    (prefix filename : Bytes) (img : ImageFile) (parts dirs : List Bytes) (last : Bytes)
    → id_parts img ≡ ok parts
    → split_last parts ≡ some (dirs, last)
    → path prefix img ≡ ok (prefix ++ (b'/' ∷ body dirs last img.filename))
unfolding path dir
path-body prefix filename img parts dirs last h k =
    rw (h, k)
      (rw (h, k)
        (ap ok (append_assoc prefix (b'/' ∷ join_slash dirs) (b'/' ∷ file_name last img.filename))))

-- The path of a stored image with a positive int64 ID.
abbrev IsPathOf : Bytes → Bytes → ℕ → Option (List Bytes × Bytes) → Type 0
IsPathOf prefix filename id none = ⊥
IsPathOf prefix filename id (some (dirs, last)) =
    (path prefix (stored_image id filename) ≡ ok (prefix ++ (b'/' ∷ body dirs last filename)))
    × All (All IsDigit) dirs
    × All IsDigit last
    × (value_from 0 (flatten dirs ++ last) ≡ id)

chunks_some : (xs : Bytes) → 0 < length xs → chunks xs ≢ []
unfolding chunks
chunks_some [] h = absurd (omega arith)
chunks_some (a ∷ []) h = λ e. cc
chunks_some (a ∷ b ∷ []) h = λ e. cc
chunks_some (a ∷ b ∷ c ∷ r) h = λ e. cc

pub id_parts-stored :
    (id : ℕ) (filename : Bytes) → id_parts (stored_image id filename) ≡ id_partition (pos id)
unfolding id_parts
id_parts-stored id filename = refl

split-IsPathOf :
    (prefix filename : Bytes) (id : ℕ) (o : Option (List Bytes × Bytes))
    → split_last (chunks (sprintf_09d id)) ≡ o
    → Splits (chunks (sprintf_09d id)) o
    → 0 < id
    → id < 2 ^ 63
    → IsPathOf prefix filename id o
split-IsPathOf prefix filename id none e none_left h small =
    absurd (chunks_some (sprintf_09d id) (omega (arith, length-sprintf-ge id)) none_left)
split-IsPathOf prefix filename id (some (dirs, last)) e parts h small =
    let digits = chunks-IsDigit (sprintf_09d id) (sprintf-IsDigit id) in
    let (ds, l) = All-split dirs last (subst (All (All IsDigit)) parts digits) in
    (
      path-body prefix filename (stored_image id filename) (chunks (sprintf_09d id)) dirs last
          (id_parts-stored id filename ∙ id_partition-chunks id h) e,
      ds,
      l,
      ap (value_from 0) (
            sym (flatten-snoc dirs last) ∙ ap flatten (sym parts) ∙ flatten-chunks (sprintf_09d id))
          ∙ value-sprintf id (omega arith),
    )

stored-IsPathOf :
    (prefix filename : Bytes) (id : ℕ)
    → 0 < id
    → id < 2 ^ 63
    → IsPathOf prefix filename id (split_last (chunks (sprintf_09d id)))
stored-IsPathOf prefix filename id h small =
    split-IsPathOf prefix filename id _ refl (split_last-Splits (chunks (sprintf_09d id))) h small

-- A path reads back as the ID.
path-value :
    (prefix filename : Bytes) (id : ℕ) (o : Option (List Bytes × Bytes))
    → IsPathOf prefix filename id o
    → (rest : Bytes) × (path prefix (stored_image id filename) ≡ ok (prefix ++ (b'/' ∷ rest)))
      × (value_from 0 (skim rest) ≡ id)
path-value prefix filename id none h = absurd h
path-value prefix filename id (some (dirs, last)) (e, ds, l, v) =
    (body dirs last filename, e, ap (value_from 0) (skim-body dirs last filename ds l) ∙ v)

append_cancel : (p : Bytes) {q r : Bytes} → p ++ q ≡ p ++ r → q ≡ r
append_cancel [] e = e
append_cancel (c ∷ p) e = append_cancel p (cc e)

-- Beneath the same prefix two images with different positive int64 IDs have different paths,
-- whatever the names of their files are.
pub path_injective :
    (prefix f g : Bytes) (m n : ℕ)
    → 0 < m
    → 0 < n
    → m < 2 ^ 63
    → n < 2 ^ 63
    → m ≢ n
    → path prefix (stored_image m f) ≢ path prefix (stored_image n g)
path_injective prefix f g m n hm hn sm sn differ same =
    let (x, ex, vx) = path-value prefix f m _ (stored-IsPathOf prefix f m hm sm) in
    let (y, ey, vy) = path-value prefix g n _ (stored-IsPathOf prefix g n hn sn) in
    let joined : prefix ++ (b'/' ∷ x) ≡ prefix ++ (b'/' ∷ y) = cc in
    let rests : x ≡ y = cc (append_cancel prefix joined) in
    differ (sym vx ∙ ap (λ t. value_from 0 (skim t)) rests ∙ vy)

append-slash :
    (p q : Bytes) → has_slash p ≡ false → has_slash q ≡ false → has_slash (p ++ q) ≡ false
unfolding has_slash
append-slash [] q h k = k
append-slash (c ∷ p) q h k = ground (arith, append-slash p q)

digits-slash : (p : Bytes) → All IsDigit p → has_slash p ≡ false
unfolding has_slash
digits-slash [] h = refl
digits-slash (c ∷ p) (d, h) = ground (arith, nat_beq_iff c b'/', digits-slash p h)

file_name-slash :
    (last filename : Bytes) → All IsDigit last → has_slash (file_name last filename) ≡ false
unfolding has_slash ext
file_name-slash last filename h =
    append-slash last (original ++ ext filename) (digits-slash last h)
      (append-slash original (ext filename) refl (ext_from-slash [] filename (λ k. refl)))

-- The path of an image with a positive int64 ID is the prefix, directories whose names are
-- digits, and the name of a file, which has no slash, whatever the client calls its file.
pub path_beneath :
    (prefix filename : Bytes) (id : ℕ)
    → 0 < id
    → id < 2 ^ 63
    → (dirs : List Bytes) × (name : Bytes) × (path prefix (stored_image id filename)
        ≡ ok (prefix ++ (b'/' ∷ (join_slash dirs ++ (b'/' ∷ name)))))
      × All (All IsDigit) dirs
      × (has_slash name ≡ false)
path_beneath prefix filename id h small =
    beneath (split_last (chunks (sprintf_09d id))) (stored-IsPathOf prefix filename id h small)
  where
    beneath :
        (o : Option (List Bytes × Bytes))
        → IsPathOf prefix filename id o
        → (dirs : List Bytes) × (name : Bytes) × (path prefix (stored_image id filename)
            ≡ ok (prefix ++ (b'/' ∷ (join_slash dirs ++ (b'/' ∷ name)))))
          × All (All IsDigit) dirs
          × (has_slash name ≡ false)
    beneath none p = absurd p
    beneath (some (dirs, last)) (e, ds, l, v) =
        (dirs, file_name last filename, e, ds, file_name-slash last filename l)

pub dir-body :
    (prefix : Bytes) (img : ImageFile) (parts dirs : List Bytes) (last : Bytes)
    → id_parts img ≡ ok parts
    → split_last parts ≡ some (dirs, last)
    → dir prefix img ≡ ok (prefix ++ (b'/' ∷ join_slash dirs))
unfolding dir
dir-body prefix img parts dirs last h k = rw (h, k) refl

-- The parts of a positive int64 ID, which can be kept in an image.
pub record Parts (id : ℕ) : Type 0 where
  pub parts : List Bytes
  pub dirs : List Bytes
  pub last : Bytes
  pub partition : id_partition (pos id) ≡ ok parts
  pub is_split : split_last parts ≡ some (dirs, last)
  pub kept :
      (filename : Bytes)
      → id_parts (record { id_partitions = parts; image_id = pos id; filename = filename })
        ≡ ok parts

kept_parts :
    (id : ℕ) (parts : List Bytes)
    → parts ≢ []
    → (filename : Bytes)
    → id_parts (record { id_partitions = parts; image_id = pos id; filename = filename }) ≡ ok parts
unfolding id_parts
kept_parts id [] h filename = absurd (h refl)
kept_parts id (p ∷ ps) h filename = refl

pub stored-Parts : (id : ℕ) → 0 < id → id < 2 ^ 63 → Parts id
stored-Parts id h small = from (split_last parts) refl (split_last-Splits parts)
  where
    parts : List Bytes
    parts = chunks (sprintf_09d id)

    some_parts : parts ≢ []
    some_parts = chunks_some (sprintf_09d id) (omega (arith, length-sprintf-ge id))

    from : (o : Option (List Bytes × Bytes)) → split_last parts ≡ o → Splits parts o → Parts id
    from none e none_left = absurd (some_parts none_left)
    from (some (dirs, last)) e s = record {
      parts = parts;
      dirs = dirs;
      last = last;
      partition = id_partition-chunks id h;
      is_split = e;
      kept = kept_parts id parts some_parts;
    }
