-- ===== src/Core/IdPartition.antt =====
-- `idPartition` of internal/core/image.go: the directories under which an image is stored.
-- A text is the list of its bytes; an ID is an int64 that the guard has found positive.
pub mod Laws
use livelook_sfu.Common.{
  ℕ, zero, suc, ◌+◌, ◌-◌, ◌*◌, ◌/◌, ◌%◌, ◌<◌, Bool, true, false, ◌&&◌, List, [], ◌∷◌, ◌++◌, length,
  drop, replicate, ltb, leb, ◌==◌, nat_eq, if◌then◌else◌, Outcome, ok, err,
  id_must_be_greater_than_zero, ℤ, pos, negsuc,
}

-- `imgPartLen`
abbrev pub img_part_len : ℕ
img_part_len = 3

-- The decimal digits of n, most significant first, before `rest`; the fuel bounds their number.
unfoldable pub decimal : ℕ → ℕ → List ℕ → List ℕ
decimal zero n rest = rest
decimal (suc fuel) n rest =
    let digits = decimal fuel (n / 10) ((48 + n % 10) ∷ rest) in
    if ltb n 10 then (48 + n) ∷ rest else digits

-- `fmt.Sprintf("%09d", id)`; an int64 has at most 19 digits.
unfoldable pub sprintf_09d : ℕ → List ℕ
unfolding decimal
sprintf_09d id = let digits = decimal 20 id [] in replicate (9 - length digits) b'0' ++ digits

-- The `for` loop: `at` is `pos`, `tail_len` and `acc` are the variables of the
-- source, and `rest` is `idStr[pos:]`. The list returned is what the loop appends to `parts`.
unfoldable pub partition_loop : ℕ → ℕ → List ℕ → List ℕ → List (List ℕ)
partition_loop at tail_len acc [] = []
partition_loop at tail_len acc (c ∷ rest) =
    let next_pos = at + 1 in
    let cut = (acc ++ c ∷ []) ∷ partition_loop next_pos (tail_len - img_part_len) [] rest in
    let more = partition_loop next_pos tail_len (acc ++ c ∷ []) rest in
    if next_pos % img_part_len == 0
    then cut
    else if ltb 0 tail_len && ltb tail_len img_part_len
    then (c ∷ rest) ∷ []
    else more

unfoldable pub id_partition : ℤ → Outcome (List (List ℕ))
unfolding sprintf_09d partition_loop
id_partition (negsuc n) = err id_must_be_greater_than_zero
id_partition (pos id) =
    if id == 0
    then err id_must_be_greater_than_zero
    else let id_str = sprintf_09d id in ok (partition_loop 0 (length id_str) [] id_str)
