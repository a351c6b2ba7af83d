-- ===== src/Tests/Core.antt =====
-- Image directories at concrete inputs.
use mathlib.Core.List.{flatten}
use livelook_sfu.Common.{ℕ, ◌≡◌, refl, List, [], ◌∷◌, ok, pos, arith}
use livelook_sfu.Core.IdPartition.{id_partition}
use livelook_sfu.Core.IdPartition.Laws.{id_partition_lem, IsThrees, value_from}

id_partition_lem_example :
    (parts : List (List ℕ)) × (id_partition (pos 1234567890) ≡ ok parts)
    × IsThrees parts
    × (value_from 0 (flatten parts) ≡ 1234567890)
id_partition_lem_example = id_partition_lem 1234567890 (omega arith) (omega arith)

short_id :
    id_partition (pos 15)
    ≡ ok ((48 ∷ 48 ∷ 48 ∷ []) ∷ (48 ∷ 48 ∷ 48 ∷ []) ∷ (48 ∷ 49 ∷ 53 ∷ []) ∷ [])
unfolding id_partition
short_id = refl
