-- ===== src/Core/IdPartition/Laws.antt =====
-- The parts of an ID that `idPartition` of internal/core/image.go makes.
use mathlib.Core.List.{flatten}
use native.Mathlib.Nat.{pow-suc}
use livelook_sfu.Common.{
  ℕ, zero, suc, ◌+◌, ◌-◌, ◌*◌, ◌/◌, ◌%◌, ◌^◌, ◌≤◌, ◌<◌, ◌≡◌, ◌≢◌, refl, ap, sym, ◌∙◌, List, [], ◌∷◌,
  ◌++◌, arith, false, ok, pos, nat_eq, length, replicate, ltb, nat_beq, length-append,
  length-replicate, Bool-cases, inl, inr,
}
use livelook_sfu.Core.IdPartition.{id_partition, sprintf_09d, partition_loop, decimal}

-- A list cut into threes, the remainder last.
unfoldable pub chunks : List ℕ → List (List ℕ)
chunks [] = []
chunks (a ∷ []) = (a ∷ []) ∷ []
chunks (a ∷ b ∷ []) = (a ∷ b ∷ []) ∷ []
chunks (a ∷ b ∷ c ∷ r) = (a ∷ b ∷ c ∷ []) ∷ chunks r

-- The three branches of the loop's body.
loop_cut :
    (at tail : ℕ) (acc : List ℕ) (c : ℕ) (rest : List ℕ)
    → (at + 1) % 3 ≡ 0
    → partition_loop at tail acc (c ∷ rest)
      ≡ (acc ++ c ∷ []) ∷ partition_loop (at + 1) (tail - 3) [] rest
unfolding partition_loop
loop_cut at tail acc c rest h = rw h

loop_more :
    (at tail : ℕ) (acc : List ℕ) (c : ℕ) (rest : List ℕ)
    → (at + 1) % 3 ≢ 0
    → 3 ≤ tail
    → partition_loop at tail acc (c ∷ rest) ≡ partition_loop (at + 1) tail (acc ++ c ∷ []) rest
unfolding partition_loop
loop_more at tail acc c rest h t = ground arith

loop_tail :
    (at tail : ℕ) (acc : List ℕ) (c : ℕ) (rest : List ℕ)
    → (at + 1) % 3 ≢ 0
    → 0 < tail
    → tail < 3
    → partition_loop at tail acc (c ∷ rest) ≡ (c ∷ rest) ∷ []
unfolding partition_loop
loop_tail at tail acc c rest h t u = ground arith

-- The loop at a cut, where `acc` is empty and `tail_len` is what is left.
pub partition_loop-chunks :
    (at : ℕ) (rest : List ℕ) → at % 3 ≡ 0 → partition_loop at (length rest) [] rest ≡ chunks rest
unfolding partition_loop chunks
partition_loop-chunks at [] h = refl
partition_loop-chunks at (a ∷ []) h =
    loop_tail at 1 [] a [] (omega arith) (omega arith) (omega arith)
partition_loop-chunks at (a ∷ b ∷ []) h =
    loop_tail at 2 [] a (b ∷ []) (omega arith) (omega arith) (omega arith)
partition_loop-chunks at (a ∷ b ∷ c ∷ r) h =
    loop_more at _ [] a (b ∷ c ∷ r) (omega arith) (omega arith)
    ∙ loop_more (at + 1) _ (a ∷ []) b (c ∷ r) (omega arith) (omega arith)
    ∙ loop_cut (at + 1 + 1) _ (a ∷ b ∷ []) c r (omega arith)
    ∙ ap (λ t. (a ∷ b ∷ c ∷ []) ∷ t)
        (rw three (partition_loop-chunks (at + 1 + 1 + 1) r (omega arith)))
  where
    three : suc (suc (suc (length r))) - 3 ≡ length r
    three = omega arith

pub flatten-chunks : (xs : List ℕ) → flatten (chunks xs) ≡ xs
unfolding chunks flatten
flatten-chunks [] = refl
flatten-chunks (a ∷ []) = refl
flatten-chunks (a ∷ b ∷ []) = refl
flatten-chunks (a ∷ b ∷ c ∷ r) = ap (λ t. a ∷ b ∷ c ∷ t) (flatten-chunks r)

-- The number that a text of digits stands for, read on from `n`.
pub value_from : ℕ → List ℕ → ℕ
value_from n [] = n
value_from n (d ∷ ds) = value_from (n * 10 + (d - 48)) ds

value_from-decimal :
    (fuel n : ℕ) (rest : List ℕ)
    → n < 10 ^ fuel
    → value_from 0 (decimal fuel n rest) ≡ value_from n rest
unfolding value_from decimal
value_from-decimal zero n rest h = ap (λ t. value_from t rest) (omega arith)
value_from-decimal (suc fuel) n rest h = elim (Bool-cases (ltb n 10)) [
  | inl small ↦ rw small (ap (λ t. value_from t rest) (omega arith))
  | inr big ↦ rw big (
      value_from-decimal fuel (n / 10) ((48 + n % 10) ∷ rest) (omega (arith, pow-suc 10 fuel))
      ∙ ap (λ t. value_from t rest) (omega arith))
]

value_from-zeros : (k : ℕ) (xs : List ℕ) → value_from 0 (replicate k 48 ++ xs) ≡ value_from 0 xs
unfolding value_from
value_from-zeros zero xs = refl
value_from-zeros (suc k) xs = value_from-zeros k xs

nat_beq-pos : (n : ℕ) → 0 < n → nat_beq n 0 ≡ false
nat_beq-pos n h = ground arith

-- The digits that are printed read back as the ID.
pub value-sprintf : (id : ℕ) → id < 10 ^ 20 → value_from 0 (sprintf_09d id) ≡ id
unfolding sprintf_09d value_from
value-sprintf id h =
    value_from-zeros (9 - length (decimal 20 id [])) (decimal 20 id [])
    ∙ value_from-decimal 20 id [] h

abbrev LastShort : List (List ℕ) → Type 0
LastShort [] = ⊥
LastShort (p ∷ []) = (0 < length p) × (length p ≤ 3)
LastShort (p ∷ q ∷ ps) = (length p ≡ 3) × LastShort (q ∷ ps)

-- Every part but the last has three bytes, and the last has one to three.
abbrev pub IsThrees : List (List ℕ) → Type 0
IsThrees = LastShort

chunks_cons-IsThrees : (x : ℕ) (xs : List ℕ) → IsThrees (chunks (x ∷ xs))
unfolding chunks
chunks_cons-IsThrees a [] = omega arith
chunks_cons-IsThrees a (b ∷ []) = omega arith
chunks_cons-IsThrees a (b ∷ c ∷ []) = omega arith
chunks_cons-IsThrees a (b ∷ c ∷ d ∷ r) = prepend (chunks (d ∷ r)) (chunks_cons-IsThrees d r)
  where
    prepend : (ps : List (List ℕ)) → IsThrees ps → IsThrees ((a ∷ b ∷ c ∷ []) ∷ ps)
    prepend [] h = absurd h
    prepend (p ∷ ps) h = (refl, h)

chunks-IsThrees : (xs : List ℕ) → 0 < length xs → IsThrees (chunks xs)
chunks-IsThrees [] h = absurd (omega arith)
chunks-IsThrees (x ∷ xs) h = chunks_cons-IsThrees x xs

pub length-sprintf-ge : (id : ℕ) → 9 ≤ length (sprintf_09d id)
unfolding sprintf_09d
length-sprintf-ge id = omega (
  arith,
  length-append (replicate (9 - length (decimal 20 id [])) 48) (decimal 20 id []),
  length-replicate {A = ℕ} (9 - length (decimal 20 id [])) 48,
)

pub id_partition-chunks : (id : ℕ) → 0 < id → id_partition (pos id) ≡ ok (chunks (sprintf_09d id))
unfolding id_partition
id_partition-chunks id h =
    rw (nat_beq-pos id h) (ap ok (partition_loop-chunks 0 (sprintf_09d id) refl))

-- For every positive int64 the call succeeds; its parts have three bytes each, the last one to
-- three, and the digits of all of them in order read as the ID.
pub id_partition_lem :
    (id : ℕ)
    → 0 < id
    → id < 2 ^ 63
    → (parts : List (List ℕ)) × (id_partition (pos id) ≡ ok parts)
      × IsThrees parts
      × (value_from 0 (flatten parts) ≡ id)
id_partition_lem id h small = (
  chunks (sprintf_09d id),
  id_partition-chunks id h,
  chunks-IsThrees (sprintf_09d id) (omega (arith, length-sprintf-ge id)),
  ap (value_from 0) (flatten-chunks (sprintf_09d id)) ∙ value-sprintf id (omega arith),
)

-- Two positive int64 IDs that differ have different parts.
pub id_partition_injective :
    (m n : ℕ)
    → 0 < m
    → 0 < n
    → m < 2 ^ 63
    → n < 2 ^ 63
    → m ≢ n
    → id_partition (pos m) ≢ id_partition (pos n)
id_partition_injective m n hm hn sm sn differ e =
    let (ps, em, _, vm) = id_partition_lem m hm sm in
    let (qs, en, _, vn) = id_partition_lem n hn sn in
    let same : ps ≡ qs = cc in differ (sym vm ∙ ap (λ t. value_from 0 (flatten t)) same ∙ vn)
