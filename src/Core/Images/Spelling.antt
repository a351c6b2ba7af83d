-- ===== src/Core/Images/Spelling.antt =====
-- How the digits of an ID can be read back from the text of a path, and what `filepath.Ext` keeps.
use mathlib.Core.List.{flatten, append_assoc, append-nil}
use livelook_sfu.Common.{
  ℕ, zero, suc, ◌+◌, ◌≤◌, ◌≡◌, refl, ap, sym, ◌∙◌, Bool, true, false, Option, none, some, List, [],
  ◌∷◌, ◌++◌, ◌==◌, nat_eq, All, if◌then◌else◌, arith, ltb, ◌-◌, ◌/◌, length, replicate, nat_beq_iff,
}
use livelook_sfu.Core.IdPartition.Laws.{chunks}
use livelook_sfu.Core.IdPartition.{sprintf_09d, decimal}
use livelook_sfu.Core.Images.{Bytes, join_slash, ext, ext_from, split_last, original, file_name}

-- Whether a text has a slash.
unfoldable pub has_slash : Bytes → Bool
has_slash [] = false
has_slash (c ∷ rest) = if c == b'/' then true else has_slash rest

pub ext_from-slash :
    (found rest : Bytes)
    → (has_slash rest ≡ false → has_slash found ≡ false)
    → has_slash (ext_from found rest) ≡ false
unfolding ext_from has_slash
ext_from-slash found [] h = h refl
ext_from-slash found (c ∷ rest) h = ground (
  arith,
  ext_from-slash [] rest (λ k. refl),
  ext_from-slash (c ∷ rest) rest,
  ext_from-slash found rest,
)

abbrev pub IsDigit : ℕ → Type 0
IsDigit c = (b'0' ≤ c) × (c ≤ b'9')

if-IsDigit :
    (b : Bool) (p q : Bytes)
    → (b ≡ true → All IsDigit p)
    → All IsDigit q
    → All IsDigit (if b then p else q)
if-IsDigit true p q h k = h refl
if-IsDigit false p q h k = k

small-IsDigit : (n : ℕ) → ltb n 10 ≡ true → IsDigit (b'0' + n)
small-IsDigit n h = ground arith

decimal-IsDigit : (fuel n : ℕ) (rest : Bytes) → All IsDigit rest → All IsDigit (decimal fuel n rest)
unfolding decimal
decimal-IsDigit zero n rest h = h
decimal-IsDigit (suc fuel) n rest h =
    if-IsDigit (ltb n 10) _ _ (λ small. (small-IsDigit n small, h))
      (decimal-IsDigit fuel (n / 10) _ ((omega arith, omega arith), h))

replicate-IsDigit : (n : ℕ) → All IsDigit (replicate n b'0')
replicate-IsDigit zero = tt
replicate-IsDigit (suc n) = ((omega arith, omega arith), replicate-IsDigit n)

append-IsDigit : (p q : Bytes) → All IsDigit p → All IsDigit q → All IsDigit (p ++ q)
append-IsDigit [] q h k = k
append-IsDigit (c ∷ p) q (d, h) k = (d, append-IsDigit p q h k)

pub sprintf-IsDigit : (id : ℕ) → All IsDigit (sprintf_09d id)
unfolding sprintf_09d
sprintf-IsDigit id =
    append-IsDigit _ _ (replicate-IsDigit (9 - length (decimal 20 id [])))
      (decimal-IsDigit 20 id [] tt)

pub chunks-IsDigit : (xs : Bytes) → All IsDigit xs → All (All IsDigit) (chunks xs)
unfolding chunks
chunks-IsDigit [] h = tt
chunks-IsDigit (a ∷ []) h = (h, tt)
chunks-IsDigit (a ∷ b ∷ []) h = (h, tt)
chunks-IsDigit (a ∷ b ∷ c ∷ r) h = ((h.0, (h.1.0, (h.1.1.0, tt))), chunks-IsDigit r h.1.1.1)

-- What `split_last` has found.
abbrev pub Splits : List Bytes → Option (List Bytes × Bytes) → Type 0
Splits parts none = parts ≡ []
Splits parts (some (dirs, last)) = parts ≡ dirs ++ last ∷ []

pub split_last-Splits : (parts : List Bytes) → Splits parts (split_last parts)
unfolding split_last
split_last-Splits [] = refl
split_last-Splits (x ∷ rest) = prepend (split_last rest) (split_last-Splits rest)
  where
    prepend :
        (o : Option (List Bytes × Bytes))
        → Splits rest o
        → Splits
            (x ∷ rest)
            (elim o [ none ↦ some ([], x) | some (dirs, last) ↦ some (x ∷ dirs, last) ])
    prepend none h = ap (λ r. x ∷ r) h
    prepend (some (dirs, last)) h = ap (λ r. x ∷ r) h

-- The digits of a path up to its first underscore.
unfoldable pub skim : Bytes → Bytes
skim [] = []
skim (c ∷ rest) =
    let more = skim rest in if c == b'_' then [] else if c == b'/' then more else c ∷ more

skim-digits : (p rest : Bytes) → All IsDigit p → skim (p ++ rest) ≡ p ++ skim rest
unfolding skim
skim-digits [] rest h = refl
skim-digits (c ∷ p) rest ((low, high), h) =
    ground (arith, nat_beq_iff c b'_', nat_beq_iff c b'/', skim-digits p rest h)

skim-join :
    (dirs : List Bytes) (rest : Bytes)
    → All (All IsDigit) dirs
    → skim (join_slash dirs ++ rest) ≡ flatten dirs ++ skim rest
unfolding join_slash skim flatten
skim-join [] rest h = refl
skim-join (x ∷ []) rest (h, _) = skim-digits x rest h ∙ simp append_assoc
skim-join (x ∷ y ∷ dirs) rest (h, k) =
    ap skim (append_assoc x (b'/' ∷ join_slash (y ∷ dirs)) rest)
    ∙ skim-digits x _ h
    ∙ ap (λ t. x ++ t) (skim-join (y ∷ dirs) rest k)
    ∙ sym (append_assoc x (flatten (y ∷ dirs)) (skim rest))

-- The part of a path after the prefix and its slash.
abbrev pub body : List Bytes → Bytes → Bytes → Bytes
body dirs last filename = join_slash dirs ++ (b'/' ∷ file_name last filename)

pub skim-body :
    (dirs : List Bytes) (last filename : Bytes)
    → All (All IsDigit) dirs
    → All IsDigit last
    → skim (body dirs last filename) ≡ flatten dirs ++ last
unfolding skim
skim-body dirs last filename h k =
    skim-join dirs (b'/' ∷ file_name last filename) h
    ∙ ap (λ t. flatten dirs ++ t) (skim-digits last (original ++ ext filename) k ∙ append-nil last)

pub All-split :
    (dirs : List Bytes) (last : Bytes)
    → All (All IsDigit) (dirs ++ last ∷ [])
    → All (All IsDigit) dirs × All IsDigit last
All-split [] last (h, _) = (tt, h)
All-split (d ∷ dirs) last (h, k) = let (hs, l) = All-split dirs last k in ((h, hs), l)

pub flatten-snoc :
    (dirs : List Bytes) (last : Bytes) → flatten (dirs ++ last ∷ []) ≡ flatten dirs ++ last
unfolding flatten
flatten-snoc [] last = append-nil last
flatten-snoc (d ∷ dirs) last =
    ap (λ t. d ++ t) (flatten-snoc dirs last) ∙ sym (append_assoc d (flatten dirs) last)
