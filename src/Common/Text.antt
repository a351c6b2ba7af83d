-- ===== src/Common/Text.antt =====
-- Texts that are compared without regard to case.
use Prim.Native.Char.{code}
use Prim.Native.Nat.{ℕ, ◌+◌}
use Prim.Native.String.{String}
use mathlib.Core.Bool.{Bool, true, false, ◌&&◌}
use mathlib.Core.List.{List, [], ◌∷◌}
use mathlib.Core.Option.{Option, none, some}
use livelook_sfu.Common.Tests.{leb, nat_beq, if◌then◌else◌}

-- The code points of a text.
abbrev pub codes : String → List ℕ
codes String.[] = []
codes (String.◌∷◌ c s) = code c ∷ codes s

-- Simple case folding onto the lower case of ASCII: the letters, the Kelvin sign and the long s.
unfoldable pub fold_code : ℕ → ℕ
fold_code c =
    if leb b'A' c && leb c b'Z'
    then c + 32
    else if nat_beq c 0x212a
    then b'k'
    else if nat_beq c 0x17f
    then b's'
    else c

unfoldable pub equal_fold_codes : List ℕ → List ℕ → Bool
unfolding fold_code
equal_fold_codes [] [] = true
equal_fold_codes (c ∷ s) (d ∷ t) = nat_beq (fold_code c) (fold_code d) && equal_fold_codes s t
equal_fold_codes _ _ = false

-- `strings.EqualFold(s, t)`, where one of the two is ASCII.
unfoldable pub equal_fold : String → String → Bool
unfolding equal_fold_codes
equal_fold s t = equal_fold_codes (codes s) (codes t)

strip_prefix : String → String → Option String
strip_prefix String.[] s = some s
strip_prefix (String.◌∷◌ c p) String.[] = none
strip_prefix (String.◌∷◌ c p) (String.◌∷◌ d s) =
    if nat_beq (code c) (code d) then strip_prefix p s else none

-- `strings.TrimPrefix(s, prefix)`
unfoldable pub trim_prefix : String → String → String
unfolding strip_prefix
trim_prefix s prefix = elim (strip_prefix prefix s) [ some rest ↦ rest | none ↦ s ]
