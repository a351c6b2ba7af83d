-- ===== src/Common/Keys.antt =====
-- Comparable types: what Go allows as the key of a map.
use Prim.Native.Nat.{ℕ}
use Prim.Native.String.{String}
use mathlib.Core.Path.{◌≡◌}
use mathlib.Core.Logic.{◌↔◌}
use mathlib.Core.Bool.{Bool, true, false, ◌&&◌}
use mathlib.Core.List.{List, [], ◌∷◌}
use native.Mathlib.Omega.{arith}
use text.Mathlib.Text.{◌==◌ as str_eq}
use text.Mathlib.TextEquality.{eq_iff}
use livelook_sfu.Common.Tests.{nat_beq, nat_beq_iff}

pub record Eq {ℓ} (K : Type ℓ) : Type ℓ where
  pub same_key : K → K → Bool
  pub same_key_iff : (k l : K) → (same_key k l ≡ true) ↔ (k ≡ l)

instance abbrev pub string_eq : Eq String
string_eq = record { same_key = str_eq; same_key_iff = eq_iff }

instance abbrev pub nat_eq : Eq ℕ
nat_eq = record { same_key = nat_beq; same_key_iff = nat_beq_iff }

infix 50 ◌==◌
abbrev pub ◌==◌ {ℓ} : {K : Type ℓ} ⦃keys : Eq K⦄ → K → K → Bool
◌==◌ ⦃keys⦄ k l = keys.same_key k l

pub string_beq_iff : (a b : String) → ((a == b) ≡ true) ↔ (a ≡ b)
string_beq_iff = eq_iff

pub beq_refl {ℓ} : {K : Type ℓ} ⦃e : Eq K⦄ (a : K) → (a == a) ≡ true
beq_refl ⦃e⦄ a = (e.same_key_iff a a).1 (λ i. a)

unfoldable pub bytes_beq : List ℕ → List ℕ → Bool
bytes_beq [] [] = true
bytes_beq (x ∷ xs) (y ∷ ys) = nat_beq x y && bytes_beq xs ys
bytes_beq _ _ = false

pub bytes_beq_iff : (xs ys : List ℕ) → (bytes_beq xs ys ≡ true) ↔ (xs ≡ ys)
unfolding bytes_beq
bytes_beq_iff [] [] = ground arith
bytes_beq_iff [] (y ∷ ys) = ground arith
bytes_beq_iff (x ∷ xs) [] = ground arith
bytes_beq_iff (x ∷ xs) (y ∷ ys) = ground (arith, nat_beq_iff x y, bytes_beq_iff xs ys)

-- Texts as lists of bytes.
instance abbrev pub bytes_eq : Eq (List ℕ)
bytes_eq = record { same_key = bytes_beq; same_key_iff = bytes_beq_iff }
