-- ===== src/Common/Results.antt =====
-- How a Go function returns: with a value, with an error, or not at all.
use Prim.Native.Nat.{ℕ}
use mathlib.Core.Option.{Option, none, some}

-- The errors that the program makes, and those of the code that it calls.
pub data Error : Type 0 where
  no_free_ports no_participant room_not_initialized unknown_rpc_type id_must_be_greater_than_zero
        unmarshal_type_error :
      Error
  external : ℕ → Error

-- `panic` is a run-time panic: a nil dereference, a write to a nil map, an index out of range.
pub data Outcome {ℓ} (A : Type ℓ) : Type ℓ where
  ok : A → Outcome A
  err : Error → Outcome A
  panic : Outcome A

-- `return err` where `err` may be nil.
abbrev pub return_error : Option Error → Outcome (Unit {0})
return_error none = ok tt
return_error (some e) = err e

abbrev pub IsOk {ℓ} : {A : Type ℓ} → Outcome A → Type 0
IsOk (ok a) = Unit {0}
IsOk (err e) = ⊥
IsOk panic = ⊥
