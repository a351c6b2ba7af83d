-- ===== src/Common/Assoc.antt =====
-- A Go map as an association list. A second entry of a key is never made: `insert` writes in place.
use mathlib.Core.Path.{◌≡◌, refl}
use mathlib.Core.Bool.{Bool, true, false}
use mathlib.Core.Option.{Option, none, some}
use mathlib.Core.List.{List, [], ◌∷◌}
use native.Mathlib.Omega.{arith}
use livelook_sfu.Common.Tests.{if◌then◌else◌}
use livelook_sfu.Common.Keys.{Eq, ◌==◌}

module _ {ℓ κ} {K : Type ℓ} {V : Type κ} ⦃e : Eq K⦄ where
  -- `m[k]`, with the second result of the two-valued form.
  unfoldable pub lookup : K → List (K × V) → Option V
  lookup key [] = none
  lookup key ((k, value) ∷ rest) = if k == key then some value else lookup key rest

  -- `m[k] = v`
  unfoldable pub insert : K → V → List (K × V) → List (K × V)
  insert key value [] = (key, value) ∷ []
  insert key value ((k, old) ∷ rest) =
      if k == key then (k, value) ∷ rest else (k, old) ∷ insert key value rest

  -- `delete(m, k)`
  unfoldable pub delete : K → List (K × V) → List (K × V)
  delete key [] = []
  delete key ((k, old) ∷ rest) = if k == key then delete key rest else (k, old) ∷ delete key rest

  pub lookup-insert :
      (key other : K) (value : V) (m : List (K × V))
      → lookup other (insert key value m) ≡ (if key == other then some value else lookup other m)
  unfolding lookup insert
  lookup-insert key other value [] = refl
  lookup-insert key other value ((k, old) ∷ rest) = ground (
    arith,
    e.same_key_iff key other,
    e.same_key_iff k key,
    e.same_key_iff k other,
    lookup-insert key other value rest,
  )

  pub lookup-delete :
      (k j : K) (m : List (K × V)) → lookup j (delete k m) ≡ (if k == j then none else lookup j m)
  unfolding lookup delete
  lookup-delete k j [] = ground arith
  lookup-delete k j ((i, w) ∷ m) =
      ground
        (arith, e.same_key_iff k j, e.same_key_iff i k, e.same_key_iff i j, lookup-delete k j m)

  -- Whether a key is in the map.
  unfoldable pub has_key : K → List (K × V) → Bool
  unfolding lookup
  has_key k m = elim (lookup k m) [ none ↦ false | some _ ↦ true ]

  pub has_key-insert :
      (k j : K) (v : V) (m : List (K × V))
      → has_key j (insert k v m) ≡ (if k == j then true else has_key j m)
  unfolding has_key
  has_key-insert k j v m = ground (arith, lookup-insert k j v m)

  pub has_key_of-lookup :
      (k : K) (m : List (K × V)) {v : V} → lookup k m ≡ some v → has_key k m ≡ true
  unfolding has_key
  has_key_of-lookup k m h = ground arith
