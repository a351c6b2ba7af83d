-- ===== src/Tests/Encoding/Spelling.antt =====
-- What is spelled is read back.
use livelook_sfu.Common.{ℕ, zero, suc, ◌+◌, ◌<◌, ◌≡◌, refl, ap, true, false, some, String, arith}
use livelook_sfu.Eventbus.Json.{
  Json, null, bool, num, real, str, arr, obj, Items, no_items, item, Members, no_members, entry,
}
use livelook_sfu.Tests.Encoding.{
  write_nat, read_nat, write_text, read_text, one_more, char_more, write_value, write_items,
  write_members, read_value, read_items, read_members, size,
}

read_nat-write_nat : (n : ℕ) (rest : String) → read_nat (write_nat n rest) ≡ (n, rest)
unfolding read_nat write_nat
read_nat-write_nat zero rest = refl
read_nat-write_nat (suc n) rest = ap one_more (read_nat-write_nat n rest)

read_text-write_text : (s rest : String) → read_text (write_text s rest) ≡ (s, rest)
unfolding read_text write_text
read_text-write_text String.[] String.[] = refl
read_text-write_text String.[] (String.◌∷◌ c rest) = refl
read_text-write_text (String.◌∷◌ c s) rest = ap (char_more c) (read_text-write_text s rest)

size-write_nat : (n : ℕ) (rest : String) → size (write_nat n rest) ≡ suc (n + size rest)
unfolding size write_nat
size-write_nat zero rest = omega arith
size-write_nat (suc n) rest = omega (arith, size-write_nat n rest)

size-write_text : (s rest : String) → size rest < size (write_text s rest)
unfolding size write_text
size-write_text String.[] rest = omega arith
size-write_text (String.◌∷◌ c s) rest = omega (arith, size-write_text s rest)

mutual
  unfolding size write_value write_items write_members

  size-write_value : (v : Json) (rest : String) → size rest < size (write_value v rest)
  size-write_value null rest = omega arith
  size-write_value (bool true) rest = omega arith
  size-write_value (bool false) rest = omega arith
  size-write_value (num n) rest = omega (arith, size-write_nat n rest)
  size-write_value (real n) rest = omega (arith, size-write_nat n rest)
  size-write_value (str s) rest = omega (arith, size-write_text s rest)
  size-write_value (arr xs) rest = omega (arith, size-write_items xs rest)
  size-write_value (obj xs) rest = omega (arith, size-write_members xs rest)

  size-write_items : (xs : Items) (rest : String) → size rest < size (write_items xs rest)
  size-write_items no_items rest = omega arith
  size-write_items (item v xs) rest =
      omega (arith, size-write_value v (write_items xs rest), size-write_items xs rest)

  size-write_members : (xs : Members) (rest : String) → size rest < size (write_members xs rest)
  size-write_members no_members rest = omega arith
  size-write_members (entry k v xs) rest = omega (
    arith,
    size-write_text k (write_value v (write_members xs rest)),
    size-write_value v (write_members xs rest),
    size-write_members xs rest,
  )

mutual
  unfolding size write_value write_items write_members read_value read_items read_members

  reads_value :
      (v : Json) (rest : String) (f : ℕ)
      → size (write_value v rest) < f
      → read_value f (write_value v rest) ≡ some (v, rest)
  reads_value v rest zero h = absurd (omega arith)
  reads_value null rest (suc f) h = refl
  reads_value (bool true) rest (suc f) h = refl
  reads_value (bool false) rest (suc f) h = refl
  reads_value (num n) rest (suc f) h = rw (read_nat-write_nat n rest) refl
  reads_value (real n) rest (suc f) h = rw (read_nat-write_nat n rest) refl
  reads_value (str s) rest (suc f) h = rw (read_text-write_text s rest) refl
  reads_value (arr xs) rest (suc f) h = rw (reads_items xs rest f (omega arith)) refl
  reads_value (obj xs) rest (suc f) h = rw (reads_members xs rest f (omega arith)) refl

  reads_items :
      (xs : Items) (rest : String) (f : ℕ)
      → size (write_items xs rest) < f
      → read_items f (write_items xs rest) ≡ some (xs, rest)
  reads_items xs rest zero h = absurd (omega arith)
  reads_items no_items rest (suc f) h = refl
  reads_items (item v xs) rest (suc f) h =
      rw (reads_value v (write_items xs rest) f (omega arith))
        (rw (reads_items xs rest f (omega (arith, size-write_value v (write_items xs rest)))) refl)

  reads_members :
      (xs : Members) (rest : String) (f : ℕ)
      → size (write_members xs rest) < f
      → read_members f (write_members xs rest) ≡ some (xs, rest)
  reads_members xs rest zero h = absurd (omega arith)
  reads_members no_members rest (suc f) h = refl
  reads_members (entry k v xs) rest (suc f) h =
      let after = write_value v (write_members xs rest) in
      rw (read_text-write_text k after) (
        rw (reads_value v (write_members xs rest) f (omega (arith, size-write_text k after))) (
          rw
            (reads_members xs rest f
              (omega (arith, size-write_text k after, size-write_value v (write_members xs rest))))
            refl))

pub read_value-write_value :
    (v : Json)
    → read_value (suc (size (write_value v String.[]))) (write_value v String.[])
      ≡ some (v, String.[])
read_value-write_value v = reads_value v String.[] _ (omega arith)
