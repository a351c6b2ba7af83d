-- ===== src/Tests/Encoding.antt =====
-- A spelling of JSON values that is simpler than that of JSON: it shows that the laws which are
-- assumed of encoding/json can hold, and runs in the tests.
pub mod Spelling
use Prim.Native.Char.{Char, code}
use livelook_sfu.Common.{
  ℕ, zero, suc, ◌+◌, Bool, true, false, Option, none, some, List, String, nat_beq, if◌then◌else◌,
  Outcome, ok, err, unmarshal_type_error,
}
use livelook_sfu.Eventbus.Json.{
  Json, null, bool, num, real, str, arr, obj, Items, no_items, item, Members, no_members, entry,
}

abbrev cons : Char → String → String
cons c s = String.◌∷◌ c s

-- A number is as many strokes, and a stop.
unfoldable pub write_nat : ℕ → String → String
write_nat zero rest = cons "." rest
write_nat (suc n) rest = cons "u" (write_nat n rest)

abbrev pub one_more : ℕ × String → ℕ × String
one_more (n, rest) = (suc n, rest)

unfoldable pub read_nat : String → ℕ × String
read_nat String.[] = (0, String.[])
read_nat (String.◌∷◌ c s) = if nat_beq (code c) b'u' then one_more (read_nat s) else (0, s)

-- Each character of a text stands behind a stroke.
unfoldable pub write_text : String → String → String
write_text String.[] rest = cons "." rest
write_text (String.◌∷◌ c s) rest = cons "u" (cons c (write_text s rest))

abbrev pub char_more : Char → String × String → String × String
char_more c (s, rest) = (cons c s, rest)

unfoldable pub read_text : String → String × String
read_text String.[] = (String.[], String.[])
read_text (String.◌∷◌ a String.[]) = (String.[], String.[])
read_text (String.◌∷◌ a (String.◌∷◌ c s)) =
    if nat_beq (code a) b'u' then char_more c (read_text s) else (String.[], cons c s)

unfoldable mutual
  unfolding write_nat write_text

  pub write_value : Json → String → String
  write_value null rest = write_nat 0 rest
  write_value (bool true) rest = write_nat 1 rest
  write_value (bool false) rest = write_nat 2 rest
  write_value (num n) rest = write_nat 3 (write_nat n rest)
  write_value (real n) rest = write_nat 4 (write_nat n rest)
  write_value (str s) rest = write_nat 5 (write_text s rest)
  write_value (arr items) rest = write_nat 6 (write_items items rest)
  write_value (obj members) rest = write_nat 7 (write_members members rest)

  pub write_items : Items → String → String
  write_items no_items rest = write_nat 0 rest
  write_items (item v items) rest = write_nat 1 (write_value v (write_items items rest))

  pub write_members : Members → String → String
  write_members no_members rest = write_nat 0 rest
  write_members (entry k v members) rest =
      write_nat 1 (write_text k (write_value v (write_members members rest)))

abbrev pub Parsed : Type 0 → Type 0
Parsed A = Option (A × String)

abbrev pub then_read : {A B : Type 0} → Parsed A → (A → String → Parsed B) → Parsed B
then_read none k = none
then_read (some (a, rest)) k = k a rest

abbrev pub tagged_value :
    (String → Parsed Items) → (String → Parsed Members) → ℕ × String → Parsed Json
tagged_value items members (zero, s) = some (null, s)
tagged_value items members (suc zero, s) = some (bool true, s)
tagged_value items members (suc (suc zero), s) = some (bool false, s)
tagged_value items members (suc (suc (suc zero)), s) =
    let (n, rest) = read_nat s in some (num n, rest)
tagged_value items members (suc (suc (suc (suc zero))), s) =
    let (n, rest) = read_nat s in some (real n, rest)
tagged_value items members (suc (suc (suc (suc (suc zero)))), s) =
    let (text, rest) = read_text s in some (str text, rest)
tagged_value items members (suc (suc (suc (suc (suc (suc zero))))), s) =
    then_read (items s) (λ xs rest. some (arr xs, rest))
tagged_value items members (suc (suc (suc (suc (suc (suc (suc tag)))))), s) =
    then_read (members s) (λ xs rest. some (obj xs, rest))

abbrev pub tagged_items :
    (String → Parsed Json) → (String → Parsed Items) → ℕ × String → Parsed Items
tagged_items value items (zero, s) = some (no_items, s)
tagged_items value items (suc tag, s) =
    then_read (value s) (λ v rest. then_read (items rest) (λ xs rest'. some (item v xs, rest')))

abbrev pub tagged_members :
    (String → Parsed Json) → (String → Parsed Members) → ℕ × String → Parsed Members
tagged_members value members (zero, s) = some (no_members, s)
tagged_members value members (suc tag, s) =
    let (k, rest) = read_text s in
    then_read (value rest)
      (λ v rest'. then_read (members rest') (λ xs rest''. some (entry k v xs, rest'')))

-- With fuel for the depth of the value.
unfoldable mutual
  unfolding read_nat read_text

  pub read_value : ℕ → String → Parsed Json
  read_value zero s = none
  read_value (suc fuel) s = tagged_value (read_items fuel) (read_members fuel) (read_nat s)

  pub read_items : ℕ → String → Parsed Items
  read_items zero s = none
  read_items (suc fuel) s = tagged_items (read_value fuel) (read_items fuel) (read_nat s)

  pub read_members : ℕ → String → Parsed Members
  read_members zero s = none
  read_members (suc fuel) s = tagged_members (read_value fuel) (read_members fuel) (read_nat s)

-- The length of a text is fuel enough.
unfoldable pub size : String → ℕ
size String.[] = 0
size (String.◌∷◌ c s) = suc (size s)

abbrev pub parsed_value : Parsed Json → Outcome Json
parsed_value none = err unmarshal_type_error
parsed_value (some (v, rest)) = ok v
