-- ===== src/Eventbus/Json.antt =====
-- JSON as encoding/json reads and writes it: values, maps, and the members of a struct.
use Prim.Native.Nat.{Ordering}
use Prim.Native.String.{compare}
use livelook_sfu.Common.{
  ℕ, Bool, Option, none, some, List, [], ◌∷◌, String, ltb, if◌then◌else◌, Outcome, ok, err, panic,
  unmarshal_type_error,
}

-- A number is `num` if it is an integer that is not negative, and `real` otherwise; all of them are
-- in the range of a float64.
mutual
  pub data Json : Type 0 where
    null : Json
    bool : Bool → Json
    num : ℕ → Json
    real : ℕ → Json
    str : String → Json
    arr : Items → Json
    obj : Members → Json

  pub data Items : Type 0 where
    no_items : Items
    item : Json → Items → Items

  pub data Members : Type 0 where
    no_members : Members
    entry : String → Json → Members → Members

-- `m[key] = value` in a `map[string]interface{}`, kept in the order in which `json.Marshal` writes
-- its keys.
unfoldable pub put : String → Json → Members → Members
put key value no_members = entry key value no_members
put key value (entry k old rest) = elim (compare key k) [
  | Ordering.lt ↦ entry key value (entry k old rest)
  | Ordering.eq ↦ entry key value rest
  | Ordering.gt ↦ entry k old (put key value rest)
]

-- What `json.Marshal` writes of the `interface{}` that a value has been read into.
unfoldable mutual
  unfolding put

  pub value_of : Json → Json
  value_of (arr items) = arr (items_of items)
  value_of (obj members) = obj (map_of members no_members)
  value_of v = v

  pub items_of : Items → Items
  items_of no_items = no_items
  items_of (item v rest) = item (value_of v) (items_of rest)

  pub map_of : Members → Members → Members
  map_of no_members m = m
  map_of (entry key v rest) m = map_of rest (put key (value_of v) m)

-- How the value of a member is stored in a field, which keeps what it has where the value is null:
-- a `string`, a `*string`, a `*uint16` and a `map[string]interface{}`.
abbrev pub set_string : Json → String → Outcome String
set_string null old = ok old
set_string (str s) old = ok s
set_string _ old = err unmarshal_type_error

abbrev pub set_pointer : Json → Outcome (Option String)
set_pointer null = ok none
set_pointer (str s) = ok (some s)
set_pointer _ = err unmarshal_type_error

abbrev pub set_uint16 : Json → Outcome (Option ℕ)
set_uint16 null = ok none
set_uint16 (num n) = if ltb n 65536 then ok (some n) else err unmarshal_type_error
set_uint16 _ = err unmarshal_type_error

abbrev pub members_or_none : Option Members → Members
members_or_none none = no_members
members_or_none (some m) = m

abbrev pub set_map : Json → Option Members → Outcome (Option Members)
set_map null old = ok none
set_map (obj members) old = ok (some (map_of members (members_or_none old)))
set_map _ old = err unmarshal_type_error

-- The elements of an array that is read into a `[]byte`.
abbrev pub push_byte : ℕ → Outcome (List ℕ) → Outcome (List ℕ)
push_byte b (ok bytes) = ok (b ∷ bytes)
push_byte b (err e) = err e
push_byte b panic = panic

unfoldable pub bytes_of : Items → Outcome (List ℕ)
bytes_of no_items = ok []
bytes_of (item null rest) = push_byte 0 (bytes_of rest)
bytes_of (item (num n) rest) =
    if ltb n 256 then push_byte n (bytes_of rest) else err unmarshal_type_error
bytes_of (item v rest) = err unmarshal_type_error

-- A struct is read member by member; `set` stores one, under the field that it names.
abbrev pub then_fill {ℓ} : {A : Type ℓ} → Outcome A → (A → Outcome A) → Outcome A
then_fill (ok a) rest = rest a
then_fill (err e) rest = err e
then_fill panic rest = panic

unfoldable pub fill {ℓ} : {A : Type ℓ} → (String → Json → A → Outcome A) → Members → A → Outcome A
fill set no_members a = ok a
fill set (entry key v rest) a = then_fill (set key v a) (fill set rest)

-- Null leaves the struct as it is.
unfoldable pub read_struct {ℓ} :
    {A : Type ℓ} → (String → Json → A → Outcome A) → A → Json → Outcome A
unfolding fill
read_struct set zero_value null = ok zero_value
read_struct set zero_value (obj members) = fill set members zero_value
read_struct set zero_value _ = err unmarshal_type_error
