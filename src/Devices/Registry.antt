-- ===== src/Devices/Registry.antt =====
-- The registry of src/mbdeploy/devices.py: its entries and the enumeration numbers. A field that an
-- entry lacks and one that is null are both `none`; an `enum` is only ever missing or a number.
use Prim.Native.Nat.{max}
use mbdeploy.Base.{ℕ, ◌+◌, ◌≤◌, ◌≡◌, Option, none, some, [], ◌∷◌, arith}
use mbdeploy.Text.{Text}
use mbdeploy.Text.Dict.{Dict, get}

pub record Entry : Type 0 where
  pub uid : Option Text
  pub port : Option Text
  pub enum : Option ℕ
  pub announcement : Option Text
  pub role : Option Text
  pub common_name : Option Text
  pub device_name : Option Text
  pub serial : Option Text
  pub device_id : Option ℕ
  pub board_name : Option Text

-- `{}`
abbrev pub no_entry : Entry
no_entry = record {
  uid = none;
  port = none;
  enum = none;
  announcement = none;
  role = none;
  common_name = none;
  device_name = none;
  serial = none;
  device_id = none;
  board_name = none;
}

abbrev pub Registry : Type 0
Registry = Dict Entry

abbrev pub enum_of : Option Entry → Option ℕ
enum_of none = none
enum_of (some e) = e.enum

-- `max((e["enum"] for e in devices.values() if "enum" in e), default=0)`
unfoldable pub max_enum : Registry → ℕ
max_enum [] = 0
max_enum ((k, e) ∷ d) = elim e.enum [ none ↦ max_enum d | some n ↦ max n (max_enum d) ]

unfoldable pub assign_enum : Registry → Text → ℕ
unfolding max_enum
assign_enum devices uid = elim (enum_of (get uid devices)) [
  | some n ↦ n
  | none ↦ max_enum devices + 1
]

pub enum-le-max_enum :
    (d : Registry) (k : Text) (e : Entry) (n : ℕ)
    → get k d ≡ some e
    → e.enum ≡ some n
    → n ≤ max_enum d
unfolding get max_enum
enum-le-max_enum [] k e n h m = ground arith
enum-le-max_enum ((j, f) ∷ d) k e n h m = ground (arith, enum-le-max_enum d k e n)

-- No two boards have one number.
abbrev pub Distinct : Registry → Type 0
Distinct d =
    (j k : Text) (e f : Entry) (n : ℕ)
    → get j d ≡ some e
    → get k d ≡ some f
    → e.enum ≡ some n
    → f.enum ≡ some n
    → j ≡ k
