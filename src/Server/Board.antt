-- ===== src/Server/Board.antt =====
-- `Session` and `Board` of src/mbdeploy/server.py. A session object is known by its `id`, so that
-- `occupant is session` compares ids. Each method runs under the board's lock, and is one step.
use mbdeploy.Base.{ℕ, Bool, true, false, Option, none, some, ◌==◌, if◌then◌else◌}
use mbdeploy.Text.{Text}
use mbdeploy.Devices.Registry.{Entry}

pub data Kind : Type 0 where
  serial flash : Kind

pub record Session : Type 0 where
  pub id : ℕ
  pub kind : Kind

-- Sockets and mDNS handles are known by numbers.
pub record Board : Type 0 where
  pub uid : Text
  pub name : Text
  pub entry : Entry
  pub serial_listener : Option ℕ
  pub flash_listener : Option ℕ
  pub serial_mdns_handle : Option ℕ
  pub flash_mdns_handle : Option ℕ
  pub connected : Bool
  pub occupant : Option Session

-- `Board.__init__`
abbrev pub new_board : Text → Text → Entry → Option ℕ → Option ℕ → Board
new_board uid name entry serial_listener flash_listener = record {
  uid = uid;
  name = name;
  entry = entry;
  serial_listener = serial_listener;
  flash_listener = flash_listener;
  serial_mdns_handle = none;
  flash_mdns_handle = none;
  connected = true;
  occupant = none;
}

-- `isinstance(occupant, FlashSession)`
abbrev pub is_flash : Option Session → Bool
is_flash none = false
is_flash (some s) = elim s.kind [ serial ↦ false | flash ↦ true ]

abbrev pub is_serial : Option Session → Bool
is_serial none = false
is_serial (some s) = elim s.kind [ serial ↦ true | flash ↦ false ]

unfoldable pub claim_serial : Session → Board → Bool × Board
claim_serial s b = elim b.occupant [
  | some o ↦ (false, b)
  | none ↦ (true, record b { occupant = some s })
]

-- whether the claim succeeds, and the session that it displaces
unfoldable pub claim_flash : Session → Board → Bool × Option Session × Board
claim_flash s b =
    if is_flash b.occupant
    then (false, none, b)
    else (true, b.occupant, record b { occupant = some s })

-- `self.occupant is session`
abbrev pub occupies : Session → Option Session → Bool
occupies s none = false
occupies s (some o) = o.id == s.id

unfoldable pub release : Session → Board → Board
release s b = if occupies s b.occupant then record b { occupant = none } else b

unfoldable pub take_occupant : Board → Option Session × Board
take_occupant b = (b.occupant, record b { occupant = none })
