-- ===== src/Server/Supervisor.antt =====
-- The `Supervisor` of src/mbdeploy/server.py: the tick that follows which boards are plugged in.
-- The hardware, the registry file and `socket` are the record `Env`. A Python set is the list of its
-- members in some order, and `_port_freelist` is listed newest first.
pub mod Sync
pub mod Arrival
pub mod Services
pub mod Listeners
pub mod Ports
pub mod Run
mod Tests
use mbdeploy.Base.{
  ℕ, ◌+◌, ◌-◌, Bool, true, false, not, Option, none, some, List, [], ◌∷◌, ◌++◌, ◌==◌, if◌then◌else◌,
  length, drop,
}
use mbdeploy.Text.{Text, Unicode, codes, same}
use mbdeploy.Text.Decimal.{show}
use mbdeploy.Text.Dict.{Dict, get, put, remove, values}
use mbdeploy.Devices.Hardware.{Hardware, member}
use mbdeploy.Devices.Registry.{Entry, no_entry, Registry}
use mbdeploy.Devices.Probe.{probe_all}
use mbdeploy.Mdns.{Advertiser, register, unregister}
use mbdeploy.Server.Board.{Session, Board, new_board, take_occupant}
use mbdeploy.Server.Serve.{Outcome, returned, raised}

-- `bind` gives the socket and its port, or the `OSError` of `_bind_listener`. `advertise` says whether
-- the registration of a service type and a port with the advertiser raises.
pub record Env (u : Unicode) (W : Type 0) : Type 0 where
  pub hardware : W → Hardware u
  pub saved : W → Option Registry
  pub save : Registry → W → W
  pub bind : Option ℕ → W → Option (ℕ × ℕ) × W
  pub advertise : Text → ℕ → W → Bool × W

pub record Settings : Type 0 where
  pub base_port : ℕ
  pub target_mcu : Text
  pub token : Option Text
  pub no_flash : Bool
  pub service_name : Option Text

-- the handler of a listener, with the arguments that are fixed when it is registered
pub data Handler : Type 0 where
  serial_handler : Option Text → Handler
  flash_handler : Option Text → Bool → Text → Handler

-- A listener that the accept loop watches: its socket, and its handler for the board with a UID.
pub record Watched : Type 0 where
  pub listener : ℕ
  pub handler : Handler
  pub uid : Text

-- `departed` holds the objects of the boards that were torn down, to which handlers may still refer.
pub record Supervisor (W : Type 0) : Type 0 where
  pub boards : Dict Board
  pub departed : List Board
  pub known : List Text
  pub next_port : ℕ
  pub port_freelist : List (ℕ × ℕ)
  pub board_ports : Dict (ℕ × ℕ)
  pub advertiser : Advertiser
  pub watched : List Watched
  pub closed_sockets : List ℕ
  pub terminated : List Session
  pub world : W

-- `a or b`, where a missing and an empty text are both false
abbrev pub or_else : Option Text → Text → Text
or_else none d = d
or_else (some []) d = d
or_else (some (c ∷ s)) d = c ∷ s

-- `uid[-8:]`
abbrev last_eight : Text → Text
last_eight s = drop (length s - 8) s

unfoldable pub instance_name : Entry → Text → Text
instance_name e uid = or_else e.board_name (or_else e.device_name (codes "mb-" ++ last_eight uid))

abbrev show_enum : Option ℕ → Text
show_enum none = []
show_enum (some n) = show n

unfoldable pub service_txt : Entry → Text → ℕ → Dict Text
service_txt e uid port =
    (codes "uid", or_else e.uid uid)
    ∷ (codes "role", or_else e.role [])
    ∷ (codes "common_name", or_else e.common_name [])
    ∷ (codes "enum", show_enum e.enum)
    ∷ (codes "port", show port)
    ∷ []

abbrev has_uid : Text → Entry → Bool
has_uid uid e = elim e.uid [ none ↦ false | some v ↦ same v uid ]

-- `next((e for e in entries if e.get("uid") == uid), {"uid": uid})`
unfoldable pub entry_for : Text → List Entry → Entry
entry_for uid [] = record no_entry { uid = some uid }
entry_for uid (e ∷ es) = if has_uid uid e then e else entry_for uid es

abbrev pub serial_service_type : Text
serial_service_type = codes "_mbserial._tcp.local."

abbrev pub flash_service_type : Text
flash_service_type = codes "_mbflash._tcp.local."

-- the listeners without one; a no-op if it is not watched
unfoldable pub unwatch : ℕ → List Watched → List Watched
unwatch l [] = []
unwatch l (w ∷ ws) = let rest = unwatch l ws in if w.listener == l then rest else w ∷ rest

-- one of a board's two mDNS services
abbrev pub withdraw : Option ℕ → Advertiser → Advertiser
withdraw none a = a
withdraw (some h) a = unregister h a

-- `a - b` on sets
unfoldable pub minus : List Text → List Text → List Text
minus [] b = []
minus (x ∷ a) b = let rest = minus a b in if member x b then rest else x ∷ rest

-- `{p["uid"] for p in probes}`
unfoldable pub set_of : List Text → List Text
set_of [] = []
set_of (x ∷ l) = let rest = set_of l in if member x rest then rest else x ∷ rest

-- the board object as the departure leaves it
abbrev pub gone_board : Board → Board
gone_board b = record b {
  connected = false;
  occupant = none;
  serial_mdns_handle = none;
  flash_mdns_handle = none;
  serial_listener = none;
  flash_listener = none;
}

module _ {W : Type 0} where
  unfoldable pub alloc_ports : Settings → Supervisor W → Option ℕ × Option ℕ × Supervisor W
  alloc_ports cfg y = if cfg.base_port == 0 then (none, none, y) else elim y.port_freelist [
    | (p, q) ∷ rest ↦ (some p, some q, record y { port_freelist = rest })
    | [] ↦ (some y.next_port, some (y.next_port + 1), record y { next_port = y.next_port + 2 })
  ]

  -- one of a board's two listeners
  abbrev pub close_listener : Option ℕ → Supervisor W → Supervisor W
  close_listener none y = y
  close_listener (some l) y = record y {
    watched = unwatch l y.watched;
    closed_sockets = y.closed_sockets ++ l ∷ [];
  }

  abbrev pub displace : Option Session → Supervisor W → Supervisor W
  displace none y = y
  displace (some s) y = record y { terminated = y.terminated ++ s ∷ [] }

  unfoldable pub reclaim : Text → Supervisor W → Supervisor W
  reclaim uid y = elim (get uid y.board_ports) [
    | none ↦ y
    | some pair ↦ record y {
      board_ports = remove uid y.board_ports;
      port_freelist = pair ∷ y.port_freelist;
    }
  ]

  unfoldable pub tear_down : Text → Board → Supervisor W → Supervisor W
  unfolding reclaim
  tear_down uid b y =
      let gone =
        displace (take_occupant b).0
          (record y { boards = remove uid y.boards; departed = gone_board b ∷ y.departed }) in
      let quiet = record gone {
        advertiser = withdraw b.flash_mdns_handle (withdraw b.serial_mdns_handle gone.advertiser);
      } in
      reclaim uid (close_listener b.flash_listener (close_listener b.serial_listener quiet))

  -- A board that is not there is left alone.
  unfoldable pub on_departure : Text → Supervisor W → Supervisor W
  on_departure uid y = elim (get uid y.boards) [ none ↦ y | some b ↦ tear_down uid b y ]

  unfoldable pub depart_all : List Text → Supervisor W → Supervisor W
  depart_all [] y = y
  depart_all (uid ∷ uids) y = depart_all uids (on_departure uid y)

  abbrev pub remember : List Text → Outcome × Supervisor W → Outcome × Supervisor W
  remember current (raised, y) = (raised, y)
  remember current (returned, y) = (returned, record y { known = current })

module _ {W : Type 0} (u : Unicode) (env : Env u W) (cfg : Settings) where
  -- The new board, once its two services have handles. The accept loop takes both listeners: they are
  -- new sockets, and its selector is open.
  unfoldable pub completed : Text → Entry → ℕ × ℕ → ℕ × ℕ → ℕ → ℕ → Supervisor W → Supervisor W
  completed uid e (l, p) (m, q) h k y =
      let name = or_else cfg.service_name (instance_name e uid) in
      let board = record (new_board uid name e (some l) (some m)) {
        serial_mdns_handle = some h;
        flash_mdns_handle = some k;
      } in
      record y {
        watched =
            record { listener = l; handler = serial_handler cfg.token; uid = uid }
            ∷ record {
              listener = m;
              handler = flash_handler cfg.token cfg.no_flash cfg.target_mcu;
              uid = uid;
            }
            ∷ y.watched;
        boards = put uid board y.boards;
        board_ports = if cfg.base_port == 0 then y.board_ports else put uid (p, q) y.board_ports;
      }

  -- Once both listeners are bound. An exception of the second registration keeps the first.
  unfoldable pub set_up : Text → Entry → ℕ × ℕ → ℕ × ℕ → Supervisor W → Outcome × Supervisor W
  set_up uid e (l, p) (m, q) y =
      let name = or_else cfg.service_name (instance_name e uid) in
      let (refused, v) = env.advertise serial_service_type p y.world in
      let (serial, a) =
        register refused name serial_service_type p (service_txt e uid p) y.advertiser in
      elim serial [
        | none ↦ (raised, record y { advertiser = a; world = v })
        | some h ↦
            let (refused_too, w) = env.advertise flash_service_type q v in
            let (flash, b) =
              register refused_too name flash_service_type q (service_txt e uid q) a in
            elim flash [
              | none ↦ (raised, record y { advertiser = b; world = w })
              | some k ↦ (
                returned,
                completed uid e (l, p) (m, q) h k (record y { advertiser = b; world = w }),
              )
            ]
      ]

  abbrev pub bound_second :
      Text → Entry → ℕ × ℕ → Option (ℕ × ℕ) → Supervisor W → Outcome × Supervisor W
  bound_second uid e first none y = (raised, y)
  bound_second uid e first (some second) y = set_up uid e first second y

  abbrev pub bound_first :
      Text → Entry → Option (ℕ × ℕ) → Option ℕ → Supervisor W → Outcome × Supervisor W
  bound_first uid e none port y = (raised, y)
  bound_first uid e (some first) port y =
      let (second, w) = env.bind port y.world in
      bound_second uid e first second (record y { world = w })

  -- An `OSError` of a bind leaves the method, and keeps what was allocated until then.
  unfoldable pub bind_both : Text → Entry → Supervisor W → Outcome × Supervisor W
  bind_both uid e y =
      let (p, q, allocated) = alloc_ports cfg y in
      let (first, w) = env.bind p allocated.world in
      bound_first uid e first q (record allocated { world = w })

  abbrev pub probed : Text → Option Registry → Supervisor W → Outcome × Supervisor W
  probed uid none y = (raised, y)
  probed uid (some entries) y =
      bind_both uid (entry_for uid (values entries)) (record y { world = env.save entries y.world })

  unfoldable pub on_arrival : Text → Supervisor W → Outcome × Supervisor W
  on_arrival uid y =
      let hw = env.hardware y.world in
      probed uid (probe_all u cfg.target_mcu hw (env.saved y.world) false (some (uid ∷ []))) y

  unfoldable pub arrive_all : List Text → Supervisor W → Outcome × Supervisor W
  arrive_all [] y = (returned, y)
  arrive_all (uid ∷ uids) y =
      let (o, z) = on_arrival uid y in
      elim o [ raised ↦ (raised, z) | returned ↦ arrive_all uids z ]

  -- An exception of an arrival leaves the tick before `_known` is replaced.
  unfoldable pub tick : List Text → Supervisor W → Outcome × Supervisor W
  tick probes y =
      let current = set_of probes in
      remember current (arrive_all (minus current y.known) (depart_all (minus y.known current) y))
