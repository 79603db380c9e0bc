-- ===== src/Cli/Serve/Tests.antt =====
-- The token and the shutdown of src/mbdeploy/cli.py on small cases.
use mbdeploy.Base.{◌≡◌, refl, true, false, none, some, [], ◌∷◌}
use mbdeploy.Text.{Text, codes, ascii_only, is_space, starts_with}
use mbdeploy.Text.Strip.{rstrip}
use mbdeploy.Devices.Registry.{no_entry}
use mbdeploy.Mdns.{new_advertiser, registered_service}
use mbdeploy.Server.Board.{Board, new_board}
use mbdeploy.Server.Supervisor.{serial_handler}
use mbdeploy.Cli.Serve.{content, Daemon, secret, is_empty, universal_newlines, resolve_serve_token}

-- a file of white space holds no secret
blank_file :
    resolve_serve_token ascii_only (λ path. content (codes " \n")) none (some (codes "t"))
    ≡ is_empty
unfolding rstrip is_space universal_newlines starts_with
blank_file = refl

-- A carriage return inside a secret is read back as a line feed.
inner_return :
    resolve_serve_token ascii_only (λ path. content (codes "a\rb\n")) none (some (codes "t"))
    ≡ secret (some (codes "a\nb"))
unfolding rstrip is_space universal_newlines starts_with
inner_return = refl

abbrev board : Board
board = new_board (codes "99") (codes "vuzuz") no_entry (some 3) (some 4)

abbrev daemon : Daemon Text
daemon = record {
  supervisor = record {
    boards = (codes "99", board) ∷ [];
    departed = [];
    known = [];
    next_port = 0;
    port_freelist = [];
    board_ports = [];
    advertiser =
        (registered_service (codes "vuzuz") (codes "_mbserial._tcp.local.") 9000 []
          new_advertiser).1;
    watched =
        record { listener = 3; handler = serial_handler none; uid = codes "99" }
        ∷ record { listener = 4; handler = serial_handler none; uid = codes "99" }
        ∷ [];
    closed_sockets = [];
    terminated = [];
    world = [];
  };
  stop_event = false;
  accepting = true;
  warned = false;
  is_done = false;
}
