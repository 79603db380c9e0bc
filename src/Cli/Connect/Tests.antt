-- ===== src/Cli/Connect/Tests.antt =====
-- `connect` of src/mbdeploy/cli.py on concrete boards.
use mbdeploy.Base.{some, ℕ, suc, true, false, none, List, [], ◌∷◌}
use mbdeploy.Text.{Text, codes, ascii_only}
use mbdeploy.Devices.Hardware.{Hardware}
use mbdeploy.Server.Wire.{Item, byte}
use mbdeploy.Remote.Resolve.{Found}
use mbdeploy.Console.{Port}
use mbdeploy.Cli.Connect.{Session, run_connect_session}
use mbdeploy.Cli.Connect.Local.{Desk}
use mbdeploy.Cli.Connect.Remote.{ConnectArgs, Ended, cmd_connect_remote}
use mbdeploy.Remote.Deploy.{got}
use mbdeploy.Cli.Connect.Closing.{CodeTells, SocketClosed, cmd_connect_remote_lem}

abbrev usb : Hardware ascii_only
usb = record {
  probes = codes "a1" ∷ [];
  comports = [];
  port_at = λ p. record { installed = true; opens = true; reads = [] };
  attach = λ uid override. none;
}

abbrev tty : Text
tty = codes "/dev/ttyACM0"

abbrev quiet_port : Port ℕ
quiet_port = record {
  clock = λ w. w;
  readline = λ w. ([], suc w);
  reset_input_buffer = λ w. w;
  write = λ message w. w;
  flush = λ w. w;
}

abbrev desk : Desk ascii_only ℕ
desk = record {
  hardware = usb;
  registry_file = none;
  serial = quiet_port;
  write_raises = λ message w. false;
  open_port = λ port w. some w;
  close_port = λ w. w;
}

abbrev tty_args : ConnectArgs
tty_args = record { target = tty; message = []; timeout = 2; stdin = [] }

abbrev remote_end : Ended
remote_end = record { code = 1; out = []; complaint = none; sock = none }

abbrev quiet_session : Session ℕ
quiet_session = run_connect_session ascii_only quiet_port (λ w. w) (λ message w. false) [] 2 4 [] 0

-- "ERR busy\n"
abbrev busy : List Item
busy =
    byte b'E'
    ∷ byte b'R'
    ∷ byte b'R'
    ∷ byte b' '
    ∷ byte b'b'
    ∷ byte b'u'
    ∷ byte b's'
    ∷ byte b'y'
    ∷ byte b'\n'
    ∷ []

abbrev vuzuz : Found
vuzuz = record {
  name = codes "vuzuz._mbserial._tcp.local.";
  host = codes "10.0.0.7";
  port = 9000;
  txt = [];
}

abbrev connect_args : ConnectArgs
connect_args = record { target = codes "vuzuz"; message = []; timeout = 2; stdin = [] }

-- "ok\n"
abbrev greeting : List Item
greeting = byte b'o' ∷ byte b'k' ∷ byte b'\n' ∷ []

-- a command to a board whose connection breaks at the write
cmd_connect_remote_lem_example :
    let e =
      cmd_connect_remote ascii_only
        (record connect_args { message = codes "get" ∷ [] })
        4
        (λ message w. true)
        (vuzuz ∷ [])
        (λ host port. got greeting) in
    CodeTells ascii_only e × SocketClosed ascii_only e
cmd_connect_remote_lem_example =
    cmd_connect_remote_lem ascii_only (record connect_args { message = codes "get" ∷ [] }) 4
      (λ message w. true) (vuzuz ∷ []) (λ host port. got greeting)
