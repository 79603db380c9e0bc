-- ===== src/Cli/Serve/Process/Tests.antt =====
-- `serve` of src/mbdeploy/cli.py with a token file, on a host where one board is plugged in.
use mbdeploy.Base.{ℕ, ◌+◌, ◌≡◌, ◌≤◌, ◌⊎◌, refl, true, false, none, some, List, [], ◌∷◌, All}
use mbdeploy.Text.{Text, codes, ascii_only, is_space, starts_with}
use mbdeploy.Text.Strip.{rstrip}
use mbdeploy.Devices.Hardware.{Hardware}
use mbdeploy.Server.Supervisor.Listeners.{watching}
use mbdeploy.Server.Supervisor.{Env, Settings, serial_handler, flash_handler}
use mbdeploy.Cli.Service.{ServeArgs}
use mbdeploy.Cli.Service.Tests.{machine, args}
use mbdeploy.Cli.Serve.{Reading, content, os_error, Daemon, shut_down, universal_newlines}
use mbdeploy.Cli.Serve.Process.{
  refused, stopped, build_serve_runtime, serving, run_serve, cmd_serve,
}
use mbdeploy.Cli.Serve.Process.Stopped.{serve_leaves_nothing}
use mbdeploy.Cli.Serve.Process.Authenticated.{token_is_required}
use mbdeploy.Cli.Serve.Signals.{
  Frame, MainThread, enters, holds, begins, acquires, claims, finishes, Reach, start, next_step,
  idle,
}
use mbdeploy.Cli.Serve.Signals.Once.{closing_frames, closing_at_most_once, signal_in_lock_hangs}

abbrev usb : Hardware ascii_only
usb = record {
  probes = codes "a1" ∷ [];
  comports = [];
  port_at = λ p. record { installed = true; opens = true; reads = [] };
  attach = λ uid override. none;
}

-- The world is the next socket.
abbrev host : Env ascii_only ℕ
host = record {
  hardware = λ w. usb;
  saved = λ w. none;
  save = λ r w. w;
  bind = λ port w. (some (w, w + 50000), w + 1);
  advertise = λ type port w. (false, w);
}

abbrev token_args : ServeArgs
token_args = record args {
  token = none;
  token_file = some (codes "/etc/t");
  install_service = false;
}

abbrev reader : Text → Reading
reader path = content (codes "s3cret\n")

abbrev polls : List (List Text)
polls = (codes "a1" ∷ []) ∷ []

abbrev finished : Daemon ℕ
finished =
    (run_serve ascii_only host (build_serve_runtime token_args 9000 (some (codes "s3cret"))) polls
      3).1

finished_lem : cmd_serve ascii_only host machine [] reader token_args polls 3 ≡ stopped 0 finished
unfolding cmd_serve run_serve rstrip is_space universal_newlines starts_with
finished_lem = refl

token_is_required_example :
    (t : Text) × (n : ℕ) × (finished
      ≡ (run_serve ascii_only host (build_serve_runtime token_args n (some t)) polls 3).1)
    × All
        (λ w.
          (w.handler ≡ serial_handler (some t))
          ⊎ (w.handler ≡ flash_handler (some t) true (codes "nrf52833")))
        (serving ascii_only host
          (build_serve_runtime token_args n (some t))
          polls
          3).supervisor.watched
token_is_required_example =
    token_is_required ascii_only host machine [] reader token_args polls 3 0 finished refl
      finished_lem

-- a token file that cannot be read stops the command
no_file : cmd_serve ascii_only host machine [] (λ p. os_error) token_args polls 3 ≡ refused 1
unfolding cmd_serve
no_file = refl

abbrev once_done : MainThread
once_done = record { frames = []; is_locked = false; is_done = true; closings = 1 }

-- A call comes, and closes.
one_call : Reach idle once_done
one_call =
    next_step
      (next_step (next_step (next_step start (begins _)) (acquires _ [] refl refl))
        (claims _ [] refl refl))
      (finishes _ [] refl)

closing_at_most_once_example : (1 ≤ 1) × (1 + closing_frames [] ≤ 1)
closing_at_most_once_example = closing_at_most_once one_call

abbrev in_lock : MainThread
in_lock = record { frames = holds ∷ []; is_locked = true; is_done = false; closings = 0 }

-- A second signal comes inside the `with`.
signal_in_lock_hangs_example :
    let z : MainThread = record in_lock { frames = enters ∷ enters ∷ holds ∷ [] } in
    (z.is_locked ≡ true)
    × (z.closings ≡ 0)
    × ((f : Frame) × (fs : List Frame) × (z.frames ≡ f ∷ fs))
signal_in_lock_hangs_example =
    signal_in_lock_hangs {y = in_lock} [] refl refl (next_step start (begins _))

abbrev settings : Settings
settings = build_serve_runtime token_args 9000 (some (codes "s3cret"))

serve_leaves_nothing_example :
    let (code, d) = run_serve ascii_only host settings polls 3 in
    (code ≡ 0)
    × (watching 3 (codes "a1") d.supervisor.watched ≡ false)
    × (d.supervisor.advertiser.handles ≡ [])
    × (d.accepting ≡ false)
    × (d.stop_event ≡ true)
    × (d ≡ shut_down true (serving ascii_only host settings polls 3))
serve_leaves_nothing_example = serve_leaves_nothing ascii_only host settings polls 3 3 (codes "a1")
