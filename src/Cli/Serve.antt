-- ===== src/Cli/Serve.antt =====
-- The token and the shutdown of `serve` in src/mbdeploy/cli.py.
pub mod Process
pub mod Shutdown
pub mod Signals
pub mod Token
mod Tests
use mbdeploy.Base.{
  ℕ, Bool, true, false, not, Option, none, some, List, [], ◌∷◌, ◌==◌, if◌then◌else◌,
}
use mbdeploy.Text.{Text, Unicode, codes, is_space, starts_with}
use mbdeploy.Text.Strip.{rstrip}
use mbdeploy.Text.Dict.{values}
use mbdeploy.Mdns.{Advertiser, close}
use mbdeploy.Server.Board.{Board}
use mbdeploy.Server.Supervisor.{Supervisor, close_listener}

-- what `read_text` does with a file
pub data Reading : Type 0 where
  content : Text → Reading
  os_error not_utf8 : Reading

-- the secret, or the `ValueError`
pub data Secret : Type 0 where
  secret : Option Text → Secret
  unreadable is_empty undecodable : Secret

abbrev pub of_token : Text → Secret
of_token [] = is_empty
of_token (c ∷ s) = secret (some (c ∷ s))

-- what Python's text mode makes of the ends of lines that it reads
unfoldable pub universal_newlines : Text → Text
universal_newlines [] = []
universal_newlines (c ∷ s) =
    let rest = universal_newlines s in
    if c == b'\r' then (if starts_with (codes "\n") s then rest else b'\n' ∷ rest) else c ∷ rest

-- `_resolve_serve_token`, by `--token` and `--token-file`
abbrev pub resolve_serve_token : Unicode → (Text → Reading) → Option Text → Option Text → Secret
resolve_serve_token u read (some token) token_file = secret (some token)
resolve_serve_token u read none none = secret none
resolve_serve_token u read none (some path) = elim (read path) [
  | content text ↦ of_token (rstrip (is_space u) (universal_newlines text))
  | os_error ↦ unreadable
  | not_utf8 ↦ undecodable
]

-- `_ServeShutdown` with what it refers to. `warned` tells of the line on stderr, and `accepting` is
-- false once the accept loop's selector is closed.
pub record Daemon (W : Type 0) : Type 0 where
  pub supervisor : Supervisor W
  pub stop_event : Bool
  pub accepting : Bool
  pub warned : Bool
  pub is_done : Bool

module _ {W : Type 0} where
  -- Each listener is unregistered and then closed; errors of either are ignored.
  abbrev pub close_listeners : Board → Supervisor W → Supervisor W
  close_listeners b y = close_listener b.flash_listener (close_listener b.serial_listener y)

  unfoldable pub close_boards : List Board → Supervisor W → Supervisor W
  close_boards [] y = y
  close_boards (b ∷ bs) y = close_boards bs (close_listeners b y)

  -- `_ServeShutdown.__call__`, which one thread at a time runs; `exits` tells whether the poll thread
  -- was over in time
  unfoldable pub shut_down : Bool → Daemon W → Daemon W
  shut_down exits d =
      if d.is_done
      then d
      else (let y = close_boards (values d.supervisor.boards) d.supervisor in
          record {
            supervisor = record y { advertiser = close y.advertiser };
            stop_event = true;
            accepting = false;
            warned = not exits;
            is_done = true;
          })
