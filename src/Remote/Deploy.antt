-- ===== src/Remote/Deploy.antt =====
-- `deploy_over_network` of src/mbdeploy/remote.py. What the sockets and the file give is the record
-- `Network`; the peer is a list of items as it is for the server.
pub mod Success
use mbdeploy.Base.{
  ℕ, zero, suc, ◌+◌, Bool, true, false, not, Option, none, some, List, [], ◌∷◌, ◌++◌, ◌==◌, ltb,
  leb, if◌then◌else◌, length, drop,
}
use mbdeploy.Text.{Text, Unicode, codes, same, starts_with, decode_replace}
use mbdeploy.Text.Decimal.{show}
use mbdeploy.Server.Wire.{Item, byte, idle, broken}
use mbdeploy.Server.Supervisor.{flash_service_type}
use mbdeploy.Remote.Header.{flash_header}
use mbdeploy.Remote.Resolve.{Found, Resolution, board, refused, resolve_board}

-- an answer, or the text of an `OSError`
pub data Try (A : Type 0) : Type 0 where
  got : A → Try A
  os_error : Text → Try A

-- A connection: what the peer sends, and what the two `sendall` give.
pub record Link : Type 0 where
  pub incoming : List Item
  pub header_error : Option Text
  pub payload_error : Option Text

pub record Network : Type 0 where
  pub results : List Found
  pub read_bytes : Text → Try Text
  pub sha256 : Text → Text
  pub connect : Text → ℕ → Try Link

-- What the call did: its exit code, what it sent, and what it printed on stderr.
pub record Report : Type 0 where
  pub code : ℕ
  pub sent : List Text
  pub printed : List Text

abbrev pub error_line : Text → Text
error_line text = codes "Error: " ++ text

abbrev pub fails : List Text → List Text → Text → Report
fails sent printed text = record {
  code = 1;
  sent = sent;
  printed = printed ++ error_line text ∷ [];
}

-- `_FLASH_READ_TIMEOUT`, which bounds one `recv`, and `max_len`
abbrev pub read_timeout : ℕ
read_timeout = 90

abbrev pub max_len : ℕ
max_len = 65536

unfoldable pub strip_err_prefix : Text → Text
strip_err_prefix line = if starts_with line (codes "ERR ") then drop 4 line else line

module _ (u : Unicode) where
  -- `_read_line`, with the time since the last byte and the bytes so far
  unfoldable pub client_read_line : ℕ → Text → List Item → Option Text × List Item
  client_read_line waited buf [] = (none, [])
  client_read_line waited buf (idle d ∷ items) =
      let later = client_read_line (waited + d) buf items in
      if leb read_timeout (waited + d) then (none, items) else later
  client_read_line waited buf (broken ∷ items) = (none, items)
  client_read_line waited buf (byte b ∷ items) =
      let buf' = buf ++ b ∷ [] in
      let later = client_read_line 0 buf' items in
      if b == b'\n'
      then (some (decode_replace u buf), items)
      else if ltb max_len (length buf')
      then (none, items)
      else later

  -- The loop on the lines after the payload. Each round takes an item: the fuel is above their number.
  unfoldable pub relay_lines : ℕ → Text → List Text → List Text → List Item → Report
  relay_lines zero label sent printed items = fails sent printed []
  relay_lines (suc fuel) label sent printed items =
      let (line, rest) = client_read_line 0 [] items in
      elim line [
        | none ↦ fails sent printed (
            codes "no response from "
            ++ (label ++ codes " (connection closed or timed out) before the flash finished."))
        | some text ↦
            let later = relay_lines fuel label sent (printed ++ drop 4 text ∷ []) rest in
            if starts_with text (codes "LOG ")
            then later
            else if same text (codes "OK flashed")
            then record { code = 0; sent = sent; printed = printed }
            else fails sent printed (strip_err_prefix text)
      ]

  abbrev pub send_payload : Text → Text → Link → List Text → List Item → Report
  send_payload label payload link sent items = elim link.payload_error [
    | some e ↦ fails sent [] (codes "cannot send payload to " ++ (label ++ (codes ": " ++ e)))
    | none ↦ relay_lines (suc (length items)) label (sent ++ payload ∷ []) [] items
  ]

  -- the reply to the header
  abbrev pub after_reply : Text → Text → Link → List Text → Option Text → List Item → Report
  after_reply label payload link sent none items = fails sent [] (
      codes "no response from "
      ++ (label ++ codes " (connection closed or timed out) while waiting for a reply to FLASH."))
  after_reply label payload link sent (some line) items =
      if same line (codes "OK send")
      then send_payload label payload link sent items
      else fails sent [] (strip_err_prefix line)

  abbrev pub exchange : Text → Text → Text → Link → Report
  exchange label header payload link = elim link.header_error [
    | some e ↦ fails [] [] (codes "cannot reach " ++ (label ++ (codes ": " ++ e)))
    | none ↦
        (let (line, rest) = client_read_line 0 [] link.incoming in
          after_reply label payload link (header ∷ []) line rest)
  ]

  abbrev pub label_of : Found → Text
  label_of f = f.name ++ (codes " (" ++ (f.host ++ b':' ∷ (show f.port ++ codes ")")))

  abbrev pub after_connect : Text → Text → Text → Try Link → Report
  after_connect label header payload (os_error e) =
      fails [] [] (codes "cannot connect to " ++ (label ++ (codes ": " ++ e)))
  after_connect label header payload (got link) = exchange label header payload link

  abbrev pub after_read : Network → Text → Bool → Found → Try Text → Report
  after_read net hex_path force f (os_error e) =
      fails [] [] (codes "cannot read '" ++ (hex_path ++ (codes "': " ++ e)))
  after_read net hex_path force f (got payload) =
      after_connect (label_of f)
        (flash_header (length payload) (net.sha256 payload) force ++ b'\n' ∷ []) payload
        (net.connect f.host f.port)

  abbrev pub after_resolve : Network → Text → Bool → Resolution → Report
  after_resolve net hex_path force (refused message) = fails [] [] message
  after_resolve net hex_path force (board f) =
      after_read net hex_path force f (net.read_bytes hex_path)

  unfoldable pub deploy_over_network : Network → Text → Text → Bool → Report
  deploy_over_network net name hex_path force =
      after_resolve net hex_path force (resolve_board u name flash_service_type net.results)
