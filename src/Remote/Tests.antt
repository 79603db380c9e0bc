-- ===== src/Remote/Tests.antt =====
-- Header lines that go from client to server.
use mbdeploy.Base.{◌↔◌, ◌≡◌, refl, none, some, [], ◌∷◌, ◌++◌, true, false, arith, ◌==◌, inl}
use mbdeploy.Text.{
  codes, ascii_only, same, starts_with, decode_replace, is_space, is_digit, decimal_value, Unicode,
}
use mbdeploy.Server.Header.{header, value_error, parse_flash_header}
use mbdeploy.Remote.Header.{flash_header}
use mbdeploy.Remote.Protocol.{parse_flash_header-flash_header, parse_flash_header-value_error}
use mbdeploy.Server.Wire.Reading.{bytes}
use mbdeploy.Server.Supervisor.{flash_service_type}
use mbdeploy.Remote.Resolve.{
  Found, board, resolve_board, matches, short_name, without_rename, ends_with, rename_suffix,
  closes,
}
use mbdeploy.Remote.Resolve.Unique.{resolve_board_unique}
use mbdeploy.Remote.Deploy.{
  Network, Report, got, deploy_over_network, client_read_line, relay_lines,
}
use mbdeploy.Remote.Deploy.Success.{Deployed, deploy_over_network-Deployed}
use mbdeploy.Text.Decimal.{int_of, show}

parse_flash_header-flash_header_example :
    parse_flash_header ascii_only (flash_header 1024 (codes "9f86d081") true)
    ≡ header (record { nbytes = 1024; sha256 = some (codes "9f86d081"); force_relay = true })
unfolding is_space show
parse_flash_header-flash_header_example =
    parse_flash_header-flash_header ascii_only 1024 (codes "9f86d081") true (ground arith)
      (ground arith)

-- Superscript two is a digit to `str.isdigit` and not to `int`.
abbrev superscripts : Unicode
superscripts = record ascii_only { digit = λ c. c == 178 }

parse_flash_header-value_error_example :
    parse_flash_header superscripts (codes "FLASH" ++ b' ' ∷ ((178 ∷ []) ++ b' ' ∷ []))
    ≡ value_error
unfolding is_space is_digit int_of decimal_value
parse_flash_header-value_error_example =
    parse_flash_header-value_error superscripts (178 ∷ []) [] refl refl (ground arith)

-- A board on the network, under the name that zeroconf gave it, and a server that flashes.
abbrev togov : Found
togov = record {
  name = codes "togov (2)._mbflash._tcp.local.";
  host = codes "10.0.0.7";
  port = 4001;
  txt = [];
}

abbrev togov_short : Found
togov_short = record togov { name = codes "togov" }

togov-board :
    resolve_board ascii_only (codes "togov") flash_service_type (togov ∷ []) ≡ board togov_short
unfolding resolve_board matches short_name without_rename ends_with rename_suffix closes same
    starts_with decimal_value
togov-board = refl

togov-name : short_name ascii_only togov.name flash_service_type ≡ codes "togov"
unfolding short_name without_rename ends_with rename_suffix closes same starts_with decimal_value
togov-name = refl

resolve_board_unique_example : (togov.host ≡ togov_short.host) × (togov.port ≡ togov_short.port)
resolve_board_unique_example =
    resolve_board_unique ascii_only (codes "togov") flash_service_type (togov ∷ []) togov_short
      togov togov-board (inl refl) togov-name

abbrev network : Network
network = record {
  results = togov ∷ [];
  read_bytes = λ path. got (codes "hex");
  sha256 = λ payload. codes "ab12";
  connect = λ host port. got (record {
    incoming = bytes (codes "OK send\nLOG Erasing\nOK flashed\n");
    header_error = none;
    payload_error = none;
  });
}

abbrev deployed : Report
deployed = deploy_over_network ascii_only network (codes "togov") (codes "a.hex") false

deployed-code : deployed.code ≡ 0
unfolding deploy_over_network resolve_board matches short_name without_rename ends_with
    rename_suffix closes same starts_with decimal_value client_read_line relay_lines decode_replace
deployed-code = refl

deploy_over_network-Deployed_example :
    (deployed.code ≡ 0)
    ↔ Deployed ascii_only network (codes "togov") (codes "a.hex") false deployed.sent
deploy_over_network-Deployed_example =
    deploy_over_network-Deployed ascii_only network (codes "togov") (codes "a.hex") false
