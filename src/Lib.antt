-- ===== src/Lib.antt =====
-- mbdeploy finds micro:bit boards, flashes them through pyocd, and serves them on the network.
--
-- The program and the files that model it:
--
-- - Flash: src/mbdeploy/flash.py. `flash_hex` with its recovery, its decisions as the functions
--   retry_transient, after_flash, after_erase, after_reflash and reset, composed as in the source.
--   A Shell carries the world, the log and the pyocd commands that have finished. Spawning a
--   command and `intelhex` are parameters. Flash.Recovery states the procedure as a step relation.
-- - Devices: src/mbdeploy/devices.py. Name is `friendly_name`, Announce is `probe_type` with its
--   two dialects, Hardware is `port_serial_map` and `read_device_id`, Registry is the entries and
--   `assign_enum`, Usb is `flashable_probes` with its fallback, Probe is `probe_all`, Resolve is
--   `resolve_target`, Store the registry file. The answers of pyserial and pyOCD are the record
--   Hardware.
-- - Server: src/mbdeploy/server.py. Board has the sessions and the methods of `Board`; Sessions
--   interleaves the handlers of one board as a step relation, and Sessions.Ending ends one. Wire
--   has `_read_line`, `_read_exact` and `_authenticate` on a peer that is a list of bytes, pauses
--   and breaks. Header is `_parse_flash_header`. Serve is `serve_serial` and `serve_flash`: its
--   functions after_auth, read_command, after_line, run_command, flash_command, claim_and_flash,
--   flash_claimed, after_payload and flash_payload are consecutive parts of the body, each early
--   return a result. Supervisor is the tick with `_on_arrival`, `_on_departure` and `_alloc_ports`,
--   Supervisor.Run the polling thread. Of the functions of an arrival, set_up begins where both
--   listeners are bound and has the two calls of the advertiser, either of which may raise, and
--   completed is the rest. Accept is `AcceptLoop`, as the steps of its thread and the calls of
--   others.
-- - Mdns: the `Advertiser` of src/mbdeploy/mdns.py, with what it asks of zeroconf as a list of
--   calls; Mdns.Closing is its `close`, Mdns.Browse is `browse` on the callbacks of zeroconf,
--   Mdns.Txt the TXT records.
-- - Remote: src/mbdeploy/remote.py. Header is the header line that the client sends, Resolve is
--   `_short_name` and `resolve_board`, Listing is `list_remote`, Deploy is `deploy_over_network`,
--   Socket is `SocketSerial`, with one function per round of its loops (on_recv, take_in,
--   drain_in).
-- - Console: src/mbdeploy/console.py. `send_command` over a record Port, a port with a clock, and
--   the caller's thread of `interact`. OverSocket makes `SocketSerial` such a port. Relay is
--   `relay_socket` and Interact is `interact`, each a step relation of its two threads and the stop
--   event. Open is `open_port`, as the calls that it makes.
-- - Cli: src/mbdeploy/cli.py and src/mbdeploy/builder.py. Builder is `run`; Deploy is `_cmd_deploy`
--   with what it calls, its guards as after_build, confirm and guard_relay in the order of the
--   source; Connect is `connect` with its port or its socket; Listing is `_device_rows`,
--   `_cmd_list` and `_cmd_probe`; Service is the systemd unit with the quoting of its command, and
--   Serve the token and the shutdown of the daemon, Serve.Process the whole command, Serve.Signals
--   the calls of the shutdown that interrupt one another.
-- - Text and Base: Python's strings as lists of code points with the methods that the program
--   calls, dictionaries as association lists, and shared helpers. What Python does outside ASCII is
--   the record Unicode, a parameter.
--
-- How they interact: `serve_flash` runs `flash_hex` on the payload, with the log going to the
-- client; `_on_arrival` runs `probe_all` on one UID; the client of Remote writes the header that
-- Server.Header reads. `deploy` runs the builder and then `flash_hex` or `deploy_over_network`;
-- `connect --remote` runs `send_command` on the adapter of Remote.Socket, unless its write raises;
-- the token file that Cli.Service writes is read by Cli.Serve, which runs the Supervisor with it and
-- closes the listeners of its boards and the Advertiser at the end.
--
-- Fuel and bounds: `read_exact` recurses on fuel above the number of items on the connection, as
-- each round but the last takes an item; `relay_lines` and the loops of `SocketSerial` likewise.
-- `send_command` has fuel above its timeout in ticks, and each read moves the clock. `show` has
-- fuel above the number that it prints. `int` refuses more than 4300 digits, as Python does. Times
-- are natural numbers of ticks. An exception is the outcome `raised`, with the state as it was
-- left.
--
-- Not modelled: the parser, that is the declarations of argparse, and the printing of tables and of
-- the agent manual; the relay of bytes inside the serial handler (a parameter there); a tick that
-- outlasts the join of the shutdown; what the reader thread of an interactive `connect` prints, as
-- part of the command (Console.Interact has it); an exception of `loadhex` in a local `deploy`
-- other than the two that are caught; a failure of the selector to take a new socket while it is
-- open; the scripts under scripts/, which are experiments that the program does not use; and what
-- pyocd, pyserial, zeroconf, pathlib and the file system do.
pub mod Base
pub mod Text
pub mod Flash
pub mod Devices
pub mod Server
pub mod Remote
pub mod Mdns
pub mod Cli
pub mod Console
