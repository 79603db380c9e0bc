-- ===== src/Flash.antt =====
-- src/mbdeploy/flash.py: the pyocd flash, mass-erase recovery and reset sequence.
-- pyocd and intelhex are not part of the repository: `spawn` stands for running one command line,
-- `load` for `intelhex.IntelHex().loadhex`. The world that they act on is a type parameter.
pub mod Streaming
pub mod Recovery
pub mod Laws
pub mod Tests
use mbdeploy.Base.{
  ℕ, Bool, true, false, ◌&&◌, Option, none, some, List, [], ◌∷◌, ◌++◌, if◌then◌else◌, any, ℤ, pos,
  nonzero, ◌==◌,
}
use mbdeploy.Text.{Text, Unicode, codes, lower, contains, join}
use mbdeploy.Text.Strip.{rstrip}
use mbdeploy.Text.Decimal.{show_int}

abbrev pub Argv : Type 0
Argv = List Text

-- what a finished subprocess leaves: its exit code, and the lines of its output with their ends
pub record Process : Type 0 where
  pub exit : ℤ
  pub output : List Text

-- The outcome of `loadhex`: it returns, raises `OSError`, or raises `IntelHexError`.
pub data Loaded : Type 0 where
  parsed : Loaded
  os_error : Text → Loaded
  hex_error : Text → Loaded

abbrev pub transient_signatures : List Text
transient_signatures =
    codes "timeout reading from probe"
    ∷ codes "probe timeout"
    ∷ codes "communication failure"
    ∷ codes "communication fault"
    ∷ codes "transfer fault"
    ∷ codes "transfer error"
    ∷ codes "dapaccess"
    ∷ []

abbrev pub locked_signatures : List Text
locked_signatures =
    codes "0x67"
    ∷ codes "flash erase sector failure"
    ∷ codes "approtect"
    ∷ codes "access port protection"
    ∷ codes "authentication failed"
    ∷ codes "not authenticated"
    ∷ codes "device is locked"
    ∷ codes "target is locked"
    ∷ []

module _ (u : Unicode) where
  unfoldable pub looks_transient : Text → Bool
  looks_transient output =
      let lowered = lower u output in any (λ sig. contains sig lowered) transient_signatures

  unfoldable pub looks_locked : Text → Bool
  looks_locked output =
      let lowered = lower u output in any (λ sig. contains sig lowered) locked_signatures

-- the arguments of `flash_hex`, and the interpreter that runs pyocd
pub record Target : Type 0 where
  pub python : Text
  pub uid : Text
  pub hex_path : Text
  pub mcu : Text
  pub board_name : Option Text

abbrev pyocd : Target → Argv
pyocd t = t.python ∷ codes "-m" ∷ codes "pyocd" ∷ []

unfoldable pub flash_cmd : Target → Argv
flash_cmd t =
    pyocd t ++ (codes "flash" ∷ codes "-t" ∷ t.mcu ∷ codes "--uid" ∷ t.uid ∷ t.hex_path ∷ [])

unfoldable pub erase_cmd : Target → Argv
erase_cmd t =
    pyocd t ++ (codes "erase" ∷ codes "-t" ∷ t.mcu ∷ codes "--uid" ∷ t.uid ∷ codes "--mass" ∷ [])

unfoldable pub reset_cmd : Target → Argv
reset_cmd t = pyocd t ++ (codes "reset" ∷ codes "-t" ∷ t.mcu ∷ codes "--uid" ∷ t.uid ∷ [])

-- `board_name or uid`
abbrev pub name_or_uid : Option Text → Text → Text
name_or_uid none uid = uid
name_or_uid (some []) uid = uid
name_or_uid (some (c ∷ s)) uid = c ∷ s

-- the messages
unfoldable pub transient_message : Text
transient_message =
    codes
      "flash failed with a transient-looking probe/communication error — retrying once before any mass-erase decision."

unfoldable pub locked_message : Text
locked_message =
    codes "flash failed — attempting CTRL-AP mass erase to recover a locked device, then retrying."

unfoldable pub erase_message : ℤ → Text
erase_message rc = codes "Error: mass erase failed (exit " ++ (show_int rc ++ codes ").")

unfoldable pub wiped_message : Target → ℤ → Text
wiped_message t rc =
    codes "Error: flash still failed after mass erase (exit "
    ++ (show_int rc
        ++ (codes ") — "
            ++ (name_or_uid t.board_name t.uid
                ++ codes
                    " WAS ERASED AND NOW HAS NO FIRMWARE. It will not run until it is successfully reflashed.")))

unfoldable pub unrecognized_message : ℤ → Text
unrecognized_message rc =
    codes "Error: flash failed (exit "
    ++ (show_int rc
        ++ codes
            ") with no recognized recoverable signature -- not mass-erasing. If this device is actually locked/protected, run 'pyocd erase --mass' manually.")

-- one finished pyocd command: what was run, its exit code and the text that was matched
pub record Attempt : Type 0 where
  pub argv : Argv
  pub exit : ℤ
  pub output : Text

-- `log` holds the messages given to the log callback, and `ran` the finished commands, oldest first.
pub record Shell (W : Type 0) : Type 0 where
  pub world : W
  pub log : List Text
  pub ran : List Attempt

unfoldable pub strip_newline : Text → Text
unfolding rstrip
strip_newline = rstrip (λ c. c == b'\n')

module _ {W : Type 0} where
  abbrev pub start : W → Shell W
  start w = record { world = w; log = []; ran = [] }

  -- `_log`
  abbrev pub say : Text → Shell W → Shell W
  say m sh = record sh { log = sh.log ++ m ∷ [] }

  -- the loop over `proc.stdout`: each line is kept, and logged as it comes
  unfoldable pub relay_output : List Text → List Text → Shell W → List Text × Shell W
  relay_output [] lines sh = (lines, sh)
  relay_output (line ∷ rest) lines sh =
      let stripped = strip_newline line in
      relay_output rest (lines ++ stripped ∷ []) (say stripped sh)

module _ {W : Type 0} (u : Unicode) (spawn : Argv → W → Process × W)
    (load : Text → W → Loaded) where
  -- `load` is a load that raises no other exception than the two that are caught.
  unfoldable pub validate_hex : Text → W → Option Text
  validate_hex path w = elim (load path w) [
    | parsed ↦ none
    | os_error e ↦ some (codes "cannot read hex file " ++ (u.repr path ++ (codes ": " ++ e)))
    | hex_error e ↦ some (codes "invalid hex file " ++ (u.repr path ++ (codes ": " ++ e)))
  ]

  unfoldable pub run_streamed : Argv → Shell W → Attempt × Shell W
  run_streamed cmd sh =
      let (proc, w) = spawn cmd sh.world in
      let (lines, sh') = relay_output proc.output [] (record sh { world = w }) in
      let a : Attempt = record { argv = cmd; exit = proc.exit; output = join (codes "\n") lines } in
      (a, record sh' { ran = sh'.ran ++ a ∷ [] })

  -- the end of `flash_hex`: the reset
  reset : Target → Shell W → ℤ × Shell W
  reset t sh = let (a, sh') = run_streamed (reset_cmd t) sh in (a.exit, sh')

  -- `flash_hex` after the flash that follows a mass erase
  after_reflash : Target → Attempt × Shell W → ℤ × Shell W
  after_reflash t (b, sh) =
      if nonzero b.exit then (b.exit, say (wiped_message t b.exit) sh) else reset t sh

  -- `flash_hex` after the mass erase
  after_erase : Target → Attempt × Shell W → ℤ × Shell W
  after_erase t (e, sh) =
      if nonzero e.exit
      then (e.exit, say (erase_message e.exit) sh)
      else after_reflash t (run_streamed (flash_cmd t) sh)

  -- `flash_hex` from the decision on a locked part
  after_flash : Target → Attempt × Shell W → ℤ × Shell W
  after_flash t (a, sh) =
      if nonzero a.exit && looks_locked u a.output
      then after_erase t (run_streamed (erase_cmd t) (say locked_message sh))
      else if nonzero a.exit
      then (a.exit, say (unrecognized_message a.exit) sh)
      else reset t sh

  -- the blind retry of a transient failure
  retry_transient : Target → Attempt × Shell W → Attempt × Shell W
  retry_transient t (a, sh) =
      if nonzero a.exit && looks_transient u a.output
      then run_streamed (flash_cmd t) (say transient_message sh)
      else (a, sh)

  unfoldable pub flash_hex : Target → Shell W → ℤ × Shell W
  unfolding reset after_reflash after_erase after_flash retry_transient validate_hex
  flash_hex t sh = elim (validate_hex t.hex_path sh.world) [
    | some message ↦ (pos 1, say (codes "Error: " ++ message) sh)
    | none ↦ after_flash t (retry_transient t (run_streamed (flash_cmd t) sh))
  ]
