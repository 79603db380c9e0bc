-- ===== src/Cli/Builder.antt =====
-- `run` of src/mbdeploy/builder.py.
use mbdeploy.Base.{Bool, Option, none, some, [], ◌∷◌, ◌++◌, if◌then◌else◌, ℤ, pos}
use mbdeploy.Text.{Text, Unicode, codes, is_space}
use mbdeploy.Text.Split.{split}
use mbdeploy.Text.Decimal.{show_int}
use mbdeploy.Flash.{Argv}

-- Whether build.py is there, and `subprocess.run`.
pub record Tools (W : Type 0) : Type 0 where
  pub python : Text
  pub build_py : W → Bool
  pub run_command : Argv → W → ℤ × W

pub record Request : Type 0 where
  pub clean : Bool
  pub verbose : Bool
  pub jobs : Option ℤ
  pub build_cmd : Option Text

-- The exit code, the command that was run, and the world. No command: build.py was missing.
pub record Built (W : Type 0) : Type 0 where
  pub code : ℤ
  pub command : Option Argv
  pub world : W

-- the flags after the command
unfoldable pub flags : Request → Argv
flags r =
    (if r.clean then codes "--clean" ∷ [] else [])
    ++ ((if r.verbose then codes "--verbose" ∷ [] else [])
        ++ (elim r.jobs [ none ↦ [] | some n ↦ codes "-j" ∷ show_int n ∷ [] ]))

-- the command without its flags; `none` if there is nothing to run
abbrev pub base_command : {W : Type 0} → Unicode → Tools W → Option Text → W → Option Argv
base_command u tools none w =
    if tools.build_py w then some (tools.python ∷ codes "build.py" ∷ []) else none
base_command u tools (some []) w =
    if tools.build_py w then some (tools.python ∷ codes "build.py" ∷ []) else none
base_command u tools (some (c ∷ s)) w = some (split (is_space u) (c ∷ s))

abbrev run_base : {W : Type 0} → Tools W → Request → Option Argv → W → Built W
run_base tools r none w = record { code = pos 1; command = none; world = w }
run_base tools r (some cmd) w =
    let (rc, w') = tools.run_command (cmd ++ flags r) w in
    record { code = rc; command = some (cmd ++ flags r); world = w' }

unfoldable pub run : {W : Type 0} → Unicode → Tools W → Request → W → Built W
run u tools r w = run_base tools r (base_command u tools r.build_cmd w) w
