-- ===== src/Cli/Service/Machine.antt =====
-- What the service commands of src/mbdeploy/cli.py are given, what they do to the machine, and what they
-- leave.
use mbdeploy.Base.{ℕ, Bool, Option, ℤ}
use mbdeploy.Text.{Text}
use mbdeploy.Text.Dict.{Dict}

pub data Scope : Type 0 where
  system user : Scope

-- The arguments of `serve`; `poll_interval` is what `:g` prints of it.
pub record ServeArgs : Type 0 where
  pub config : Option Text
  pub poll_interval : Text
  pub base_port : ℤ
  pub bind : Option Text
  pub token : Option Text
  pub token_file : Option Text
  pub no_flash : Bool
  pub target_mcu : Text
  pub service_name : Option Text
  pub print_service : Bool
  pub install_service : Bool
  pub service_scope : Option Scope

pub record File : Type 0 where
  pub content : Text
  pub mode : ℕ

-- what goes to stderr
pub data Complaint : Type 0 where
  token_with_print_service : Complaint
  cannot_install : Text → Complaint

-- the exit code, stdout and stderr, and the files after it
pub record Ran : Type 0 where
  pub code : ℕ
  pub out : Text
  pub complaint : Option Complaint
  pub files : Dict File

pub data Op : Type 0 where
  make_dir : Text → Op
  write_text : Text → Text → Op
  chmod : Text → ℕ → Op

-- The machine: what `shutil.which` finds, the interpreter, the working directory, what `pathlib` makes
-- of a path, the mode of a new file, and the calls that raise `OSError`.
pub record System : Type 0 where
  pub which : Option Text
  pub python : Text
  pub cwd : Text
  pub is_absolute : Text → Bool
  pub resolve : Text → Text
  pub expand_user : Text → Text
  pub new_mode : ℕ
  pub refuses : Op → Bool
