-- ===== src/Cli/Serve/Token.antt =====
-- The secret that `--install-service --token` of src/mbdeploy/cli.py stores is the one that the daemon
-- reads.
use mbdeploy.Base.{none, some}
use mbdeploy.Text.{Text}
use mbdeploy.Text.Dict.{Dict, get}
use mbdeploy.Cli.Service.{File}
use mbdeploy.Cli.Serve.{Reading, content, os_error}

-- what is read of the files
abbrev pub read_file : Dict File → Text → Reading
read_file files path = elim (get path files) [ none ↦ os_error | some file ↦ content file.content ]
