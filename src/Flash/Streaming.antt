-- ===== src/Flash/Streaming.antt =====
-- `_run_streamed` of src/mbdeploy/flash.py: what one pyocd command leaves in the log and returns.
use mbdeploy.Base.{◌≡◌, ◌∙◌, List, [], ◌∷◌, ◌++◌, map, append-nil, append_assoc}
use mbdeploy.Text.{Text, Unicode, codes, join}
use mbdeploy.Flash.{
  Argv, Process, Loaded, Attempt, Shell, strip_newline, relay_output, run_streamed, say,
}

module _ {W : Type 0} where
  relay_output_lem :
      (output lines : List Text) (sh : Shell W)
      → relay_output output lines sh ≡ (
        lines ++ map strip_newline output,
        record sh { log = sh.log ++ map strip_newline output },
      )
  unfolding relay_output
  relay_output_lem [] lines sh = rw (append-nil lines, append-nil sh.log)
  relay_output_lem (line ∷ rest) lines sh =
      relay_output_lem rest (lines ++ strip_newline line ∷ []) (say (strip_newline line) sh)
      ∙ rw (
        append_assoc lines (strip_newline line ∷ []) (map strip_newline rest),
        append_assoc sh.log (strip_newline line ∷ []) (map strip_newline rest),
      )

module _ {W : Type 0} (u : Unicode) (spawn : Argv → W → Process × W)
    (load : Text → W → Loaded) where
  -- what `cmd` prints and how it ends, run in the world `w`
  abbrev pub attempt : Argv → W → Attempt
  attempt cmd w = record {
    argv = cmd;
    exit = (spawn cmd w).0.exit;
    output = join (codes "\n") (map strip_newline (spawn cmd w).0.output);
  }

  -- Running a command appends each line that it prints, in order and with its newline stripped, to
  -- the log and nothing else; the text returned for matching is the same lines joined; the
  -- command is recorded as run.
  pub run_streamed_lem :
      (cmd : Argv) (sh : Shell W)
      → run_streamed u spawn load cmd sh ≡ (
        attempt cmd sh.world,
        record {
          world = (spawn cmd sh.world).1;
          log = sh.log ++ map strip_newline (spawn cmd sh.world).0.output;
          ran = sh.ran ++ attempt cmd sh.world ∷ [];
        },
      )
  unfolding run_streamed
  run_streamed_lem cmd sh = simp relay_output_lem
