-- ===== src/Devices/Store.antt =====
-- The registry file: `save_devices` and `load_devices` of src/mbdeploy/devices.py, and the set of
-- `connected_uids`. Files are a dictionary from paths to texts.
use mbdeploy.Base.{
  ◌≡◌, ◌≢◌, refl, Bool, true, false, Option, none, some, List, [], ◌∷◌, ◌++◌, arith, if◌then◌else◌,
}
use mbdeploy.Text.{Text}
use mbdeploy.Text.Equality.{same_iff}
use mbdeploy.Text.Dict.{Dict, get, put, get-put, get-put_self}
use mbdeploy.Devices.Registry.{Registry}
use mbdeploy.Devices.Probe.{load_devices}
use mbdeploy.Devices.Hardware.{member}
use mbdeploy.Devices.Usb.{Probe}

-- `json.dumps` with its options, and `json.loads` with `none` for a `ValueError`
pub record Json : Type 0 where
  pub dumps : Registry → Text
  pub loads : Text → Option Registry

-- What the file system does with a save: the directory cannot be made, the write fails and leaves a
-- part, or all is written.
pub data Disk : Type 0 where
  no_directory : Disk
  cut_off : Text → Disk
  writes : Disk

-- whether it returns, and the files
unfoldable pub save_devices : Json → Disk → Registry → Text → Dict Text → Bool × Dict Text
save_devices json no_directory devices path files = (false, files)
save_devices json (cut_off part) devices path files = (false, put path part files)
save_devices json writes devices path files =
    (true, put path (json.dumps devices ++ b'\n' ∷ []) files)

-- `json.loads(config_path.read_text())`; a file that is not there is an `OSError`
abbrev pub loaded : Json → Option Text → Option Registry
loaded json none = none
loaded json (some text) = json.loads text

unfoldable pub load_file : Json → Text → Dict Text → Registry
load_file json path files = load_devices (loaded json (get path files))

-- `{p["uid"] for p in flashable_probes()}`
unfoldable pub connected_uids : List Probe → List Text
connected_uids [] = []
connected_uids (p ∷ ps) =
    let rest = connected_uids ps in if member p.uid rest then rest else p.uid ∷ rest

-- Where JSON reads back a registry with the same entries, a save that returns is what the next load of
-- that path gives, entry by entry; whatever a save does, other files stay.
pub load_file-save_devices :
    (json : Json) (devices again : Registry) (path other uid : Text) (files : Dict Text)
    (disk : Disk)
    → json.loads (json.dumps devices ++ b'\n' ∷ []) ≡ some again
    → get uid again ≡ get uid devices
    → path ≢ other
    → let (saved, after) = save_devices json writes devices path files in
      (saved ≡ true)
      × (get uid (load_file json path after) ≡ get uid devices)
      × (get other (save_devices json disk devices path files).1 ≡ get other files)
unfolding save_devices load_file
load_file-save_devices json devices again path other uid files disk reads keeps differ = (
  refl,
  rw (get-put_self path (json.dumps devices ++ b'\n' ∷ []) files, reads) keeps,
  untouched disk,
)
  where
    apart : (text : Text) → get other (put path text files) ≡ get other files
    apart text = ground (arith, get-put path other text files, same_iff path other, differ)

    untouched :
        (disk : Disk) → get other (save_devices json disk devices path files).1 ≡ get other files
    untouched no_directory = refl
    untouched (cut_off part) = apart part
    untouched writes = apart (json.dumps devices ++ b'\n' ∷ [])
