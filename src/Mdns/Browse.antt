-- ===== src/Mdns/Browse.antt =====
-- `browse` of src/mbdeploy/mdns.py with its listener, on the callbacks that zeroconf makes. The codec
-- is UTF-8, a parameter; `none` of it is bytes that are not UTF-8.
use mbdeploy.Base.{
  ℕ, ◌≡◌, refl, ap, ◌∙◌, Option, none, some, List, [], ◌∷◌, ◌==◌, if◌then◌else◌, Bool-cases, inl,
  inr,
}
use mbdeploy.Text.{Text, same}
use mbdeploy.Text.Dict.{Dict, get, put, remove, get-put, get-remove}
use mbdeploy.Text.Strip.{rstrip}
use mbdeploy.Remote.Resolve.{Found}

-- what zeroconf knows of a service; a TXT value may be missing
pub record Info : Type 0 where
  pub addresses : List Text
  pub server : Option Text
  pub info_port : ℕ
  pub properties : Dict (Option Text)

-- A callback, with what `get_service_info` answers.
pub data Callback : Type 0 where
  add_service update_service : Text → Option Info → Callback
  remove_service : Text → Callback

-- `_BrowseListener.add_service`
abbrev pub noted : Text → Option Info → Dict Info → Dict Info
noted name none found = found
noted name (some info) found = put name info found

abbrev pub called : Callback → Dict Info → Dict Info
called (add_service name answer) found = noted name answer found
called (update_service name answer) found = noted name answer found
called (remove_service name) found = remove name found

-- the callbacks in the order in which they come
unfoldable pub listen : List Callback → Dict Info → Dict Info
listen [] found = found
listen (c ∷ later) found = listen later (called c found)

unfoldable pub resolve_host : Info → Text
resolve_host info = elim info.addresses [
  | a ∷ others ↦ a
  | [] ↦ elim info.server [ none ↦ [] | some server ↦ rstrip (λ c. c == b'.') server ]
]

-- a TXT value; one that is missing is the empty text
abbrev pub decode_value : (Text → Option Text) → Option Text → Option Text
decode_value decode none = some []
decode_value decode (some v) = decode v

-- `_decode_txt`; `none` is the `UnicodeDecodeError`
unfoldable pub decode_txt :
    (Text → Option Text) → Dict (Option Text) → Dict Text → Option (Dict Text)
decode_txt decode [] decoded = some decoded
decode_txt decode ((key, value) ∷ more) decoded = elim (decode key) [
  | none ↦ none
  | some k ↦ elim (decode_value decode value) [
    | none ↦ none
    | some v ↦ decode_txt decode more (put k v decoded)
  ]
]

-- `_encode_txt`
unfoldable pub encode_txt : (Text → Text) → Dict Text → Dict (Option Text) → Dict (Option Text)
encode_txt encode [] encoded = encoded
encode_txt encode ((key, value) ∷ more) encoded =
    encode_txt encode more (put (encode key) (some (encode value)) encoded)

-- one result for each service; `none` is the `UnicodeDecodeError`
unfoldable pub results : (Text → Option Text) → Dict Info → Option (List Found)
results decode [] = some []
results decode ((name, info) ∷ more) =
    let rest = results decode more in
    elim (decode_txt decode info.properties []) [
      | none ↦ none
      | some txt ↦ elim rest [
        | none ↦ none
        | some found ↦ some (
            record { name = name; host = resolve_host info; port = info.info_port; txt = txt }
            ∷ found)
      ]
    ]

unfoldable pub browse : (Text → Option Text) → List Callback → Option (List Found)
browse decode callbacks = results decode (listen callbacks [])

-- what a callback says of a service: nothing, that it is there, or that it is gone
abbrev pub news : Text → Callback → Option (Option Info)
news name (add_service n none) = none
news name (add_service n (some info)) = if same n name then some (some info) else none
news name (update_service n none) = none
news name (update_service n (some info)) = if same n name then some (some info) else none
news name (remove_service n) = if same n name then some none else none

abbrev pub instead : Option (Option Info) → Option Info → Option Info
instead none before = before
instead (some now) before = now

-- the last news of a service, and `before` where there are none
abbrev pub last_news : Text → List Callback → Option Info → Option Info
last_news name [] before = before
last_news name (c ∷ later) before = last_news name later (instead (news name c) before)

get-called :
    (name : Text) (c : Callback) (found : Dict Info)
    → get name (called c found) ≡ instead (news name c) (get name found)
get-called name (add_service n none) found = refl
get-called name (add_service n (some info)) found = elim (Bool-cases (same n name)) [
  | inl y ↦ get-put n name info found ∙ rw y refl
  | inr f ↦ get-put n name info found ∙ rw f refl
]
get-called name (update_service n none) found = refl
get-called name (update_service n (some info)) found = elim (Bool-cases (same n name)) [
  | inl y ↦ get-put n name info found ∙ rw y refl
  | inr f ↦ get-put n name info found ∙ rw f refl
]
get-called name (remove_service n) found = elim (Bool-cases (same n name)) [
  | inl y ↦ get-remove n name found ∙ rw y refl
  | inr f ↦ get-remove n name found ∙ rw f refl
]

-- After any callbacks the listener holds of each service what its last news were: a lookup that fails
-- is no news, and a service that was removed is there again only after a later one that succeeds.
pub get-listen :
    (name : Text) (callbacks : List Callback) (found : Dict Info)
    → get name (listen callbacks found) ≡ last_news name callbacks (get name found)
unfolding listen
get-listen name [] found = refl
get-listen name (c ∷ later) found =
    get-listen name later (called c found) ∙ ap (last_news name later) (get-called name c found)
