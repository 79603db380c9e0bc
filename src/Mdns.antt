-- ===== src/Mdns.antt =====
-- The `Advertiser` of src/mbdeploy/mdns.py. python-zeroconf is not part of the repository: what is
-- asked of it is recorded, in order.
pub mod Browse
pub mod Closing
pub mod Handles
pub mod Txt
mod Tests
use mbdeploy.Base.{
  ℕ, ◌+◌, Bool, true, false, Option, none, some, List, [], ◌∷◌, ◌++◌, ◌==◌, if◌then◌else◌, map,
}
use mbdeploy.Text.{Text}
use mbdeploy.Text.Dict.{Dict}

-- The arguments of `zeroconf.ServiceInfo` that come from the caller.
pub record Service : Type 0 where
  pub service_name : Text
  pub service_type : Text
  pub port : ℕ
  pub properties : Dict Text

pub data Call : Type 0 where
  register_service : Service → Call
  unregister_service : Service → Call
  close_zeroconf : Call

-- `calls` are the calls of zeroconf that returned.
pub record Advertiser : Type 0 where
  pub handles : List (ℕ × Service)
  pub next_handle : ℕ
  pub is_closed : Bool
  pub calls : List Call

-- `Advertiser.__init__`
abbrev pub new_advertiser : Advertiser
new_advertiser = record { handles = []; next_handle = 1; is_closed = false; calls = [] }

-- `register`, once zeroconf has registered the service
abbrev pub registered_service : Text → Text → ℕ → Dict Text → Advertiser → ℕ × Advertiser
registered_service name type port txt a =
    let info : Service = record {
      service_name = name ++ b'.' ∷ type;
      service_type = type;
      port = port;
      properties = txt;
    } in
    (
      a.next_handle,
      record a {
        next_handle = a.next_handle + 1;
        handles = (a.next_handle, info) ∷ a.handles;
        calls = a.calls ++ register_service info ∷ [];
      },
    )

-- `true` is an exception of `_local_ip` or of zeroconf's `register_service`, before a handle is given.
abbrev pub register : Bool → Text → Text → ℕ → Dict Text → Advertiser → Option ℕ × Advertiser
register true name type port txt a = (none, a)
register false name type port txt a =
    let (h, b) = registered_service name type port txt a in (some h, b)

-- the service behind a handle
unfoldable pub service_at : ℕ → List (ℕ × Service) → Option Service
service_at h [] = none
service_at h ((k, info) ∷ rest) = if k == h then some info else service_at h rest

unfoldable pub without_handle : ℕ → List (ℕ × Service) → List (ℕ × Service)
without_handle h [] = []
without_handle h ((k, info) ∷ rest) =
    let others = without_handle h rest in if k == h then others else (k, info) ∷ others

unfoldable pub unregister : ℕ → Advertiser → Advertiser
unregister h a = elim (service_at h a.handles) [
  | none ↦ a
  | some info ↦ record a {
    handles = without_handle h a.handles;
    calls = a.calls ++ unregister_service info ∷ [];
  }
]

-- The loop of `close`, over the handles as they were when it began, the oldest first; they are listed
-- newest first.
unfoldable pub unregister_each : List ℕ → Advertiser → Advertiser
unregister_each [] a = a
unregister_each (h ∷ hs) a = unregister h (unregister_each hs a)

unfoldable pub close : Advertiser → Advertiser
close a =
    if a.is_closed
    then a
    else (let b = unregister_each (map (λ h. h.0) a.handles) a in
        record b { is_closed = true; calls = b.calls ++ close_zeroconf ∷ [] })
