-- ===== src/Remote/Listing.antt =====
-- `list_remote` of src/mbdeploy/remote.py: one row for each board that the network shows. What
-- `socket` knows about addresses is the record `Resolver`.
pub mod Rows
mod Tests
use mbdeploy.Base.{
  ℕ, ◌-◌, Bool, true, false, not, ◌&&◌, ◌||◌, Option, none, some, List, [], ◌∷◌, ◌++◌, map, ◌==◌,
  ltb, if◌then◌else◌, length, take, is_nil,
}
use mbdeploy.Text.{Text, Unicode, codes, same}
use mbdeploy.Text.Strip.{rstrip}
use mbdeploy.Text.Dict.{Dict, get, put, has, values}
use mbdeploy.Remote.Resolve.{Found, ends_with, short_name}
use mbdeploy.Server.Supervisor.{serial_service_type, flash_service_type}

-- Whether `inet_pton` takes the text, for either family, and the name of `gethostbyaddr`.
pub record Resolver : Type 0 where
  pub is_ipv4 : Text → Bool
  pub is_ipv6 : Text → Bool
  pub host_by_address : Text → Option Text

pub record Row : Type 0 where
  pub enum : Text
  pub name : Text
  pub common : Text
  pub role : Text
  pub uid : Text
  pub host : Text

-- `_txt_field`: a missing field is the empty text
abbrev pub txt_field : Dict Text → Text → Text
txt_field txt key = elim (get key txt) [ none ↦ [] | some value ↦ value ]

-- `a or b` on texts
abbrev pub either : Text → Text → Text
either [] b = b
either (c ∷ s) b = c ∷ s

abbrev pub looks_like_ip : Resolver → Text → Bool
looks_like_ip r value = r.is_ipv4 value || r.is_ipv6 value

-- a host name without its trailing dots and its `.local`
unfoldable pub tidy_host : Text → Text
tidy_host host =
    let name = rstrip (λ c. c == b'.') host in
    let short =
      if ends_with name (codes ".local")
      then take (length name - length (codes ".local")) name
      else name in
    either short host

unfoldable pub reverse_lookup : Resolver → Text → Text
reverse_lookup r host =
    if is_nil host
    then host
    else if looks_like_ip r host
    then elim (r.host_by_address host) [ some name ↦ name | none ↦ host ]
    else tidy_host host

-- two rows of one board: what the first lacks comes from the second
abbrev pub merge : Row → Row → Row
merge row fields = record {
  enum = either row.enum fields.enum;
  name = either row.name fields.name;
  common = either row.common fields.common;
  role = either row.role fields.role;
  uid = either row.uid fields.uid;
  host = either row.host fields.host;
}

-- `grouped[key]`, in the order in which the keys came
unfoldable pub add_row : Text → Row → Dict Row → Dict Row
add_row key fields grouped = elim (get key grouped) [
  | none ↦ put key fields grouped
  | some row ↦ put key (merge row fields) grouped
]

module _ (u : Unicode) where
  unfoldable pub row_of : Text → Found → Row
  row_of service_type f = record {
    enum = txt_field f.txt (codes "enum");
    name = short_name u f.name service_type;
    common = txt_field f.txt (codes "common_name");
    role = txt_field f.txt (codes "role");
    uid = txt_field f.txt (codes "uid");
    host = f.host;
  }

  unfoldable pub key_of : Text → Found → Text
  key_of service_type f =
      either (txt_field f.txt (codes "uid")) (codes "name:" ++ short_name u f.name service_type)

  -- the results of one `browse`
  unfoldable pub group_each : Text → List Found → Dict Row → Dict Row
  unfolding add_row
  group_each service_type [] grouped = grouped
  group_each service_type (f ∷ fs) grouped =
      group_each service_type fs (add_row (key_of service_type f) (row_of service_type f) grouped)

  unfoldable pub group_all : List Found → List Found → Dict Row
  unfolding group_each
  group_all serials flashes =
      group_each flash_service_type flashes (group_each serial_service_type serials [])

-- `a <= b` on texts, and on the sort keys
unfoldable pub text_le : Text → Text → Bool
text_le [] t = true
text_le (c ∷ s) [] = false
text_le (c ∷ s) (d ∷ t) = let later = text_le s t in if c == d then later else ltb c d

unfoldable pub row_le : Row → Row → Bool
row_le a b = if same a.name b.name then text_le a.uid b.uid else text_le a.name b.name

unfoldable pub insert_row : Row → List Row → List Row
insert_row a [] = a ∷ []
insert_row a (b ∷ rows) =
    let later = insert_row a rows in if row_le a b then a ∷ b ∷ rows else b ∷ later

-- `rows.sort`, which is stable
unfoldable pub sort_rows : List Row → List Row
sort_rows [] = []
sort_rows (a ∷ rows) = insert_row a (sort_rows rows)

-- The loop that replaces the hosts, with its cache.
unfoldable pub resolve_hosts : Resolver → Dict Text → List Row → List Row
resolve_hosts r cache [] = []
resolve_hosts r cache (row ∷ rows) =
    let cached =
      if has row.host cache then cache else put row.host (reverse_lookup r row.host) cache in
    let skipped = resolve_hosts r cache rows in
    let done = record row { host = txt_field cached row.host } ∷ resolve_hosts r cached rows in
    if is_nil row.host then row ∷ skipped else done

unfoldable pub list_remote : Unicode → Resolver → List Found → List Found → List Row
list_remote u r serials flashes =
    resolve_hosts r [] (sort_rows (values (group_all u serials flashes)))
