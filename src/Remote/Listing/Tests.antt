-- ===== src/Remote/Listing/Tests.antt =====
-- One board that shows both of its services, the second without a role.
use mbdeploy.Base.{◌≡◌, refl, false, some, [], ◌∷◌}
use mbdeploy.Text.{codes, ascii_only, same, starts_with}
use mbdeploy.Text.Dict.{get, put}
use mbdeploy.Remote.Resolve.{Found, short_name, ends_with, without_rename}
use mbdeploy.Remote.Listing.{
  Resolver, list_remote, group_all, group_each, add_row, row_of, key_of, resolve_hosts, sort_rows,
  insert_row, reverse_lookup,
}

abbrev serial_togov : Found
serial_togov = record {
  name = codes "togov._mbserial._tcp.local.";
  host = codes "10.0.0.7";
  port = 4000;
  txt = (codes "uid", codes "9906") ∷ (codes "role", codes "NEZHA2") ∷ [];
}

abbrev flash_togov : Found
flash_togov = record {
  name = codes "togov._mbflash._tcp.local.";
  host = codes "10.0.0.7";
  port = 4001;
  txt = (codes "uid", codes "9906") ∷ (codes "enum", codes "2") ∷ [];
}

abbrev names : Resolver
names = record {
  is_ipv4 = λ s. same s (codes "10.0.0.7");
  is_ipv6 = λ s. false;
  host_by_address = λ s. some (codes "null");
}

listed :
    list_remote ascii_only names (serial_togov ∷ []) (flash_togov ∷ [])
    ≡ record {
      enum = codes "2";
      name = codes "togov";
      common = [];
      role = codes "NEZHA2";
      uid = codes "9906";
      host = codes "null";
    }
      ∷ []
unfolding list_remote group_all group_each add_row row_of key_of resolve_hosts sort_rows insert_row
    reverse_lookup get put same short_name ends_with without_rename starts_with
listed = refl
