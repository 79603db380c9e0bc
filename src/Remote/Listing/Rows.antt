-- ===== src/Remote/Listing/Rows.antt =====
-- The rows of `list_remote` of src/mbdeploy/remote.py.
use mbdeploy.Base.{
  ◌≡◌, refl, sym, ap, ◌∙◌, true, ◌||◌, some, List, [], ◌∷◌, arith, map, any, if◌then◌else◌, is_nil,
  is_some, Bool-cases, Option-cases, inl, inr,
}
use mbdeploy.Text.{Text, Unicode, same}
use mbdeploy.Text.Equality.{same_iff, same_refl}
use mbdeploy.Text.Dict.{Dict, get, put, has, values, get-put}
use mbdeploy.Remote.Resolve.{Found}
use mbdeploy.Server.Supervisor.{serial_service_type, flash_service_type}
use mbdeploy.Remote.Listing.{
  Resolver, Row, txt_field, reverse_lookup, add_row, row_of, key_of, group_each, group_all,
  sort_rows, resolve_hosts, list_remote,
}

add_row-has :
    (key k : Text) (fields : Row) (grouped : Dict Row)
    → has k (add_row key fields grouped) ≡ (same key k || has k grouped)
unfolding add_row
add_row-has key k fields grouped = elim (Option-cases (get key grouped)) [
  | inl n ↦ rw (n, add_row, get-put) (ground arith)
  | inr (row, e) ↦ rw (e, add_row, get-put) (ground arith)
]

module _ (u : Unicode) where
  group_each-has :
      (service_type k : Text) (fs : List Found) (grouped : Dict Row)
      → has k (group_each u service_type fs grouped)
        ≡ (any (λ f. same (key_of u service_type f) k) fs || has k grouped)
  unfolding group_each
  group_each-has service_type k [] grouped = refl
  group_each-has service_type k (f ∷ fs) grouped = ground (
    arith,
    group_each-has service_type k fs
        (add_row (key_of u service_type f) (row_of u service_type f) grouped),
    add_row-has (key_of u service_type f) k (row_of u service_type f) grouped,
  )

-- Every host in the cache is there with its name.
abbrev CacheOk : Resolver → Dict Text → Type 0
CacheOk r cache = (h : Text) → has h cache ≡ true → txt_field cache h ≡ reverse_lookup r h

-- the row that is shown for a row
abbrev pub shown : Resolver → Row → Row
shown r row = record row { host = reverse_lookup r row.host }

put-CacheOk :
    (r : Resolver) (cache : Dict Text) (host : Text)
    → CacheOk r cache
    → CacheOk r (put host (reverse_lookup r host) cache)
put-CacheOk r cache host ok h k =
    let e = get-put host h (reverse_lookup r host) cache in
    elim (Bool-cases (same host h)) [
      | inl y ↦
          let new_entry : get h (put host (reverse_lookup r host) cache)
              ≡ some (reverse_lookup r host) =
            rw (e, y) refl in
          rw (new_entry, txt_field) (ap (reverse_lookup r) ((same_iff host h).0 y))
      | inr n ↦
          let same_entry : get h (put host (reverse_lookup r host) cache) ≡ get h cache =
            rw (e, n) refl in
          rw (same_entry, txt_field) (ok h (ap is_some (sym same_entry) ∙ k))
    ]

-- the cache after a host was looked up
abbrev looked_up : Resolver → Dict Text → Text → Dict Text
looked_up r cache host = if has host cache then cache else put host (reverse_lookup r host) cache

looked_up-CacheOk :
    (r : Resolver) (cache : Dict Text) (host : Text)
    → CacheOk r cache
    → CacheOk r (looked_up r cache host)
looked_up-CacheOk r cache host ok = elim (Bool-cases (has host cache)) [
  | inl y ↦ rw y ok
  | inr n ↦ rw n (put-CacheOk r cache host ok)
]

looked_up-has :
    (r : Resolver) (cache : Dict Text) (host : Text) → has host (looked_up r cache host) ≡ true
looked_up-has r cache host = elim (Bool-cases (has host cache)) [
  | inl y ↦ rw y y
  | inr n ↦ rw (n, get-put, same_refl) refl
]

reverse_lookup_nil :
    (r : Resolver) (host : Text) → is_nil host ≡ true → reverse_lookup r host ≡ host
unfolding reverse_lookup
reverse_lookup_nil r host y = rw y refl

resolve_hosts-shown :
    (r : Resolver) (cache : Dict Text) (rows : List Row)
    → CacheOk r cache
    → resolve_hosts r cache rows ≡ map (shown r) rows
unfolding resolve_hosts
resolve_hosts-shown r cache [] ok = refl
resolve_hosts-shown r cache (row ∷ rows) ok = elim (Bool-cases (is_nil row.host)) [
  | inl y ↦
      let skipped : resolve_hosts r cache (row ∷ rows) ≡ row ∷ resolve_hosts r cache rows =
        rw (y, resolve_hosts) refl in
      let same_row : row ≡ shown r row =
        ap (λ h. record row { host = h }) (sym (reverse_lookup_nil r row.host y)) in
      skipped
      ∙ (ap (λ l. row ∷ l) (resolve_hosts-shown r cache rows ok)
          ∙ ap (λ x. x ∷ map (shown r) rows) same_row)
  | inr n ↦
      let ok' = looked_up-CacheOk r cache row.host ok in
      let here = ok' row.host (looked_up-has r cache row.host) in
      let c = looked_up r cache row.host in
      let done : resolve_hosts r cache (row ∷ rows)
          ≡ record row { host = txt_field c row.host } ∷ resolve_hosts r c rows =
        rw (n, resolve_hosts) refl in
      done
      ∙ (ap (λ h. record row { host = h } ∷ resolve_hosts r c rows) here
          ∙ ap (λ l. shown r row ∷ l) (resolve_hosts-shown r c rows ok'))
]

-- The network listing has a row for exactly each board: the keys of the rows are those of the
-- results on the two service types, and the rows are those, sorted, with every host shown as it
-- would be without the cache.
pub list_remote-has :
    (u : Unicode) (r : Resolver) (serials flashes : List Found) (k : Text)
    → (has k (group_all u serials flashes) ≡ (
        any (λ f. same (key_of u flash_service_type f) k) flashes
        || any (λ f. same (key_of u serial_service_type f) k) serials))
      × (list_remote u r serials flashes
          ≡ map (shown r) (sort_rows (values (group_all u serials flashes))))
unfolding group_all list_remote get
list_remote-has u r serials flashes k =
    let first = group_each-has u serial_service_type k serials [] in
    (
      group_each-has u flash_service_type k flashes _ ∙ rw first (ground arith),
      resolve_hosts-shown r [] (sort_rows (values (group_all u serials flashes)))
          (λ h e. absurd (cc e)),
    )
