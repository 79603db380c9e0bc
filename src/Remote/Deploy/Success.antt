-- ===== src/Remote/Deploy/Success.antt =====
-- When `deploy_over_network` of src/mbdeploy/remote.py returns 0.
use mbdeploy.Base.{
  ◌<◌, ◌+◌, ◌↔◌, ℕ, zero, suc, ◌≡◌, ◌≢◌, refl, sym, ap, ◌∙◌, Bool, true, Option, none, some, List,
  [], ◌∷◌, ◌++◌, arith, length, drop, Bool-cases, Option-cases, ◌⊎◌, inl, inr,
}
use mbdeploy.Text.{Text, Unicode, codes, same, starts_with}
use mbdeploy.Text.Equality.{same_iff}
use mbdeploy.Text.Search.{starts_with-drop}
use mbdeploy.Server.Wire.{Item, byte, idle, broken}
use mbdeploy.Server.Supervisor.{flash_service_type}
use mbdeploy.Remote.Header.{flash_header}
use mbdeploy.Remote.Resolve.{Found, Resolution, board, refused, resolve_board}
use mbdeploy.Remote.Deploy.{
  Try, got, os_error, Link, Network, Report, client_read_line, relay_lines, send_payload,
  after_reply, exchange, after_connect, after_read, after_resolve, deploy_over_network, label_of,
}

module _ (u : Unicode) where
  -- The peer's lines are log lines, and then "OK flashed".
  pub data Succeeds : List Item → Type 0 where
    flashed :
        {items rest : List Item}
        → client_read_line u 0 [] items ≡ (some (codes "OK flashed"), rest)
        → Succeeds items
    logged :
        {items rest : List Item} (message : Text)
        → client_read_line u 0 [] items ≡ (some (codes "LOG " ++ message), rest)
        → Succeeds rest
        → Succeeds items

  abbrev next : ℕ → Text → List Text → List Text → List Item → Text → Report
  next fuel label sent printed items text =
      relay_lines u fuel label sent (printed ++ drop 4 text ∷ []) (client_read_line u 0 [] items).1

  relay_lines-none :
      (fuel : ℕ) (label : Text) (sent printed : List Text) (items : List Item)
      → (client_read_line u 0 [] items).0 ≡ none
      → (relay_lines u (suc fuel) label sent printed items).code ≢ 0
  unfolding relay_lines
  relay_lines-none fuel label sent printed items e h = ground (arith, e)

  relay_lines-some :
      (fuel : ℕ) (label : Text) (sent printed : List Text) (items : List Item) (text : Text)
      → (client_read_line u 0 [] items).0 ≡ some text
      → let r = relay_lines u (suc fuel) label sent printed items in
        r.code ≡ 0
        → ((starts_with text (codes "LOG ") ≡ true) × (r ≡ next fuel label sent printed items text))
          ⊎ ((text ≡ codes "OK flashed") × (r.sent ≡ sent))
  unfolding relay_lines
  relay_lines-some fuel label sent printed items text e h =
      elim (Bool-cases (starts_with text (codes "LOG "))) [
        | inl y ↦ inl (y, rw (e, y, relay_lines) refl)
        | inr n ↦ elim (Bool-cases (same text (codes "OK flashed"))) [
          | inl y ↦ inr ((same_iff text (codes "OK flashed")).0 y, ground (arith, e))
          | inr m ↦ absurd (ground (arith, e))
        ]
      ]

  relay_lines-code :
      (fuel : ℕ) (label : Text) (sent printed : List Text) (items : List Item)
      → (relay_lines u fuel label sent printed items).code ≡ 0
      → Succeeds items × ((relay_lines u fuel label sent printed items).sent ≡ sent)
  relay_lines-code zero label sent printed items h = unfold relay_lines in absurd (omega (arith, h))
  relay_lines-code (suc fuel) label sent printed items h =
      let read = client_read_line u 0 [] items in
      elim (Option-cases read.0) [
        | inl n ↦ absurd (relay_lines-none fuel label sent printed items n h)
        | inr (text, e) ↦ elim (relay_lines-some fuel label sent printed items text e h) [
          | inl (y, r) ↦
              let (ok, s) =
                relay_lines-code fuel label sent _ read.1 (ap (λ o. o.code) (sym r) ∙ h) in
              (
                logged {rest = read.1} (drop 4 text)
                    (cc (e, starts_with-drop (codes "LOG ") text y)) ok,
                ap (λ o. o.sent) r ∙ s,
              )
          | inr (y, s) ↦ (flashed {rest = read.1} (cc (e, y)), s)
        ]
      ]

  -- Both messages are sent, and the peer accepts the header, and then the payload.
  abbrev pub Accepts : Link → Type 0
  Accepts link =
      (link.header_error ≡ none)
      × (link.payload_error ≡ none)
      × (rest : List Item) × (client_read_line u 0 [] link.incoming
          ≡ (some (codes "OK send"), rest))
      × Succeeds rest

  send_payload-code :
      (label payload : Text) (link : Link) (sent : List Text) (items : List Item)
      → let r = send_payload u label payload link sent items in
        r.code ≡ 0 → (link.payload_error ≡ none) × Succeeds items × (r.sent ≡ sent ++ payload ∷ [])
  send_payload-code label payload link sent items h = elim (Option-cases link.payload_error) [
    | inr (e, y) ↦ absurd (ground (arith, y))
    | inl n ↦
        let lines = relay_lines u (suc (length items)) label (sent ++ payload ∷ []) [] items in
        let same_report : send_payload u label payload link sent items ≡ lines = rw n refl in
        let (ok, s) =
          relay_lines-code (suc (length items)) label (sent ++ payload ∷ []) [] items
            (ap (λ r. r.code) (sym same_report) ∙ h) in
        (n, ok, ap (λ r. r.sent) same_report ∙ s)
  ]

  after_reply-code :
      (label payload : Text) (link : Link) (sent : List Text) (line : Option Text)
      (items : List Item)
      → let r = after_reply u label payload link sent line items in
        r.code ≡ 0
        → (line ≡ some (codes "OK send"))
          × (link.payload_error ≡ none)
          × Succeeds items
          × (r.sent ≡ sent ++ payload ∷ [])
  after_reply-code label payload link sent none items h = absurd (omega (arith, h))
  after_reply-code label payload link sent (some line) items h =
      elim (Bool-cases (same line (codes "OK send"))) [
        | inr n ↦ absurd (ground (arith, n))
        | inl y ↦
            let accepted : after_reply u label payload link sent (some line) items
                ≡ send_payload u label payload link sent items =
              rw y refl in
            let (free, ok, s) =
              send_payload-code label payload link sent items
                (ap (λ r. r.code) (sym accepted) ∙ h) in
            (
              ap some ((same_iff line (codes "OK send")).0 y),
              free,
              ok,
              ap (λ r. r.sent) accepted ∙ s,
            )
      ]

  exchange-code :
      (label header payload : Text) (link : Link)
      → let r = exchange u label header payload link in
        r.code ≡ 0 → Accepts link × (r.sent ≡ header ∷ payload ∷ [])
  exchange-code label header payload link h = elim (Option-cases link.header_error) [
    | inr (e, y) ↦ absurd (ground (arith, y))
    | inl n ↦
        let read = client_read_line u 0 [] link.incoming in
        let reply = after_reply u label payload link (header ∷ []) read.0 read.1 in
        let sent : exchange u label header payload link ≡ reply = rw n refl in
        let (line, free, ok, s) =
          after_reply-code label payload link (header ∷ []) read.0 read.1
            (ap (λ r. r.code) (sym sent) ∙ h) in
        ((n, free, read.1, cc line, ok), ap (λ r. r.sent) sent ∙ s)
  ]

  -- A board, the bytes of the file, and a connection on which the server accepted them.
  abbrev pub Deployed : Network → Text → Text → Bool → List Text → Type 0
  Deployed net name hex_path force sent =
      (f : Found) × (payload : Text) × (link : Link) × (resolve_board u name flash_service_type
          net.results
        ≡ board f)
      × (net.read_bytes hex_path ≡ got payload)
      × (net.connect f.host f.port ≡ got link)
      × Accepts link
      × (sent
          ≡ (flash_header (length payload) (net.sha256 payload) force ++ b'\n' ∷ []) ∷ payload ∷ [])

  after_connect-code :
      (label header payload : Text) (link : Try Link)
      → let r = after_connect u label header payload link in
        r.code ≡ 0 → (l : Link) × (link ≡ got l) × Accepts l × (r.sent ≡ header ∷ payload ∷ [])
  after_connect-code label header payload (os_error e) h = absurd (omega (arith, h))
  after_connect-code label header payload (got link) h =
      let (a, s) = exchange-code label header payload link h in (link, refl, a, s)

  after_read-code :
      (net : Network) (hex_path : Text) (force : Bool) (f : Found) (file : Try Text)
      → let r = after_read u net hex_path force f file in
        r.code ≡ 0
        → (payload : Text) × (link : Link) × (file ≡ got payload)
          × (net.connect f.host f.port ≡ got link)
          × Accepts link
          × (r.sent
              ≡ (flash_header (length payload) (net.sha256 payload) force ++ b'\n' ∷ [])
                ∷ payload
                ∷ [])
  after_read-code net hex_path force f (os_error e) h = absurd (omega (arith, h))
  after_read-code net hex_path force f (got payload) h =
      let (l, e, a, s) =
        after_connect-code (label_of u f) _ payload (net.connect f.host f.port) h in
      (payload, l, refl, e, a, s)

  after_resolve-code :
      (net : Network) (hex_path : Text) (force : Bool) (r : Resolution)
      → (after_resolve u net hex_path force r).code ≡ 0
      → (f : Found) × (r ≡ board f)
        × ((after_read u net hex_path force f (net.read_bytes hex_path)).code ≡ 0)
  after_resolve-code net hex_path force (refused m) h = absurd (omega (arith, h))
  after_resolve-code net hex_path force (board f) h = (f, refl, h)

  client_read_line-length :
      (waited : ℕ) (buf line : Text) (items rest : List Item)
      → client_read_line u waited buf items ≡ (some line, rest)
      → length rest < length items
  unfolding client_read_line
  client_read_line-length waited buf line [] rest h = absurd (cc (ap (λ r. r.0) h))
  client_read_line-length waited buf line (idle d ∷ items) rest h =
      let ih = client_read_line-length (waited + d) buf line items rest in ground (arith, ih)
  client_read_line-length waited buf line (broken ∷ items) rest h = absurd (cc (ap (λ r. r.0) h))
  client_read_line-length waited buf line (byte b ∷ items) rest h =
      let ih = client_read_line-length 0 (buf ++ b ∷ []) line items rest in ground (arith, ih)

  -- Enough fuel is given: a peer that succeeds makes the loop return 0.
  relay_lines-Succeeds :
      (fuel : ℕ) (label : Text) (sent printed : List Text) (items : List Item)
      → length items < fuel
      → Succeeds items
      → (relay_lines u fuel label sent printed items).code ≡ 0
  unfolding relay_lines starts_with same
  relay_lines-Succeeds zero label sent printed items f s = absurd (omega (arith, f))
  relay_lines-Succeeds (suc fuel) label sent printed items f (flashed {rest = rest} e) =
      rw (ap (λ r. r.0) e, relay_lines) refl
  relay_lines-Succeeds (suc fuel) label sent printed items f (logged {rest = rest} message e s) =
      let shorter = client_read_line-length 0 [] _ items rest e in
      rw (ap (λ r. r.0) e, ap (λ r. r.1) e, relay_lines)
        (relay_lines-Succeeds fuel label sent _ rest (omega (arith, f, shorter)) s)

  exchange-Accepts :
      (label header payload : Text) (link : Link)
      → Accepts link
      → (exchange u label header payload link).code ≡ 0
  unfolding same
  exchange-Accepts label header payload link (n, free, rest, e, s) =
      rw (n, ap (λ r. r.0) e, ap (λ r. r.1) e, free)
        (relay_lines-Succeeds (suc (length rest)) label _ [] rest (omega arith) s)

  -- `deploy_over_network` returns 0 exactly if the name resolves to a board, the file is read, the
  -- connection is made, exactly the header line for these bytes and the bytes are sent without an
  -- error, and the server answers "OK send", then log lines, then "OK flashed".
  pub deploy_over_network-Deployed :
      (net : Network) (name hex_path : Text) (force : Bool)
      → let r = deploy_over_network u net name hex_path force in
        (r.code ≡ 0) ↔ Deployed net name hex_path force r.sent
  unfolding deploy_over_network
  deploy_over_network-Deployed net name hex_path force =
      let resolved = resolve_board u name flash_service_type net.results in
      (
        λ h.
            let (f, e, k) = after_resolve-code net hex_path force resolved h in
            let (payload, link, file, conn, a, s) =
              after_read-code net hex_path force f (net.read_bytes hex_path) k in
            (
              f,
              payload,
              link,
              e,
              file,
              conn,
              a,
              ap (λ r. (after_resolve u net hex_path force r).sent) e ∙ s,
            ),
        λ (f, payload, link, e, file, conn, a, s).
            rw (e, file, conn) (exchange-Accepts (label_of u f) _ payload link a),
      )
