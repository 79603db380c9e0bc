-- ===== src/Server/Supervisor/Services.antt =====
-- The mDNS services of src/mbdeploy/server.py: while no arrival fails, none outlives its board.
use mbdeploy.Base.{
  ℕ, ◌+◌, ◌≡◌, ◌≢◌, sym, ap, ◌∙◌, true, Option, none, some, List, [], ◌∷◌, arith, ◌==◌,
  if◌then◌else◌, is_some, Bool-cases, Option-cases, inl, inr, ◌⊎◌,
}
use mbdeploy.Text.{Text, Unicode, same}
use mbdeploy.Text.Equality.{same_iff}
use mbdeploy.Text.Dict.{get, remove, get-put, get-put_self, get-remove}
use mbdeploy.Devices.Registry.{Entry}
use mbdeploy.Server.Supervisor.Arrival.{installation, serial_registered, on_arrival-returned}
use mbdeploy.Mdns.{Service, Advertiser, unregister, service_at, without_handle}
use mbdeploy.Server.Board.{Board}
use mbdeploy.Server.Serve.{returned}
use mbdeploy.Server.Supervisor.{
  Env, Settings, Supervisor, on_arrival, on_departure, tear_down, reclaim, completed, alloc_ports,
  withdraw,
}

abbrev Holds : ℕ → Board → Type 0
Holds h b = (b.serial_mdns_handle ≡ some h) ⊎ (b.flash_mdns_handle ≡ some h)

abbrev Registered : ℕ → Advertiser → Type 0
Registered h a = is_some (service_at h a.handles) ≡ true

-- Every service that is registered is one of a live board.
abbrev pub Advertised : {W : Type 0} → Supervisor W → Type 0
Advertised y =
    (h : ℕ)
    → is_some (service_at h y.advertiser.handles) ≡ true
    → (uid : Text) × (b : Board) × (get uid y.boards ≡ some b)
      × ((b.serial_mdns_handle ≡ some h) ⊎ (b.flash_mdns_handle ≡ some h))

without_handle-at :
    (h k : ℕ) (l : List (ℕ × Service))
    → service_at k (without_handle h l) ≡ (if h == k then none else service_at k l)
unfolding service_at without_handle
without_handle-at h k [] = ground arith
without_handle-at h k ((j, info) ∷ l) = ground (arith, without_handle-at h k l)

unregister-Registered :
    (h k : ℕ) (a : Advertiser) → Registered k (unregister h a) → (h ≢ k) × Registered k a
unfolding unregister
unregister-Registered h k a r = ground (arith, r, without_handle-at h k a.handles)

withdraw-Registered :
    (o : Option ℕ) (k : ℕ) (a : Advertiser)
    → Registered k (withdraw o a)
    → (o ≢ some k) × Registered k a
withdraw-Registered none k a r = (λ e. cc, r)
withdraw-Registered (some h) k a r =
    let (n, s) = unregister-Registered h k a r in (λ e. n (cc e), s)

module _ {W : Type 0} where
  pub tear_down-parts :
      (uid : Text) (b : Board) (y : Supervisor W)
      → ((tear_down uid b y).boards ≡ remove uid y.boards)
        × ((tear_down uid b y).advertiser
            ≡ withdraw b.flash_mdns_handle (withdraw b.serial_mdns_handle y.advertiser))
  unfolding tear_down reclaim
  tear_down-parts uid b y = (ground arith, ground arith)

  tear_down-Advertised :
      (uid : Text) (b : Board) (y : Supervisor W)
      → get uid y.boards ≡ some b
      → Advertised y
      → Advertised (tear_down uid b y)
  tear_down-Advertised uid b y e adv h r =
      let (boards, advertiser) = tear_down-parts uid b y in
      let (nf, r1) =
        withdraw-Registered b.flash_mdns_handle h (withdraw b.serial_mdns_handle y.advertiser)
          (ap (λ (a : Advertiser). is_some (service_at h a.handles)) (sym advertiser) ∙ r) in
      let (ns, r0) = withdraw-Registered b.serial_mdns_handle h y.advertiser r1 in
      let (k, c, g, holds) = adv h r0 in
      elim (Bool-cases (same uid k)) [
        | inl q ↦
            let same_key = (same_iff uid k).0 q in
            let same_board : b ≡ c = cc (e, g, same_key) in
            absurd (elim holds [
              | inl p ↦ ns (ap (λ (x : Board). x.serial_mdns_handle) same_board ∙ p)
              | inr p ↦ nf (ap (λ (x : Board). x.flash_mdns_handle) same_board ∙ p)
            ])
        | inr n ↦ (k, c, rw (boards, get-remove, n) g, holds)
      ]

  pub on_departure-Advertised :
      (uid : Text) (y : Supervisor W) → Advertised y → Advertised (on_departure uid y)
  unfolding on_departure
  on_departure-Advertised uid y adv = elim (Option-cases (get uid y.boards)) [
    | inl n ↦ rw (n, on_departure) adv
    | inr (b, e) ↦ rw (e, on_departure) (tear_down-Advertised uid b y e adv)
  ]

module _ {W : Type 0} (u : Unicode) (env : Env u W) (cfg : Settings) where
  installation-Advertised :
      (uid : Text) (e : Entry) (first second : ℕ × ℕ) (y : Supervisor W)
      → get uid y.boards ≡ none
      → Advertised y
      → Advertised (installation u env cfg uid e first second y)
  unfolding installation completed serial_registered service_at
  installation-Advertised uid e first second y new adv h r =
      let n = y.advertiser.next_handle in
      elim (Bool-cases (n + 1 == h)) [
        | inl q ↦ (uid, _, get-put_self uid _ y.boards, inr (ground (arith, q)))
        | inr q ↦ elim (Bool-cases (n == h)) [
          | inl p ↦ (uid, _, get-put_self uid _ y.boards, inl (ground (arith, p)))
          | inr p ↦
              let (k, c, g, holds) = adv h (rw (q, p) at r) in
              elim (Bool-cases (same uid k)) [
                | inl same_key ↦
                    let e = (same_iff uid k).0 same_key in absurd (ground (arith, e, g, new))
                | inr d ↦ (k, c, rw (get-put, d) g, holds)
              ]
        ]
      ]

  pub alloc_ports-parts :
      (y : Supervisor W)
      → ((alloc_ports cfg y).2.boards ≡ y.boards)
        × ((alloc_ports cfg y).2.advertiser ≡ y.advertiser)
  unfolding alloc_ports
  alloc_ports-parts y = (ground arith, ground arith)

  alloc_ports-Advertised : (y : Supervisor W) → Advertised y → Advertised (alloc_ports cfg y).2
  alloc_ports-Advertised y adv h r =
      let (boards, advertiser) = alloc_ports-parts y in
      let (k, c, g, holds) =
        adv h (ap (λ (a : Advertiser). is_some (service_at h a.handles)) (sym advertiser) ∙ r) in
      (k, c, ap (get k) boards ∙ g, holds)

  pub on_arrival-Advertised :
      (uid : Text) (y z : Supervisor W)
      → get uid y.boards ≡ none
      → Advertised y
      → on_arrival u env cfg uid y ≡ (returned, z)
      → Advertised z
  on_arrival-Advertised =
      on_arrival-returned u env cfg Advertised alloc_ports-Advertised (λ y w a. a)
        installation-Advertised
