-- ===== src/Server/Supervisor/Ports/Live.antt =====
-- The ports of the live boards of src/mbdeploy/server.py, with a base port: no two boards share one.
use mbdeploy.Base.{
  ℕ, ◌+◌, ◌≡◌, ◌≢◌, refl, ◌||◌, Option, none, some, List, [], ◌∷◌, arith, ◌==◌, if◌then◌else◌,
  false, Option-cases, inl, inr,
}
use mathlib.Core.Path.{subst, sym}
use mbdeploy.Text.{Text, Unicode, same}
use mbdeploy.Text.Dict.{Dict, get, put, remove, has, get-put, get-remove}
use mbdeploy.Devices.Registry.{Entry, Registry}
use mbdeploy.Server.Board.{Board}
use mbdeploy.Server.Supervisor.Arrival.{installation, set_up-cases}
use mbdeploy.Server.Supervisor.{
  Env, Settings, Supervisor, on_arrival, set_up, completed, on_departure, tear_down, reclaim,
  bind_both, alloc_ports, bound_first, bound_second, probed,
}
use mbdeploy.Server.Supervisor.Ports.{Allotted, Spare, take_free, take_next, give_back, hand_out}

has-remove :
    {V : Type 0} (uid k : Text) (d : Dict V)
    → has k (remove uid d) ≡ (if same uid k then false else has k d)
has-remove uid k d = ground (arith, get-remove uid k d)

has-put :
    {V : Type 0} (uid k : Text) (v : V) (d : Dict V) → has k (put uid v d) ≡ (same uid k || has k d)
has-put uid k v d = ground (arith, get-put uid k v d)

module _ {W : Type 0} where
  -- The ports are allotted, and the boards that have ports are the live ones.
  pub record PortsOk (y : Supervisor W) : Type 0 where
    pub allotted : Allotted y.board_ports y.port_freelist y.next_port
    pub in_step : (k : Text) → has k y.board_ports ≡ has k y.boards

  tear_down-ports :
      (uid : Text) (b : Board) (x : ℕ × ℕ) (y : Supervisor W)
      → get uid y.board_ports ≡ some x
      → ((tear_down uid b y).boards ≡ remove uid y.boards)
        × ((tear_down uid b y).board_ports ≡ remove uid y.board_ports)
        × ((tear_down uid b y).port_freelist ≡ x ∷ y.port_freelist)
        × ((tear_down uid b y).next_port ≡ y.next_port)
  unfolding tear_down reclaim
  tear_down-ports uid b x y g = (ground arith, ground (arith, g), ground (arith, g), ground arith)

  tear_down-PortsOk :
      (uid : Text) (b : Board) (y : Supervisor W)
      → get uid y.boards ≡ some b
      → PortsOk y
      → PortsOk (tear_down uid b y)
  tear_down-PortsOk uid b y e ok = elim (Option-cases (get uid y.board_ports)) [
    | inl n ↦ absurd (ground (arith, ok.in_step uid, n, e))
    | inr (x, g) ↦
        let (boards, ports, free, next) = tear_down-ports uid b x y g in
        record {
          allotted = rw (ports, free, next) (give_back _ _ _ uid x g ok.allotted);
          in_step = λ k.
              rw
                (
                  ports,
                  boards,
                  has-remove uid k y.board_ports,
                  has-remove uid k y.boards,
                  ok.in_step k,
                )
                refl;
        }
  ]

  pub on_departure-PortsOk :
      (uid : Text) (y : Supervisor W) → PortsOk y → PortsOk (on_departure uid y)
  unfolding on_departure
  on_departure-PortsOk uid y ok = elim (Option-cases (get uid y.boards)) [
    | inl n ↦ rw (n, on_departure) ok
    | inr (b, e) ↦ rw (e, on_departure) (tear_down-PortsOk uid b y e ok)
  ]

-- What the operating system answers to a `bind` of a port that is not 0, when it succeeds.
abbrev pub Exact : {u : Unicode} {W : Type 0} → Env u W → Type 0
Exact {W = W} env =
    (p : ℕ) (w : W) (l q : ℕ) → p ≢ 0 → (env.bind (some p) w).0 ≡ some (l, q) → q ≡ p

module _ {W : Type 0} (u : Unicode) (env : Env u W) (cfg : Settings) where
  -- ports that an arrival was given
  record Given (p q : Option ℕ) (y : Supervisor W) : Type 0 where
    pair : ℕ × ℕ
    serial : p ≡ some pair.0
    flash : q ≡ some pair.1
    spare : Spare pair y.board_ports y.port_freelist y.next_port
    ok : PortsOk y

  alloc_from :
      (f : List (ℕ × ℕ)) (y : Supervisor W)
      → cfg.base_port ≢ 0
      → PortsOk y
      → y.port_freelist ≡ f
      → let (p, q, z) = alloc_ports cfg y in Given p q z × (z.boards ≡ y.boards)
  unfolding alloc_ports
  alloc_from [] y based ok e =
      let fixed : (cfg.base_port == 0) ≡ false = ground (arith, based) in
      let (a, s) = take_next y.board_ports y.port_freelist y.next_port ok.allotted in
      rw (fixed, e)
        (
          record {
            pair = (y.next_port, y.next_port + 1);
            serial = refl;
            flash = refl;
            spare = s;
            ok = record { allotted = a; in_step = ok.in_step };
          },
          refl,
        )
  alloc_from (x ∷ f) y based ok e =
      let fixed : (cfg.base_port == 0) ≡ false = ground (arith, based) in
      let (a, s) =
        take_free y.board_ports f y.next_port x
          (subst (λ f. Allotted y.board_ports f y.next_port) e ok.allotted) in
      rw (fixed, e)
        (
          record {
            pair = x;
            serial = refl;
            flash = refl;
            spare = s;
            ok = record { allotted = a; in_step = ok.in_step };
          },
          refl,
        )

  installation-PortsOk :
      (uid : Text) (e : Entry) (first second : ℕ × ℕ) (y : Supervisor W)
      → cfg.base_port ≢ 0
      → Spare (first.1, second.1) y.board_ports y.port_freelist y.next_port
      → PortsOk y
      → PortsOk (installation u env cfg uid e first second y)
  unfolding installation completed
  installation-PortsOk uid e first second y based s ok =
      let fixed : (cfg.base_port == 0) ≡ false = ground (arith, based) in
      rw fixed (record {
        allotted = hand_out y.board_ports _ _ uid (first.1, second.1) s ok.allotted;
        in_step =
            λ k. rw (has-put uid k (first.1, second.1) y.board_ports, has-put, ok.in_step k) refl;
      })

  set_up-PortsOk :
      (uid : Text) (e : Entry) (first second : ℕ × ℕ) (y : Supervisor W)
      → cfg.base_port ≢ 0
      → Spare (first.1, second.1) y.board_ports y.port_freelist y.next_port
      → PortsOk y
      → PortsOk (set_up u env cfg uid e first second y).1
  set_up-PortsOk uid e first second y based s ok =
      let (w, ways) = set_up-cases u env cfg uid e first second y in
      elim ways [
        | inl r ↦
            subst (λ o. PortsOk o.1) (sym r)
              (record { allotted = ok.allotted; in_step = ok.in_step })
        | inr rest ↦ elim rest [
          | inl r ↦
              subst (λ o. PortsOk o.1) (sym r)
                (record { allotted = ok.allotted; in_step = ok.in_step })
          | inr r ↦
              subst (λ o. PortsOk o.1) (sym r)
                (installation-PortsOk uid e first second _ based s
                  (record { allotted = ok.allotted; in_step = ok.in_step }))
        ]
      ]

  module _ (exact : Exact env) (based : cfg.base_port ≢ 0) where
    bound_second-PortsOk :
        (uid : Text) (e : Entry) (x first : ℕ × ℕ) (y : Supervisor W)
        → PortsOk y
        → Spare x y.board_ports y.port_freelist y.next_port
        → first.1 ≡ x.0
        → (v : W) (r : Option (ℕ × ℕ)) → (env.bind (some x.1) v).0 ≡ r
        → PortsOk (bound_second u env cfg uid e first r y).1
    bound_second-PortsOk uid e x first y ok s here v none h = ok
    bound_second-PortsOk uid e x first y ok s here v (some second) h =
        let there = exact x.1 v second.0 second.1 (ground (arith, s.pair)) h in
        let same_pair : x ≡ (first.1, second.1) = cc (here, there) in
        set_up-PortsOk uid e first second y based
          (subst (λ z. Spare z y.board_ports y.port_freelist y.next_port) same_pair s) ok

    bound_first-PortsOk :
        (uid : Text) (e : Entry) (x : ℕ × ℕ) (y : Supervisor W)
        → PortsOk y
        → Spare x y.board_ports y.port_freelist y.next_port
        → (v : W) (r : Option (ℕ × ℕ)) → (env.bind (some x.0) v).0 ≡ r
        → PortsOk (bound_first u env cfg uid e r (some x.1) y).1
    bound_first-PortsOk uid e x y ok s v none h = ok
    bound_first-PortsOk uid e x y ok s v (some first) h =
        bound_second-PortsOk uid e x first (record y { world = (env.bind (some x.1) y.world).1 })
          (record { allotted = ok.allotted; in_step = ok.in_step }) s
          (exact x.0 v first.0 first.1 (ground (arith, s.pair)) h) y.world _ refl

    bind_both-PortsOk :
        (uid : Text) (e : Entry) (y : Supervisor W)
        → PortsOk y
        → PortsOk (bind_both u env cfg uid e y).1
    unfolding bind_both
    bind_both-PortsOk uid e y ok =
        let (g, boards) = alloc_from y.port_freelist y based ok refl in
        let z = (alloc_ports cfg y).2 in
        rw (g.serial, g.flash)
          (bound_first-PortsOk uid e g.pair
            (record z { world = (env.bind (some g.pair.0) z.world).1 })
            (record { allotted = g.ok.allotted; in_step = g.ok.in_step }) g.spare z.world _ refl)

    pub on_arrival-PortsOk :
        (uid : Text) (y : Supervisor W) → PortsOk y → PortsOk (on_arrival u env cfg uid y).1
    unfolding on_arrival
    on_arrival-PortsOk uid y ok = probed-PortsOk _
      where
        probed-PortsOk : (r : Option Registry) → PortsOk (probed u env cfg uid r y).1
        probed-PortsOk none = ok
        probed-PortsOk (some r) =
            bind_both-PortsOk uid _ _ (record { allotted = ok.allotted; in_step = ok.in_step })
