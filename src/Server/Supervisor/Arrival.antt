-- ===== src/Server/Supervisor/Arrival.antt =====
-- `_on_arrival` of src/mbdeploy/server.py keeps what its parts keep.
use mbdeploy.Base.{ℕ, ◌≡◌, ap, ◌∙◌, Option, none, some, arith, Bool-cases, inl, inr, ◌⊎◌}
use mathlib.Core.Path.{subst, sym}
use mbdeploy.Mdns.{Advertiser, registered_service}
use mbdeploy.Server.Serve.{returned, raised}
use mbdeploy.Text.{Text, Unicode}
use mbdeploy.Text.Dict.{get}
use mbdeploy.Devices.Registry.{Entry, Registry}
use mbdeploy.Server.Supervisor.{
  Env, Settings, Supervisor, on_arrival, set_up, completed, bind_both, alloc_ports, bound_first,
  bound_second, probed, or_else, instance_name, service_txt, serial_service_type,
  flash_service_type,
}

module _ {W : Type 0} (u : Unicode) (env : Env u W) (cfg : Settings) where
  -- the advertiser with the serial service of a new board
  unfoldable pub serial_registered : Text → Entry → ℕ → Advertiser → Advertiser
  serial_registered uid e p a =
      let name = or_else cfg.service_name (instance_name e uid) in
      (registered_service name serial_service_type p (service_txt e uid p) a).1

  -- the supervisor with a new board, once both registrations have succeeded
  unfoldable pub installation : Text → Entry → ℕ × ℕ → ℕ × ℕ → Supervisor W → Supervisor W
  unfolding serial_registered
  installation uid e first second y =
      let name = or_else cfg.service_name (instance_name e uid) in
      let a = serial_registered uid e first.1 y.advertiser in
      let (k, b) =
        registered_service name flash_service_type second.1 (service_txt e uid second.1) a in
      completed u env cfg uid e first second y.advertiser.next_handle k
        (record y { advertiser = b })

  -- The three ways of the set-up: a failed first registration, a failed second one, and success.
  pub set_up-cases :
      (uid : Text) (e : Entry) (first second : ℕ × ℕ) (y : Supervisor W)
      → (w : W) × ((set_up u env cfg uid e first second y ≡ (raised, record y { world = w }))
          ⊎ ((set_up u env cfg uid e first second y ≡ (
            raised,
            record y { world = w; advertiser = serial_registered uid e first.1 y.advertiser },
          ))
              ⊎ (set_up u env cfg uid e first second y
                  ≡ (returned, installation uid e first second (record y { world = w })))))
  unfolding set_up completed installation serial_registered
  set_up-cases uid e first second y =
      let (refused, v) = env.advertise serial_service_type first.1 y.world in
      let (refused_too, w) = env.advertise flash_service_type second.1 v in
      elim (Bool-cases refused) [
        | inl r ↦ (v, inl (ground (arith, r)))
        | inr r ↦ elim (Bool-cases refused_too) [
          | inl q ↦ (w, inr (inl (ground (arith, r, q))))
          | inr q ↦ (w, inr (inr (ground (arith, r, q))))
        ]
      ]

  -- A set-up that returns has installed the board.
  pub set_up-returned :
      (uid : Text) (e : Entry) (first second : ℕ × ℕ) (y z : Supervisor W)
      → set_up u env cfg uid e first second y ≡ (returned, z)
      → (w : W) × (installation uid e first second (record y { world = w }) ≡ z)
  set_up-returned uid e first second y z h =
      let (w, ways) = set_up-cases uid e first second y in
      elim ways [
        | inl r ↦ absurd (cc (r, h))
        | inr rest ↦ elim rest [
          | inl r ↦ absurd (cc (r, h))
          | inr r ↦ (w, ap (λ o. o.1) (sym r ∙ h))
        ]
      ]

module _ {W : Type 0} (u : Unicode) (env : Env u W) (cfg : Settings) (P : Supervisor W → Type 0)
    (allocates : (y : Supervisor W) → P y → P (alloc_ports cfg y).2)
    (acts : (y : Supervisor W) (w : W) → P y → P (record y { world = w }))
    (registers : (uid : Text) (e : Entry) (p : ℕ) (y : Supervisor W)
      → P y
      → P (record y { advertiser = serial_registered u env cfg uid e p y.advertiser }))
    (installs : (uid : Text) (e : Entry) (first second : ℕ × ℕ) (y : Supervisor W)
      → get uid y.boards ≡ none
      → P y
      → P (installation u env cfg uid e first second y)) where
  set_up-keeps :
      (uid : Text) (e : Entry) (first second : ℕ × ℕ) (y : Supervisor W)
      → get uid y.boards ≡ none
      → P y
      → P (set_up u env cfg uid e first second y).1
  set_up-keeps uid e first second y new p =
      let (w, ways) = set_up-cases u env cfg uid e first second y in
      elim ways [
        | inl r ↦ subst (λ o. P o.1) (sym r) (acts y w p)
        | inr rest ↦ elim rest [
          | inl r ↦ subst (λ o. P o.1) (sym r) (registers uid e first.1 _ (acts y w p))
          | inr r ↦ subst (λ o. P o.1) (sym r) (installs uid e first second _ new (acts y w p))
        ]
      ]

  bound_second-keeps :
      (uid : Text) (e : Entry) (first : ℕ × ℕ) (second : Option (ℕ × ℕ)) (y : Supervisor W)
      → get uid y.boards ≡ none
      → P y
      → P (bound_second u env cfg uid e first second y).1
  bound_second-keeps uid e first none y new p = p
  bound_second-keeps uid e first (some second) y new p = set_up-keeps uid e first second y new p

  bound_first-keeps :
      (uid : Text) (e : Entry) (first : Option (ℕ × ℕ)) (port : Option ℕ) (y : Supervisor W)
      → get uid y.boards ≡ none
      → P y
      → P (bound_first u env cfg uid e first port y).1
  bound_first-keeps uid e none port y new p = p
  bound_first-keeps uid e (some first) port y new p =
      bound_second-keeps uid e first _ _ new (acts y _ p)

  alloc_ports-boards : (y : Supervisor W) → (alloc_ports cfg y).2.boards ≡ y.boards
  unfolding alloc_ports
  alloc_ports-boards y = ground arith

  bind_both-keeps :
      (uid : Text) (e : Entry) (y : Supervisor W)
      → get uid y.boards ≡ none
      → P y
      → P (bind_both u env cfg uid e y).1
  unfolding bind_both
  bind_both-keeps uid e y new p =
      bound_first-keeps uid e _ _ _ (ap (get uid) (alloc_ports-boards y) ∙ new)
        (acts _ _ (allocates y p))

  -- What the allocation of ports, the calls of the environment and the registration of a new board
  -- keep, the arrival of a board that is not there keeps, whether it succeeds or not.
  pub on_arrival-keeps :
      (uid : Text) (y : Supervisor W)
      → get uid y.boards ≡ none
      → P y
      → P (on_arrival u env cfg uid y).1
  unfolding on_arrival
  on_arrival-keeps uid y new p = probed-keeps _
    where
      probed-keeps : (r : Option Registry) → P (probed u env cfg uid r y).1
      probed-keeps none = p
      probed-keeps (some r) = bind_both-keeps uid _ _ new (acts y _ p)

module _ {W : Type 0} (u : Unicode) (env : Env u W) (cfg : Settings) (P : Supervisor W → Type 0)
    (allocates : (y : Supervisor W) → P y → P (alloc_ports cfg y).2)
    (acts : (y : Supervisor W) (w : W) → P y → P (record y { world = w }))
    (installs : (uid : Text) (e : Entry) (first second : ℕ × ℕ) (y : Supervisor W)
      → get uid y.boards ≡ none
      → P y
      → P (installation u env cfg uid e first second y)) where
  bound_second-returned :
      (uid : Text) (e : Entry) (first : ℕ × ℕ) (second : Option (ℕ × ℕ)) (y z : Supervisor W)
      → get uid y.boards ≡ none
      → P y
      → bound_second u env cfg uid e first second y ≡ (returned, z)
      → P z
  bound_second-returned uid e first none y z new p h = absurd (cc h)
  bound_second-returned uid e first (some second) y z new p h =
      let (w, r) = set_up-returned u env cfg uid e first second y z h in
      subst P r (installs uid e first second _ new (acts y w p))

  bound_first-returned :
      (uid : Text) (e : Entry) (first : Option (ℕ × ℕ)) (port : Option ℕ) (y z : Supervisor W)
      → get uid y.boards ≡ none
      → P y
      → bound_first u env cfg uid e first port y ≡ (returned, z)
      → P z
  bound_first-returned uid e none port y z new p h = absurd (cc h)
  bound_first-returned uid e (some first) port y z new p h =
      bound_second-returned uid e first _ _ z new (acts y _ p) h

  bind_both-returned :
      (uid : Text) (e : Entry) (y z : Supervisor W)
      → get uid y.boards ≡ none
      → P y
      → bind_both u env cfg uid e y ≡ (returned, z)
      → P z
  unfolding bind_both alloc_ports
  bind_both-returned uid e y z new p h =
      bound_first-returned uid e _ _ _ z (ap (get uid) same_boards ∙ new) (acts _ _ (allocates y p))
        h
    where
      same_boards : (alloc_ports cfg y).2.boards ≡ y.boards
      same_boards = ground arith

  probed-returned :
      (uid : Text) (r : Option Registry) (y z : Supervisor W)
      → get uid y.boards ≡ none
      → P y
      → probed u env cfg uid r y ≡ (returned, z)
      → P z
  probed-returned uid none y z new p h = absurd (cc h)
  probed-returned uid (some r) y z new p h = bind_both-returned uid _ _ z new (acts y _ p) h

  -- What the allocation of ports, the calls of the environment and the installation of a new board
  -- keep, the arrival of a board that is not there keeps when it returns.
  pub on_arrival-returned :
      (uid : Text) (y z : Supervisor W)
      → get uid y.boards ≡ none
      → P y
      → on_arrival u env cfg uid y ≡ (returned, z)
      → P z
  unfolding on_arrival
  on_arrival-returned uid y z new p h = probed-returned uid _ y z new p h
