-- ===== src/Server/Supervisor/Listeners.antt =====
-- The listeners of src/mbdeploy/server.py: none is watched for a board that is gone.
use mbdeploy.Base.{
  ℕ, ◌≡◌, ◌≢◌, refl, sym, ap, ◌∙◌, Bool, true, false, ◌&&◌, ◌||◌, not, Option, none, some, List, [],
  ◌∷◌, arith, ◌==◌, Bool-cases, Option-cases, inl, inr, ◌⊎◌,
}
use mbdeploy.Text.{Text, Unicode, same}
use mbdeploy.Text.Equality.{same_iff}
use mbdeploy.Text.Dict.{get, remove, get-put, get-put_self, get-remove}
use mbdeploy.Devices.Registry.{Entry}
use mbdeploy.Server.Supervisor.Arrival.{installation, on_arrival-keeps}
use mbdeploy.Server.Board.{Board}
use mbdeploy.Server.Supervisor.{
  Env, Settings, Supervisor, Watched, on_arrival, completed, on_departure, tear_down, reclaim,
  alloc_ports, unwatch, close_listener,
}

-- whether a listener is watched for the board with a UID
abbrev pub watching : ℕ → Text → List Watched → Bool
watching l uid [] = false
watching l uid (w ∷ ws) = (w.listener == l && same w.uid uid) || watching l uid ws

-- one of a board's two listeners
abbrev pub Listens : Board → ℕ → Type 0
Listens b l = (b.serial_listener ≡ some l) ⊎ (b.flash_listener ≡ some l)

-- Every listener that is watched is one of a live board.
abbrev pub Served : {W : Type 0} → Supervisor W → Type 0
Served y =
    (l : ℕ) (uid : Text)
    → watching l uid y.watched ≡ true
    → (b : Board) × (get uid y.boards ≡ some b) × Listens b l

pub watching-unwatch :
    (m l : ℕ) (uid : Text) (ws : List Watched)
    → watching l uid (unwatch m ws) ≡ (not (m == l) && watching l uid ws)
unfolding unwatch
watching-unwatch m l uid [] = ground arith
watching-unwatch m l uid (w ∷ ws) = ground (arith, watching-unwatch m l uid ws)

abbrev pub unwatch_one : Option ℕ → List Watched → List Watched
unwatch_one none ws = ws
unwatch_one (some m) ws = unwatch m ws

watching-unwatch_one :
    (o : Option ℕ) (l : ℕ) (uid : Text) (ws : List Watched)
    → watching l uid (unwatch_one o ws) ≡ true
    → (o ≢ some l) × (watching l uid ws ≡ true)
watching-unwatch_one none l uid ws h = (λ e. cc, h)
watching-unwatch_one (some m) l uid ws h =
    let q = watching-unwatch m l uid ws in
    let differ : m ≢ l = ground (arith, q, h) in (λ e. differ (cc e), ground (arith, q, h))

module _ {W : Type 0} where
  close_listener-watched :
      (o : Option ℕ) (y : Supervisor W) → (close_listener o y).watched ≡ unwatch_one o y.watched
  close_listener-watched none y = refl
  close_listener-watched (some m) y = refl

  pub tear_down-watched :
      (uid : Text) (b : Board) (y : Supervisor W)
      → ((tear_down uid b y).boards ≡ remove uid y.boards)
        × ((tear_down uid b y).watched
            ≡ unwatch_one b.flash_listener (unwatch_one b.serial_listener y.watched))
  unfolding tear_down reclaim
  tear_down-watched uid b y = (ground arith, ground arith)

  tear_down-Served :
      (uid : Text) (b : Board) (y : Supervisor W)
      → get uid y.boards ≡ some b
      → Served y
      → Served (tear_down uid b y)
  tear_down-Served uid b y e served l k r =
      let (boards, watched) = tear_down-watched uid b y in
      let (nf, r1) =
        watching-unwatch_one b.flash_listener l k (unwatch_one b.serial_listener y.watched)
          (ap (watching l k) (sym watched) ∙ r) in
      let (ns, r0) = watching-unwatch_one b.serial_listener l k y.watched r1 in
      let (c, g, holds) = served l k r0 in
      elim (Bool-cases (same uid k)) [
        | inl q ↦
            let same_key = (same_iff uid k).0 q in
            let same_board : b ≡ c = cc (e, g, same_key) in
            absurd (elim holds [
              | inl p ↦ ns (ap (λ (x : Board). x.serial_listener) same_board ∙ p)
              | inr p ↦ nf (ap (λ (x : Board). x.flash_listener) same_board ∙ p)
            ])
        | inr n ↦ (c, rw (boards, get-remove, n) g, holds)
      ]

  pub on_departure-Served : (uid : Text) (y : Supervisor W) → Served y → Served (on_departure uid y)
  unfolding on_departure
  on_departure-Served uid y served = elim (Option-cases (get uid y.boards)) [
    | inl n ↦ rw (n, on_departure) served
    | inr (b, e) ↦ rw (e, on_departure) (tear_down-Served uid b y e served)
  ]

module _ {W : Type 0} (u : Unicode) (env : Env u W) (cfg : Settings) where
  installation-board :
      (uid : Text) (e : Entry) (first second : ℕ × ℕ) (y : Supervisor W)
      → (b : Board) × (get uid (installation u env cfg uid e first second y).boards ≡ some b)
        × (b.serial_listener ≡ some first.0)
        × (b.flash_listener ≡ some second.0)
  unfolding installation completed
  installation-board uid e first second y = (_, get-put_self uid _ y.boards, refl, refl)

  installation-Served :
      (uid : Text) (e : Entry) (first second : ℕ × ℕ) (y : Supervisor W)
      → get uid y.boards ≡ none
      → Served y
      → Served (installation u env cfg uid e first second y)
  unfolding installation completed
  installation-Served uid e first second y new served l k r = elim (Bool-cases (same uid k)) [
    | inl q ↦
        let here = (same_iff uid k).0 q in
        let (b, at, serial, flash) = installation-board uid e first second y in
        (
          b,
          ap (λ j. get j (installation u env cfg uid e first second y).boards) (sym here) ∙ at,
          elim (Bool-cases (first.0 == l)) [
            | inl p ↦ inl (ground (arith, p, serial))
            | inr p ↦ elim (Bool-cases (second.0 == l)) [
              | inl p2 ↦ inr (ground (arith, p2, flash))
              | inr p2 ↦
                  let old : watching l k y.watched ≡ true = ground (arith, r, p, p2) in
                  let (c, g, holds) = served l k old in absurd (ground (arith, here, g, new))
            ]
          ],
        )
    | inr d ↦ let (c, g, holds) = served l k (ground (arith, r, d)) in (c, rw (get-put, d) g, holds)
  ]

  pub alloc_ports-watched :
      (y : Supervisor W)
      → ((alloc_ports cfg y).2.boards ≡ y.boards) × ((alloc_ports cfg y).2.watched ≡ y.watched)
  unfolding alloc_ports
  alloc_ports-watched y = (ground arith, ground arith)

  alloc_ports-Served : (y : Supervisor W) → Served y → Served (alloc_ports cfg y).2
  alloc_ports-Served y served l k r =
      let (boards, watched) = alloc_ports-watched y in
      let (b, g, holds) = served l k (ap (watching l k) (sym watched) ∙ r) in
      (b, ap (get k) boards ∙ g, holds)

  pub on_arrival-Served :
      (uid : Text) (y : Supervisor W)
      → get uid y.boards ≡ none
      → Served y
      → Served (on_arrival u env cfg uid y).1
  on_arrival-Served =
      on_arrival-keeps u env cfg Served alloc_ports-Served (λ y w s. s) (λ uid e p y s. s)
        installation-Served
