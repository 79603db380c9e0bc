-- ===== src/Server/Supervisor/Sync.antt =====
-- The tick of src/mbdeploy/server.py keeps the boards in step with the probes.
use mbdeploy.Base.{
  ℕ, ◌≡◌, refl, sym, ap, ◌∙◌, true, not, ◌&&◌, ◌||◌, Option, none, some, List, [], ◌∷◌, arith,
  Bool-cases, Option-cases, inl, inr,
}
use mbdeploy.Text.{Text, Unicode, same}
use mbdeploy.Text.Equality.{same_iff, same_refl}
use mbdeploy.Text.Dict.{get, remove, has, get-put, get-remove}
use mbdeploy.Devices.Hardware.{member}
use mbdeploy.Devices.Registry.{Entry, Registry}
use mbdeploy.Server.Board.{Board, Session}
use mbdeploy.Server.Serve.{Outcome, returned, raised}
use mbdeploy.Server.Supervisor.Arrival.{installation, set_up-returned}
use mbdeploy.Server.Supervisor.{
  Env, Settings, Supervisor, tick, on_arrival, on_departure, arrive_all, depart_all, minus, set_of,
  tear_down, reclaim, completed, bind_both, alloc_ports, remember, close_listener, displace,
  bound_first, bound_second, probed,
}

pub member-set_of : (k : Text) (l : List Text) → member k (set_of l) ≡ member k l
unfolding set_of
member-set_of k [] = refl
member-set_of k (x ∷ l) =
    let ih = member-set_of k l in ground (arith, same_iff x k, member-set_of x l)

pub member-minus :
    (k : Text) (a b : List Text) → member k (minus a b) ≡ (member k a && not (member k b))
unfolding minus
member-minus k [] b = refl
member-minus k (x ∷ a) b = let ih = member-minus k a b in ground (arith, same_iff x k)

minus-cover :
    (a b : List Text) → ((k : Text) → member k a ≡ true → member k b ≡ true) → minus a b ≡ []
unfolding minus
minus-cover [] b h = refl
minus-cover (x ∷ a) b h =
    let m = h x (ground (arith, same_refl x)) in
    rw (m, minus-cover a b (λ k e. h k (ground (arith, e)))) refl

minus_self : (a : List Text) → minus a a ≡ []
minus_self a = minus-cover a a (λ k e. e)

module _ {W : Type 0} where
  close_listener-boards : (l : Option ℕ) (y : Supervisor W) → (close_listener l y).boards ≡ y.boards
  close_listener-boards none y = refl
  close_listener-boards (some l) y = refl

  reclaim-boards : (uid : Text) (y : Supervisor W) → (reclaim uid y).boards ≡ y.boards
  unfolding reclaim
  reclaim-boards uid y = ground arith

  displace-boards : (s : Option Session) (y : Supervisor W) → (displace s y).boards ≡ y.boards
  displace-boards none y = refl
  displace-boards (some s) y = refl

  tear_down-boards :
      (uid : Text) (b : Board) (y : Supervisor W) → (tear_down uid b y).boards ≡ remove uid y.boards
  unfolding tear_down reclaim
  tear_down-boards uid b y = ground arith

  absent-has :
      (uid k : Text) (y : Supervisor W)
      → get uid y.boards ≡ none
      → has k y.boards ≡ (not (same uid k) && has k y.boards)
  absent-has uid k y n = elim (Bool-cases (same uid k)) [
    | inl e ↦ let e' = (same_iff uid k).0 e in ground (arith, n, e')
    | inr d ↦ rw d refl
  ]

  on_departure-has :
      (uid k : Text) (y : Supervisor W)
      → has k (on_departure uid y).boards ≡ (not (same uid k) && has k y.boards)
  unfolding on_departure
  on_departure-has uid k y = elim (Option-cases (get uid y.boards)) [
    | inl n ↦ rw (n, on_departure) (absent-has uid k y n)
    | inr (b, e) ↦
        rw (e, on_departure, tear_down-boards uid b y) (ground (arith, get-remove uid k y.boards))
  ]

  pub depart_all-has :
      (k : Text) (uids : List Text) (y : Supervisor W)
      → has k (depart_all uids y).boards ≡ (not (member k uids) && has k y.boards)
  unfolding depart_all
  depart_all-has k [] y = refl
  depart_all-has k (uid ∷ uids) y =
      ground (arith, depart_all-has k uids (on_departure uid y), on_departure-has uid k y)

module _ {W : Type 0} (u : Unicode) (env : Env u W) (cfg : Settings) where
  alloc_ports-boards : (y : Supervisor W) → (alloc_ports cfg y).2.boards ≡ y.boards
  unfolding alloc_ports
  alloc_ports-boards y = ground arith

  bound_second-has :
      (uid k : Text) (e : Entry) (first : ℕ × ℕ) (second : Option (ℕ × ℕ)) (y z : Supervisor W)
      → bound_second u env cfg uid e first second y ≡ (returned, z)
      → has k z.boards ≡ (same uid k || has k y.boards)
  unfolding installation completed
  bound_second-has uid k e first none y z h = absurd (cc h)
  bound_second-has uid k e first (some second) y z h =
      let (w, eq) = set_up-returned u env cfg uid e first second y z h in
      rw (← eq, installation, completed, get-put) (ground arith)

  bound_first-has :
      (uid k : Text) (e : Entry) (first : Option (ℕ × ℕ)) (port : Option ℕ) (y z : Supervisor W)
      → bound_first u env cfg uid e first port y ≡ (returned, z)
      → has k z.boards ≡ (same uid k || has k y.boards)
  bound_first-has uid k e none port y z h = absurd (cc h)
  bound_first-has uid k e (some first) port y z h = bound_second-has uid k e first _ _ z h

  bind_both-has :
      (uid k : Text) (e : Entry) (y z : Supervisor W)
      → bind_both u env cfg uid e y ≡ (returned, z)
      → has k z.boards ≡ (same uid k || has k y.boards)
  unfolding bind_both
  bind_both-has uid k e y z h = bound_first-has uid k e _ _ _ z h ∙ rw (alloc_ports-boards y) refl

  probed-has :
      (uid k : Text) (r : Option Registry) (y z : Supervisor W)
      → probed u env cfg uid r y ≡ (returned, z)
      → has k z.boards ≡ (same uid k || has k y.boards)
  probed-has uid k none y z h = absurd (cc h)
  probed-has uid k (some r) y z h = bind_both-has uid k _ _ z h

  pub on_arrival-has :
      (uid k : Text) (y z : Supervisor W)
      → on_arrival u env cfg uid y ≡ (returned, z)
      → has k z.boards ≡ (same uid k || has k y.boards)
  unfolding on_arrival
  on_arrival-has uid k y z h = probed-has uid k _ y z h

  -- An arrival and those after it return only if each of them does.
  pub returned_both :
      (o : Outcome × Supervisor W) (f : Supervisor W → Outcome × Supervisor W) (z : Supervisor W)
      → (elim o.0 [ raised ↦ (raised, o.1) | returned ↦ f o.1 ]) ≡ (returned, z)
      → (o ≡ (returned, o.1)) × (f o.1 ≡ (returned, z))
  returned_both (returned, y) f z h = (refl, h)
  returned_both (raised, y) f z h = absurd (cc h)

  pub remember-returned :
      (current : List Text) (o : Outcome × Supervisor W) (z : Supervisor W)
      → remember current o ≡ (returned, z)
      → (o ≡ (returned, o.1)) × (z.boards ≡ o.1.boards) × (z.known ≡ current)
  remember-returned current (returned, y) z h =
      let e = ap (λ o. o.1) h in (refl, sym (ap (λ y. y.boards) e), sym (ap (λ y. y.known) e))
  remember-returned current (raised, y) z h = absurd (cc h)

  pub arrive_all-has :
      (k : Text) (uids : List Text) (y z : Supervisor W)
      → arrive_all u env cfg uids y ≡ (returned, z)
      → has k z.boards ≡ (member k uids || has k y.boards)
  unfolding arrive_all
  arrive_all-has k [] y z h = rw (← (ap (λ o. o.1.boards) h)) refl
  arrive_all-has k (uid ∷ uids) y z h =
      let (first, rest) =
        returned_both (on_arrival u env cfg uid y) (arrive_all u env cfg uids) z h in
      let ih = arrive_all-has k uids _ z rest in
      let here = on_arrival-has uid k y _ first in rw (ih, here) (ground arith)

  -- A tick that raises nothing leaves a board for exactly the UIDs that were probed, if the boards
  -- were those of the UIDs probed before.
  pub tick-has :
      (k : Text) (probes : List Text) (y z : Supervisor W)
      → ((j : Text) → has j y.boards ≡ member j y.known)
      → tick u env cfg probes y ≡ (returned, z)
      → (has k z.boards ≡ member k probes) × (member k z.known ≡ member k probes)
  unfolding tick
  tick-has k probes y z sync h =
      let current = set_of probes in
      let y' = depart_all (minus y.known current) y in
      let (o, b, kn) = remember-returned current _ z h in
      let arrived = arrive_all-has k (minus current y.known) y' _ o in
      let left = depart_all-has k (minus y.known current) y in
      let m = member-set_of k probes in
      (
        rw
            (
              b,
              arrived,
              left,
              member-minus k current y.known,
              member-minus k y.known current,
              sync k,
              m,
            )
            (ground arith),
        rw kn m,
      )

  -- Ticks are idempotent: after a tick that raises nothing, another one with the same probes changes
  -- nothing at all.
  pub tick_idempotent :
      (probes : List Text) (y z : Supervisor W)
      → tick u env cfg probes y ≡ (returned, z)
      → tick u env cfg probes z ≡ (returned, z)
  unfolding tick arrive_all depart_all
  tick_idempotent probes y z h =
      let (o, b, kn) = remember-returned (set_of probes) _ z h in
      rw (kn, minus_self (set_of probes)) refl
