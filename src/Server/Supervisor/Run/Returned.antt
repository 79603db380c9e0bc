-- ===== src/Server/Supervisor/Run/Returned.antt =====
-- What departures and successful arrivals of src/mbdeploy/server.py keep, the polling thread keeps
-- while no exception ends it.
use mbdeploy.Base.{◌≡◌, refl, ap, none, true, false, List, [], ◌∷◌, arith, inl, inr}
use mathlib.Core.Path.{subst}
use mbdeploy.Text.{Text, Unicode}
use mbdeploy.Text.Dict.{get, has}
use mbdeploy.Text.Equality.{same_refl}
use mbdeploy.Devices.Hardware.{member}
use mbdeploy.Server.Serve.{Outcome, returned, raised}
use mbdeploy.Server.Supervisor.{
  Env, Settings, Supervisor, tick, on_arrival, on_departure, arrive_all, depart_all, minus, set_of,
  remember,
}
use mbdeploy.Server.Supervisor.Sync.{returned_both}
use mbdeploy.Server.Supervisor.Run.{run}
use mbdeploy.Server.Supervisor.Run.Keeps.{
  InSync, NoRepeat, set_of-NoRepeat, minus-NoRepeat, Outcome-cases, absent_later, absent_first,
  tick-InSync,
}

module _ {W : Type 0} (u : Unicode) (env : Env u W) (cfg : Settings) where
  -- A poll and those after it return only if each of them does.
  pub run-returned :
      (probes : List Text) (polls : List (List Text)) (y z : Supervisor W)
      → run u env cfg (probes ∷ polls) y ≡ (returned, z)
      → let v = (tick u env cfg probes y).1 in
        (tick u env cfg probes y ≡ (returned, v)) × (run u env cfg polls v ≡ (returned, z))
  unfolding run
  run-returned probes polls y z e = elim (Outcome-cases (tick u env cfg probes y)) [
    | inl t ↦ absurd (ground (arith, e, t))
    | inr t ↦ (t, ground (arith, e, t))
  ]

module _ {W : Type 0} (u : Unicode) (env : Env u W) (cfg : Settings) (P : Supervisor W → Type 0)
    (departs : (uid : Text) (y : Supervisor W) → P y → P (on_departure uid y))
    (arrives : (uid : Text) (y z : Supervisor W)
      → get uid y.boards ≡ none
      → P y
      → on_arrival u env cfg uid y ≡ (returned, z)
      → P z)
    (learns : (uids : List Text) (y : Supervisor W) → P y → P (record y { known = uids })) where
  arrive_all-if_returned :
      (uids : List Text) (y z : Supervisor W)
      → NoRepeat uids
      → ((k : Text) → member k uids ≡ true → has k y.boards ≡ false)
      → P y
      → arrive_all u env cfg uids y ≡ (returned, z)
      → P z
  unfolding arrive_all
  arrive_all-if_returned [] y z d absent p h = subst P (ap (λ o. o.1) h) p
  arrive_all-if_returned (uid ∷ uids) y z (fresh, d) absent p h =
      let (first, rest) =
        returned_both u env cfg (on_arrival u env cfg uid y) (arrive_all u env cfg uids) z h in
      let new : get uid y.boards ≡ none = ground (arith, absent uid, same_refl uid) in
      arrive_all-if_returned uids _ z d (absent_later u env cfg uid uids y _ fresh absent first)
        (arrives uid y _ new p first) rest

  remember-if_returned :
      (current : List Text) (o : Outcome × Supervisor W) (z : Supervisor W)
      → ((v : Supervisor W) → o ≡ (returned, v) → P v)
      → remember current o ≡ (returned, z)
      → P z
  remember-if_returned current (raised, v) z q h = absurd (cc h)
  remember-if_returned current (returned, v) z q h =
      subst P (ap (λ o. o.1) h) (learns current v (q v refl))

  tick-if_returned :
      (probes : List Text) (y z : Supervisor W)
      → InSync y
      → P y
      → tick u env cfg probes y ≡ (returned, z)
      → P z
  unfolding tick depart_all
  tick-if_returned probes y z sync p h =
      let current = set_of probes in
      remember-if_returned current _ z
        (λ v.
          arrive_all-if_returned (minus current y.known) _ v
            (minus-NoRepeat current y.known (set_of-NoRepeat probes))
            (absent_first u env cfg probes y sync) (left (minus y.known current) y p))
        h
    where
      left : (uids : List Text) (v : Supervisor W) → P v → P (depart_all uids v)
      left [] v q = q
      left (uid ∷ uids) v q = left uids _ (departs uid v q)

  -- What departures and the successful arrivals of boards that are not there keep, the thread keeps
  -- until an exception ends it, from a supervisor in step with its last poll.
  pub run-if_returned :
      (polls : List (List Text)) (y z : Supervisor W)
      → InSync y
      → P y
      → run u env cfg polls y ≡ (returned, z)
      → P z
  unfolding run
  run-if_returned [] y z sync p h = subst P (ap (λ o. o.1) h) p
  run-if_returned (probes ∷ polls) y z sync p h =
      let (first, rest) = run-returned u env cfg probes polls y z h in
      run-if_returned polls _ z (tick-InSync u env cfg probes y _ sync first)
        (tick-if_returned probes y _ sync p first) rest
