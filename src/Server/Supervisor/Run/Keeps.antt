-- ===== src/Server/Supervisor/Run/Keeps.antt =====
-- What departures and arrivals of src/mbdeploy/server.py keep, the polling thread keeps.
use mbdeploy.Base.{
  ◌≡◌, refl, sym, ◌∙◌, true, false, none, List, [], ◌∷◌, arith, Bool-cases, inl, inr, ◌⊎◌,
}
use mbdeploy.Text.{Text, Unicode, same}
use mbdeploy.Text.Equality.{same_iff, same_refl}
use mbdeploy.Text.Dict.{get, has}
use mbdeploy.Devices.Hardware.{member}
use mbdeploy.Server.Serve.{Outcome, returned, raised}
use mbdeploy.Server.Supervisor.{
  Env, Settings, Supervisor, tick, on_arrival, on_departure, arrive_all, depart_all, minus, set_of,
  remember,
}
use mbdeploy.Server.Supervisor.Sync.{member-minus, depart_all-has, on_arrival-has, tick-has}
use mbdeploy.Server.Supervisor.Run.{run}

-- no text twice
abbrev pub NoRepeat : List Text → Type 0
NoRepeat [] = Unit
NoRepeat (x ∷ l) = (member x l ≡ false) × NoRepeat l

pub set_of-NoRepeat : (l : List Text) → NoRepeat (set_of l)
unfolding set_of
set_of-NoRepeat [] = tt
set_of-NoRepeat (x ∷ l) = elim (Bool-cases (member x (set_of l))) [
  | inl m ↦ rw m (set_of-NoRepeat l)
  | inr m ↦ rw m (m, set_of-NoRepeat l)
]

pub minus-NoRepeat : (a b : List Text) → NoRepeat a → NoRepeat (minus a b)
unfolding minus
minus-NoRepeat [] b h = tt
minus-NoRepeat (x ∷ a) b (fresh, h) = elim (Bool-cases (member x b)) [
  | inl m ↦ rw m (minus-NoRepeat a b h)
  | inr m ↦ rw m (ground (arith, member-minus x a b, fresh), minus-NoRepeat a b h)
]

-- The boards are those of the UIDs that were probed last.
abbrev pub InSync : {W : Type 0} → Supervisor W → Type 0
InSync y = (j : Text) → has j y.boards ≡ member j y.known

pub Outcome-cases :
    {W : Type 0} (o : Outcome × Supervisor W) → (o ≡ (raised, o.1)) ⊎ (o ≡ (returned, o.1))
Outcome-cases (raised, y) = inl refl
Outcome-cases (returned, y) = inr refl

module _ {W : Type 0} (u : Unicode) (env : Env u W) (cfg : Settings) where
  -- The UIDs that are still to arrive have no boards after an arrival either.
  pub absent_later :
      (uid : Text) (uids : List Text) (y z : Supervisor W)
      → member uid uids ≡ false
      → ((k : Text) → member k (uid ∷ uids) ≡ true → has k y.boards ≡ false)
      → on_arrival u env cfg uid y ≡ (returned, z)
      → (k : Text) → member k uids ≡ true
      → has k z.boards ≡ false
  absent_later uid uids y z fresh absent e k m = elim (Bool-cases (same uid k)) [
    | inl q ↦ absurd (ground (arith, (same_iff uid k).0 q, m, fresh))
    | inr q ↦ ground (arith, on_arrival-has u env cfg uid k y z e, q, absent k, m)
  ]

  -- The UIDs that are to arrive in a tick have no boards once the others have left.
  pub absent_first :
      (probes : List Text) (y : Supervisor W)
      → InSync y
      → (k : Text) → member k (minus (set_of probes) y.known) ≡ true
      → has k (depart_all (minus y.known (set_of probes)) y).boards ≡ false
  absent_first probes y sync k m =
      let current = set_of probes in
      ground (
        arith,
        depart_all-has k (minus y.known current) y,
        member-minus k current y.known,
        m,
        sync k,
      )

  pub tick-InSync :
      (probes : List Text) (y z : Supervisor W)
      → InSync y
      → tick u env cfg probes y ≡ (returned, z)
      → InSync z
  tick-InSync probes y z sync e =
      λ k. let (b, kn) = tick-has u env cfg k probes y z sync e in b ∙ sym kn

module _ {W : Type 0} (u : Unicode) (env : Env u W) (cfg : Settings) (P : Supervisor W → Type 0)
    (departs : (uid : Text) (y : Supervisor W) → P y → P (on_departure uid y))
    (arrives : (uid : Text) (y : Supervisor W)
      → get uid y.boards ≡ none
      → P y
      → P (on_arrival u env cfg uid y).1)
    (learns : (uids : List Text) (y : Supervisor W) → P y → P (record y { known = uids })) where
  depart_all-keeps : (uids : List Text) (y : Supervisor W) → P y → P (depart_all uids y)
  unfolding depart_all
  depart_all-keeps [] y p = p
  depart_all-keeps (uid ∷ uids) y p = depart_all-keeps uids _ (departs uid y p)

  arrive_all-keeps :
      (uids : List Text) (y : Supervisor W)
      → NoRepeat uids
      → ((k : Text) → member k uids ≡ true → has k y.boards ≡ false)
      → P y
      → P (arrive_all u env cfg uids y).1
  unfolding arrive_all
  arrive_all-keeps [] y d absent p = p
  arrive_all-keeps (uid ∷ uids) y (fresh, d) absent p =
      let new : get uid y.boards ≡ none = ground (arith, absent uid, same_refl uid) in
      let z = (on_arrival u env cfg uid y).1 in
      let kept = arrives uid y new p in
      elim (Outcome-cases (on_arrival u env cfg uid y)) [
        | inl e ↦ rw (e, arrive_all) kept
        | inr e ↦
            rw (e, arrive_all)
              (arrive_all-keeps uids z d (absent_later u env cfg uid uids y z fresh absent e) kept)
      ]

  tick-keeps :
      (probes : List Text) (y : Supervisor W) → InSync y → P y → P (tick u env cfg probes y).1
  unfolding tick
  tick-keeps probes y sync p =
      let current = set_of probes in
      let left = depart_all (minus y.known current) y in
      let kept =
        arrive_all-keeps (minus current y.known) left
          (minus-NoRepeat current y.known (set_of-NoRepeat probes))
          (absent_first u env cfg probes y sync) (depart_all-keeps (minus y.known current) y p) in
      remember-keeps current (arrive_all u env cfg (minus current y.known) left) kept
    where
      remember-keeps :
          (current : List Text) (o : Outcome × Supervisor W) → P o.1 → P (remember current o).1
      remember-keeps current (raised, z) q = q
      remember-keeps current (returned, z) q = learns current z q

  -- What departures and the arrivals of boards that are not there keep, whether these succeed or not,
  -- the thread keeps, from a supervisor in step with its last poll.
  pub run-keeps :
      (polls : List (List Text)) (y : Supervisor W) → InSync y → P y → P (run u env cfg polls y).1
  unfolding run
  run-keeps [] y sync p = p
  run-keeps (probes ∷ polls) y sync p =
      let z = (tick u env cfg probes y).1 in
      let kept = tick-keeps probes y sync p in
      elim (Outcome-cases (tick u env cfg probes y)) [
        | inl e ↦ rw (e, run) kept
        | inr e ↦ rw (e, run) (run-keeps polls z (tick-InSync u env cfg probes y z sync e) kept)
      ]
