-- ===== src/Devices/Probe/Loop.antt =====
-- The loop of `probe_all` (src/mbdeploy/devices.py), one entry at a time.
use mbdeploy.Base.{
  All, ℕ, ◌+◌, ◌≡◌, refl, sym, ap, ◌∙◌, Bool, true, false, Option, none, some, List, [], ◌∷◌, ◌++◌,
  arith, if◌then◌else◌, is_some, Bool-cases, inl, inr, Option-cases,
}
use mbdeploy.Text.{Text, Unicode, same}
use mbdeploy.Text.Equality.{same_iff, same_refl}
use mbdeploy.Text.Dict.{Dict, get, put, has, get-put}
use mbdeploy.Devices.Hardware.{Hardware, member}
use mbdeploy.Devices.Registry.{
  Entry, Registry, assign_enum, enum_of, max_enum, enum-le-max_enum, Distinct,
}
use mbdeploy.Devices.Probe.{
  Call, hello, swd, hello_calls, calls_for, probe_calls, refreshed, probe_each,
}

module _ (ports : Dict Text) where
  -- what the registry holds of a board that was probed
  pub record IsFresh (k : Text) (e : Option Entry) : Type 0 where
    pub entry : Entry
    pub found : e ≡ some entry
    pub uid_is : entry.uid ≡ some k
    pub port_is : entry.port ≡ get k ports
    pub numbered : is_some entry.enum ≡ true

  -- a call that `probe_all` makes for one of `uids`
  abbrev pub About : List Text → Call → Type 0
  About uids (swd k) = member k uids ≡ true
  About uids (hello p) = (k : Text) × (member k uids ≡ true) × (get k ports ≡ some p)

module _ (u : Unicode) (mcu : Text) (hw : Hardware u) (ports : Dict Text) where
  abbrev one : Registry → Text → Registry
  one d uid = put uid (refreshed u mcu hw ports d uid) d

  pub enum-refreshed :
      (d : Registry) (uid : Text) → (refreshed u mcu hw ports d uid).enum ≡ some (assign_enum d uid)
  unfolding refreshed assign_enum
  enum-refreshed d uid = ground arith

  pub uid-refreshed : (d : Registry) (uid : Text) → (refreshed u mcu hw ports d uid).uid ≡ some uid
  unfolding refreshed
  uid-refreshed d uid = ground arith

  pub port-refreshed :
      (d : Registry) (uid : Text) → (refreshed u mcu hw ports d uid).port ≡ get uid ports
  unfolding refreshed
  port-refreshed d uid = ground arith

  one-enum :
      (d : Registry) (uid k : Text) (n : ℕ)
      → enum_of (get k d) ≡ some n
      → enum_of (get k (one d uid)) ≡ some n
  unfolding assign_enum
  one-enum d uid k n h = ground (
    arith,
    get-put uid k (refreshed u mcu hw ports d uid) d,
    same_iff uid k,
    enum-refreshed d uid,
  )

  pub probe_each-enum :
      (uids : List Text) (d : Registry) (k : Text) (n : ℕ)
      → enum_of (get k d) ≡ some n
      → enum_of (get k (probe_each u mcu hw ports uids d)) ≡ some n
  unfolding probe_each
  probe_each-enum [] d k n h = h
  probe_each-enum (uid ∷ uids) d k n h = probe_each-enum uids (one d uid) k n (one-enum d uid k n h)

  pub probe_each-other :
      (uids : List Text) (d : Registry) (k : Text)
      → member k uids ≡ false
      → get k (probe_each u mcu hw ports uids d) ≡ get k d
  unfolding probe_each
  probe_each-other [] d k h = refl
  probe_each-other (uid ∷ uids) d k h =
      ground (
        arith,
        probe_each-other uids (one d uid) k,
        get-put uid k (refreshed u mcu hw ports d uid) d,
      )

  -- the number given to `uid` is not yet in use by another board
  assign_enum-fresh :
      (d : Registry) (uid k : Text) (e : Entry)
      → Distinct d
      → get k d ≡ some e
      → e.enum ≡ some (assign_enum d uid)
      → uid ≡ k
  unfolding assign_enum
  assign_enum-fresh d uid k e h g m = elim (Option-cases (get uid d)) [
    | inl e0 ↦
        absurd
          (omega (arith, enum-le-max_enum d k e (max_enum d + 1) g (m ∙ rw (e0, assign_enum) refl)))
    | inr (e0, q) ↦ elim (Option-cases e0.enum) [
      | inl x ↦ absurd (
          omega
            (arith, enum-le-max_enum d k e (max_enum d + 1) g (m ∙ rw (q, x, assign_enum) refl)))
      | inr (n, x) ↦ h uid k e0 e n q g x (m ∙ rw (q, x, assign_enum) refl)
    ]
  ]

  one-Distinct : (d : Registry) (uid : Text) → Distinct d → Distinct (one d uid)
  one-Distinct d uid h j k e f n gj gk ej fk =
      let r = refreshed u mcu hw ports d uid in
      let pj = sym (get-put uid j r d) ∙ gj in
      let pk = sym (get-put uid k r d) ∙ gk in
      elim (Bool-cases (same uid j)) [
        | inl sj ↦ elim (Bool-cases (same uid k)) [
          | inl sk ↦ sym ((same_iff uid j).0 sj) ∙ (same_iff uid k).0 sk
          | inr nk ↦
              sym ((same_iff uid j).0 sj)
              ∙ assign_enum-fresh d uid k f h (rw nk at pk)
                  (ground (arith, rw sj at pj, enum-refreshed d uid))
        ]
        | inr nj ↦ elim (Bool-cases (same uid k)) [
          | inl sk ↦
              sym (
                assign_enum-fresh d uid j e h (rw nj at pj)
                  (ground (arith, rw sk at pk, enum-refreshed d uid)))
              ∙ (same_iff uid k).0 sk
          | inr nk ↦ h j k e f n (rw nj at pj) (rw nk at pk) ej fk
        ]
      ]

  pub probe_each-Distinct :
      (uids : List Text) (d : Registry) → Distinct d → Distinct (probe_each u mcu hw ports uids d)
  unfolding probe_each
  probe_each-Distinct [] d h = h
  probe_each-Distinct (uid ∷ uids) d h = probe_each-Distinct uids (one d uid) (one-Distinct d uid h)

  one-has : (d : Registry) (uid k : Text) → has k d ≡ true → has k (one d uid) ≡ true
  one-has d uid k h = ground (arith, get-put uid k (refreshed u mcu hw ports d uid) d)

  pub probe_each-has :
      (uids : List Text) (d : Registry) (k : Text)
      → has k d ≡ true
      → has k (probe_each u mcu hw ports uids d) ≡ true
  unfolding probe_each
  probe_each-has [] d k h = h
  probe_each-has (uid ∷ uids) d k h = probe_each-has uids (one d uid) k (one-has d uid k h)

  one-IsFresh : (d : Registry) (uid k : Text) → uid ≡ k → IsFresh ports k (get k (one d uid))
  one-IsFresh d uid k e =
      let r = refreshed u mcu hw ports d uid in
      record {
        entry = r;
        found = get-put uid k r d ∙ rw ((same_iff uid k).1 e) refl;
        uid_is = uid-refreshed d uid ∙ ap some e;
        port_is = port-refreshed d uid ∙ ap (λ x. get x ports) e;
        numbered = rw (enum-refreshed d uid) refl;
      }

  pub probe_each-IsFresh :
      (uids : List Text) (d : Registry) (k : Text)
      → member k uids ≡ true
      → IsFresh ports k (get k (probe_each u mcu hw ports uids d))
  unfolding probe_each
  probe_each-IsFresh [] d k h = cc
  probe_each-IsFresh (uid ∷ uids) d k h = elim (Bool-cases (member k uids)) [
    | inl later ↦ probe_each-IsFresh uids (one d uid) k later
    | inr never ↦
        rw (probe_each-other uids (one d uid) k never)
          (one-IsFresh d uid k ((same_iff uid k).0 (ground arith)))
  ]

  member_later :
      (uid k : Text) (uids : List Text) → member k uids ≡ true → member k (uid ∷ uids) ≡ true
  member_later uid k uids h = ground arith

  About-later :
      (uid : Text) (uids : List Text) (c : Call) → About ports uids c → About ports (uid ∷ uids) c
  About-later uid uids (swd k) h = member_later uid k uids h
  About-later uid uids (hello p) (k, m, g) = (k, member_later uid k uids m, g)

  All-later :
      (uid : Text) (uids : List Text) (cs : List Call)
      → All (About ports uids) cs
      → All (About ports (uid ∷ uids)) cs
  All-later uid uids [] h = tt
  All-later uid uids (c ∷ cs) h = (About-later uid uids c h.0, All-later uid uids cs h.1)

  All-append :
      (uids : List Text) (cs ds : List Call)
      → All (About ports uids) cs
      → All (About ports uids) ds
      → All (About ports uids) (cs ++ ds)
  All-append uids [] ds h k = k
  All-append uids (c ∷ cs) ds h k = (h.0, All-append uids cs ds h.1 k)

  member_first : (uid : Text) (uids : List Text) → member uid (uid ∷ uids) ≡ true
  member_first uid uids = rw (same_refl uid) refl

  hello_calls-About :
      (uid : Text) (uids : List Text) (o : Option Text)
      → get uid ports ≡ o
      → All (About ports (uid ∷ uids)) (hello_calls o)
  unfolding hello_calls
  hello_calls-About uid uids none e = tt
  hello_calls-About uid uids (some []) e = tt
  hello_calls-About uid uids (some (c ∷ s)) e = ((uid, member_first uid uids, e), tt)

  swd_calls-About :
      (uid : Text) (uids : List Text) (b : Bool)
      → All (About ports (uid ∷ uids)) (if b then [] else swd uid ∷ [])
  swd_calls-About uid uids true = tt
  swd_calls-About uid uids false = (member_first uid uids, tt)

  pub probe_calls-About :
      (uids : List Text) (d : Registry) → All (About ports uids) (probe_calls u mcu hw ports uids d)
  unfolding probe_calls calls_for
  probe_calls-About [] d = tt
  probe_calls-About (uid ∷ uids) d =
      All-append (uid ∷ uids) (calls_for u mcu hw ports d uid) _
        (All-append (uid ∷ uids) (hello_calls (get uid ports)) _
          (hello_calls-About uid uids (get uid ports) refl) (swd_calls-About uid uids _))
        (All-later uid uids _ (probe_calls-About uids (one d uid)))
