-- ===== src/Mdns/Handles.antt =====
-- The handles of an `Advertiser` of src/mbdeploy/mdns.py: none is given twice.
use mbdeploy.Base.{
  ℕ, ◌<◌, ◌≤◌, ◌≡◌, ◌≢◌, false, List, [], ◌∷◌, ◌++◌, arith, ◌==◌, All, Bool-cases, Option-cases,
  inl, inr,
}
use mbdeploy.Text.{Text}
use mbdeploy.Text.Dict.{Dict}
use mbdeploy.Mdns.{Service, Advertiser, registered_service, unregister, service_at, without_handle}
use mbdeploy.Mdns.Closing.{Apart}

-- newest first, all below `n`
abbrev Falling : ℕ → List (ℕ × Service) → Type 0
Falling n [] = Unit
Falling n ((h, info) ∷ l) = (h < n) × Falling h l

-- An advertiser that is not closed, whose handles fall.
pub record IsOpen (a : Advertiser) : Type 0 where
  pub opened : a.is_closed ≡ false
  pub falling : Falling a.next_handle a.handles

Falling-le : (m n : ℕ) (l : List (ℕ × Service)) → m ≤ n → Falling m l → Falling n l
Falling-le m n [] h f = tt
Falling-le m n ((k, info) ∷ l) h (b, f) = (ground arith, f)

Falling-without : (h n : ℕ) (l : List (ℕ × Service)) → Falling n l → Falling n (without_handle h l)
unfolding without_handle
Falling-without h n [] f = tt
Falling-without h n ((k, info) ∷ l) (b, f) = elim (Bool-cases (k == h)) [
  | inl q ↦ rw (q, without_handle) (Falling-le k n _ (ground arith) (Falling-without h k l f))
  | inr q ↦ rw (q, without_handle) (b, Falling-without h k l f)
]

pub registered-IsOpen :
    (name type : Text) (port : ℕ) (txt : Dict Text) (a : Advertiser)
    → IsOpen a
    → IsOpen (registered_service name type port txt a).1
registered-IsOpen name type port txt a o = record {
  opened = o.opened;
  falling = (ground arith, o.falling);
}

pub unregister-IsOpen : (h : ℕ) (a : Advertiser) → IsOpen a → IsOpen (unregister h a)
unfolding unregister
unregister-IsOpen h a o = elim (Option-cases (service_at h a.handles)) [
  | inl n ↦ rw (n, unregister) o
  | inr (info, e) ↦
      rw (e, unregister)
        (record {
          opened = o.opened;
          falling = Falling-without h a.next_handle a.handles o.falling;
        })
]

All-append-one :
    (n : ℕ) (x : ℕ × Service) (front : List (ℕ × Service))
    → All (λ z. n ≤ z.0) front
    → n ≤ x.0
    → All (λ z. n ≤ z.0) (front ++ x ∷ [])
All-append-one n x [] a b = (b, tt)
All-append-one n x (z ∷ front) (c, a) b = (c, All-append-one n x front a b)

All-above :
    (h n : ℕ) (front : List (ℕ × Service))
    → h < n
    → All (λ z. n ≤ z.0) front
    → All (λ z. z.0 ≢ h) front × All (λ z. h ≤ z.0) front
All-above h n [] b a = (tt, tt)
All-above h n (z ∷ front) b (c, a) =
    let (differ, above) = All-above h n front b a in ((ground arith, differ), (ground arith, above))

Falling-Apart :
    (n : ℕ) (front l : List (ℕ × Service)) → All (λ z. n ≤ z.0) front → Falling n l → Apart front l
Falling-Apart n front [] a f = tt
Falling-Apart n front ((h, info) ∷ l) a (b, f) =
    let (differ, above) = All-above h n front b a in
    (differ, Falling-Apart h _ l (All-append-one h (h, info) front above (ground arith)) f)

pub IsOpen-Apart : (a : Advertiser) → IsOpen a → Apart [] a.handles
IsOpen-Apart a o = Falling-Apart a.next_handle [] a.handles tt o.falling
