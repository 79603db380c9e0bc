-- ===== src/Mdns/Closing.antt =====
-- `Advertiser.close` of src/mbdeploy/mdns.py.
use mbdeploy.Base.{
  ℕ, ◌≡◌, ◌≢◌, refl, sym, ap, ◌∙◌, true, false, some, List, [], ◌∷◌, ◌++◌, arith, map, append_assoc,
  append-nil, All, if_true, if_false,
}
use mbdeploy.Mdns.{
  Service, Call, unregister_service, close_zeroconf, Advertiser, service_at, without_handle,
  unregister, unregister_each, close,
}

-- the oldest service first
abbrev pub withdrawals : List (ℕ × Service) → List Call
withdrawals [] = []
withdrawals ((h, info) ∷ l) = withdrawals l ++ unregister_service info ∷ []

-- every handle of `front` is another than `h`
abbrev Lacks : ℕ → List (ℕ × Service) → Type 0
Lacks h = All (λ x. x.0 ≢ h)

Lacks-last :
    (h : ℕ) (info : Service) (front : List (ℕ × Service))
    → Lacks h front
    → (service_at h (front ++ (h, info) ∷ []) ≡ some info)
      × (without_handle h (front ++ (h, info) ∷ []) ≡ front)
unfolding service_at without_handle
Lacks-last h info [] n = (ground arith, ground arith)
Lacks-last h info ((k, i) ∷ front) (d, n) =
    let (found, rest) = Lacks-last h info front n in
    (ground (arith, d, found), ground (arith, d, rest))

-- Each handle of the list is another than those of `front` and those before it.
abbrev pub Apart : List (ℕ × Service) → List (ℕ × Service) → Type 0
Apart front [] = Unit
Apart front ((h, info) ∷ l) = Lacks h front × Apart (front ++ (h, info) ∷ []) l

-- the advertiser, with these handles, after these calls
abbrev with_handles : Advertiser → List (ℕ × Service) → List Call → Advertiser
with_handles a handles calls = record a { handles = handles; calls = calls }

unregister-last :
    (h : ℕ) (info : Service) (front : List (ℕ × Service)) (a : Advertiser) (calls : List Call)
    → Lacks h front
    → unregister h (with_handles a (front ++ (h, info) ∷ []) calls)
      ≡ with_handles a front (calls ++ unregister_service info ∷ [])
unfolding unregister
unregister-last h info front a calls n =
    let (found, rest) = Lacks-last h info front n in simp (found, rest, unregister) refl

unregister_each-all :
    (l front : List (ℕ × Service)) (a : Advertiser) (calls : List Call)
    → Apart front l
    → unregister_each (map (λ h. h.0) l) (with_handles a (front ++ l) calls)
      ≡ with_handles a front (calls ++ withdrawals l)
unfolding unregister_each
unregister_each-all [] front a calls n = rw (append-nil front, append-nil calls) refl
unregister_each-all ((h, info) ∷ l) front a calls (lack, n) =
    ap (λ f. unregister h (unregister_each (map (λ x. x.0) l) (with_handles a f calls)))
      (sym (append_assoc front ((h, info) ∷ []) l))
    ∙ ap (unregister h) (unregister_each-all l (front ++ (h, info) ∷ []) a calls n)
    ∙ unregister-last h info front a (calls ++ withdrawals l) lack
    ∙ ap (with_handles a front) (append_assoc calls (withdrawals l) (unregister_service info ∷ []))

close_closed : (a : Advertiser) → a.is_closed ≡ true → close a ≡ a
unfolding close
close_closed a y = if_true _ _ y

-- With no handle twice, `Advertiser.close` unregisters each service that is registered once, the
-- oldest first, and then shuts zeroconf down; no handle is left, and a second call does nothing.
pub close_lem :
    (a : Advertiser)
    → a.is_closed ≡ false
    → Apart [] a.handles
    → (close a ≡ record a {
      handles = [];
      is_closed = true;
      calls = a.calls ++ withdrawals a.handles ++ close_zeroconf ∷ [];
    })
      × (close (close a) ≡ close a)
unfolding close
close_lem a o n = (
  if_false _ _ o
      ∙ ap
          (λ (b : Advertiser). record b {
            is_closed = true;
            calls = b.calls ++ close_zeroconf ∷ [];
          })
          (unregister_each-all a.handles [] a a.calls n),
  close_closed (close a) (ap (λ (b : Advertiser). b.is_closed) (if_false _ _ o)),
)
