-- ===== src/Remote/Resolve/Unique.antt =====
-- `resolve_board` of src/mbdeploy/remote.py never picks one of two boards.
use mbdeploy.Base.{◌≡◌, refl, sym, ap, ◌∙◌, true, List, [], ◌∷◌, Bool-cases, ◌⊎◌, inl, inr}
use mathlib.Core.Path.{subst}
use mbdeploy.Text.{Text, Unicode, same}
use mbdeploy.Text.Equality.{same_iff}
use mbdeploy.Remote.Resolve.{Found, board, short_name, matches, choose, resolve_board}

-- `g` is one of the results.
abbrev pub Seen : Found → List Found → Type 0
Seen g [] = ⊥
Seen g (f ∷ fs) = (f ≡ g) ⊎ Seen g fs

module _ (u : Unicode) where
  -- a result under its short name
  abbrev pub renamed : Text → Found → Found
  renamed service_type g = record g { name = short_name u g.name service_type }

  matches-Seen :
      (name service_type : Text) (fs : List Found) (g : Found)
      → Seen g fs
      → short_name u g.name service_type ≡ name
      → Seen (renamed service_type g) (matches u name service_type fs)
  unfolding matches
  matches-Seen name service_type [] g s e = absurd s
  matches-Seen name service_type (f ∷ fs) g (inl q) e =
      let y : same (short_name u f.name service_type) name ≡ true =
        (same_iff _ name).1 (ap (λ (x : Found). short_name u x.name service_type) q ∙ e) in
      rw y (inl (ap (renamed service_type) q))
  matches-Seen name service_type (f ∷ fs) g (inr s) e =
      let ih = matches-Seen name service_type fs g s e in
      elim (Bool-cases (same (short_name u f.name service_type) name)) [
        | inl y ↦ rw y (inr ih)
        | inr n ↦ rw n ih
      ]

  Seen-matches :
      (name service_type : Text) (fs : List Found) (f : Found)
      → Seen f (matches u name service_type fs)
      → (g : Found) × Seen g fs
        × (short_name u g.name service_type ≡ name)
        × (f ≡ renamed service_type g)
  unfolding matches
  Seen-matches name service_type [] f s = absurd s
  Seen-matches name service_type (h ∷ fs) f s =
      elim (Bool-cases (same (short_name u h.name service_type) name)) [
        | inl y ↦
            let named = (same_iff (short_name u h.name service_type) name).0 y in
            let here : Seen f (renamed service_type h ∷ matches u name service_type fs) =
              rw (y, matches) at s in
            elim here [
              | inl e ↦ (h, inl refl, named, sym e)
              | inr r ↦ let (g, m, q, e) = Seen-matches name service_type fs f r in (g, inr m, q, e)
            ]
        | inr n ↦
            let there : Seen f (matches u name service_type fs) = rw (n, matches) at s in
            let (g, m, q, e) = Seen-matches name service_type fs f there in (g, inr m, q, e)
      ]

  choose-board :
      (name service_type : Text) (fs : List Found) (f : Found)
      → choose u name service_type fs ≡ board f
      → fs ≡ f ∷ []
  choose-board name service_type [] f e = absurd (cc e)
  choose-board name service_type (g ∷ []) f e = cc e
  choose-board name service_type (g ∷ h ∷ fs) f e = absurd (cc e)

  -- A board that a name resolves to is a result with that short name, under its short name.
  pub resolve_board-Seen :
      (name service_type : Text) (results : List Found) (f : Found)
      → resolve_board u name service_type results ≡ board f
      → (g : Found) × Seen g results
        × (short_name u g.name service_type ≡ name)
        × (f ≡ renamed service_type g)
  unfolding resolve_board
  resolve_board-Seen name service_type results f h =
      let only = choose-board name service_type (matches u name service_type results) f h in
      Seen-matches name service_type results f (subst (Seen f) (sym only) (inl refl))

  -- If a name resolves, then every result with that short name is at the host and port that it
  -- resolves to: the board is never picked among several.
  pub resolve_board_unique :
      (name service_type : Text) (results : List Found) (f g : Found)
      → resolve_board u name service_type results ≡ board f
      → Seen g results
      → short_name u g.name service_type ≡ name
      → (g.host ≡ f.host) × (g.port ≡ f.port)
  unfolding resolve_board
  resolve_board_unique name service_type results f g h s e =
      let only = choose-board name service_type (matches u name service_type results) f h in
      let seen = matches-Seen name service_type results g s e in
      elim (subst (Seen (renamed service_type g)) only seen) [
        | inl q ↦ (ap (λ (x : Found). x.host) (sym q), ap (λ (x : Found). x.port) (sym q))
        | inr none_left ↦ absurd none_left
      ]
