-- ===== src/Text/Dict.antt =====
-- Python's `dict` with texts as keys: an association list in the order of insertion.
use mbdeploy.Base.{
  ◌≡◌, refl, Bool, Option, none, some, List, [], ◌∷◌, arith, if◌then◌else◌, is_some,
}
use mbdeploy.Text.{Text, same}
use mbdeploy.Text.Equality.{same_iff, same_refl}

abbrev pub Dict {ℓ} : Type ℓ → Type ℓ
Dict V = List (Text × V)

module _ {ℓ} {V : Type ℓ} where
  -- `d.get(k)`
  unfoldable pub get : Text → Dict V → Option V
  get k [] = none
  get k ((j, v) ∷ d) = if same j k then some v else get k d

  -- `d[k] = v`: in place, or at the end
  unfoldable pub put : Text → V → Dict V → Dict V
  put k v [] = (k, v) ∷ []
  put k v ((j, w) ∷ d) = if same j k then (j, v) ∷ d else (j, w) ∷ put k v d

  -- `d.pop(k, None)`, the part that stays
  unfoldable pub remove : Text → Dict V → Dict V
  remove k [] = []
  remove k ((j, v) ∷ d) = let rest = remove k d in if same j k then rest else (j, v) ∷ rest

  -- `k in d`
  abbrev pub has : Text → Dict V → Bool
  has k d = is_some (get k d)

  abbrev pub keys : Dict V → List Text
  keys [] = []
  keys ((k, v) ∷ d) = k ∷ keys d

  -- `d.values()`
  abbrev pub values : Dict V → List V
  values [] = []
  values ((k, v) ∷ d) = v ∷ values d

  pub get-put :
      (k j : Text) (v : V) (d : Dict V) → get j (put k v d) ≡ (if same k j then some v else get j d)
  unfolding get put
  get-put k j v [] = refl
  get-put k j v ((i, w) ∷ d) =
      ground (arith, same_iff k j, same_iff i k, same_iff i j, get-put k j v d)

  pub get-put_self : (k : Text) (v : V) (d : Dict V) → get k (put k v d) ≡ some v
  get-put_self k v d = ground (arith, get-put k k v d, same_refl k)

  pub get-remove :
      (k j : Text) (d : Dict V) → get j (remove k d) ≡ (if same k j then none else get j d)
  unfolding get remove
  get-remove k j [] = ground arith
  get-remove k j ((i, w) ∷ d) =
      ground (arith, same_iff k j, same_iff i k, same_iff i j, get-remove k j d)
