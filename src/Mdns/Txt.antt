-- ===== src/Mdns/Txt.antt =====
-- The TXT records of src/mbdeploy/mdns.py: what is advertised is what is found.
use mbdeploy.Base.{
  ◌≡◌, refl, sym, ap, ◌∙◌, false, Option, none, some, [], ◌∷◌, ◌++◌, arith, append-nil,
  append_assoc, if_true, if_false, Bool-cases, inl, inr,
}
use mbdeploy.Text.{Text, same}
use mbdeploy.Text.Equality.{same_iff}
use mbdeploy.Text.Dict.{Dict, get, put}
use mbdeploy.Mdns.Browse.{decode_txt, encode_txt}

-- Each key is another than those of `front` and those before it, as in any dictionary.
abbrev pub KeysApart : Dict Text → Dict Text → Type 0
KeysApart front [] = Unit
KeysApart front ((k, v) ∷ d) = (get k front ≡ none) × KeysApart (front ++ (k, v) ∷ []) d

put-fresh {ℓ} :
    {V : Type ℓ} (k : Text) (v : V) (d : Dict V) → get k d ≡ none → put k v d ≡ d ++ (k, v) ∷ []
unfolding get put
put-fresh k v [] n = refl
put-fresh k v ((j, w) ∷ d) n = elim (Bool-cases (same j k)) [
  | inl y ↦ absurd (cc (sym (if_true _ _ y) ∙ n))
  | inr f ↦ if_false _ _ f ∙ ap (λ l. (j, w) ∷ l) (put-fresh k v d (sym (if_false _ _ f) ∙ n))
]

module _ (encode : Text → Text) (decode : Text → Option Text)
    (faithful : (s : Text) → decode (encode s) ≡ some s) where
  encoded : Dict Text → Dict (Option Text)
  encoded [] = []
  encoded ((k, v) ∷ d) = (encode k, some (encode v)) ∷ encoded d

  encoded-append : (a b : Dict Text) → encoded (a ++ b) ≡ encoded a ++ encoded b
  unfolding encoded
  encoded-append [] b = refl
  encoded-append ((k, v) ∷ a) b = ap (λ l. (encode k, some (encode v)) ∷ l) (encoded-append a b)

  same-encode : (j k : Text) → same j k ≡ false → same (encode j) (encode k) ≡ false
  same-encode j k f = elim (Bool-cases (same (encode j) (encode k))) [
    | inr n ↦ n
    | inl y ↦
        let e : some j ≡ some k =
          sym (faithful j) ∙ ap decode ((same_iff (encode j) (encode k)).0 y) ∙ faithful k in
        let q : j ≡ k = cc e in absurd (ground (arith, (same_iff j k).1 q, f))
  ]

  encoded-fresh : (k : Text) (d : Dict Text) → get k d ≡ none → get (encode k) (encoded d) ≡ none
  unfolding get encoded
  encoded-fresh k [] n = refl
  encoded-fresh k ((j, v) ∷ d) n = elim (Bool-cases (same j k)) [
    | inl y ↦ absurd (cc (sym (if_true _ _ y) ∙ n))
    | inr f ↦ if_false _ _ (same-encode j k f) ∙ encoded-fresh k d (sym (if_false _ _ f) ∙ n)
  ]

  encode_txt-encoded :
      (d front : Dict Text)
      → KeysApart front d
      → encode_txt encode d (encoded front) ≡ encoded (front ++ d)
  unfolding encode_txt encoded
  encode_txt-encoded [] front n = ap encoded (sym (append-nil front))
  encode_txt-encoded ((k, v) ∷ d) front (fresh, n) =
      ap (encode_txt encode d) (
        put-fresh (encode k) (some (encode v)) (encoded front) (encoded-fresh k front fresh)
        ∙ sym (encoded-append front ((k, v) ∷ [])))
      ∙ encode_txt-encoded d (front ++ (k, v) ∷ []) n
      ∙ ap encoded (append_assoc front ((k, v) ∷ []) d)

  decode_txt-encoded :
      (d front : Dict Text)
      → KeysApart front d
      → decode_txt decode (encoded d) front ≡ some (front ++ d)
  unfolding decode_txt encoded
  decode_txt-encoded [] front n = ap some (sym (append-nil front))
  decode_txt-encoded ((k, v) ∷ d) front (fresh, n) =
      rw (faithful k, faithful v)
        (ap (decode_txt decode (encoded d)) (put-fresh k v front fresh)
          ∙ decode_txt-encoded d (front ++ (k, v) ∷ []) n
          ∙ ap some (append_assoc front ((k, v) ∷ []) d))

  -- Where the codec reads back what it wrote, and no key comes twice, the TXT record of a service is
  -- read back as it was advertised, in its order.
  pub decode_txt-encode_txt :
      (txt : Dict Text)
      → KeysApart [] txt
      → decode_txt decode (encode_txt encode txt []) [] ≡ some txt
  unfolding encoded
  decode_txt-encode_txt txt n =
      ap (λ d. decode_txt decode d []) (encode_txt-encoded txt [] n) ∙ decode_txt-encoded txt [] n
