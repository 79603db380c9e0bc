-- ===== src/Mdns/Tests.antt =====
-- A TXT record of src/mbdeploy/mdns.py, with a codec that is the identity on bytes.
use mbdeploy.Base.{◌≡◌, refl, some, [], ◌∷◌}
use mbdeploy.Text.{Text, codes, same}
use mbdeploy.Text.Dict.{Dict, get}
use mbdeploy.Mdns.Browse.{decode_txt, encode_txt}
use mbdeploy.Mdns.Txt.{decode_txt-encode_txt}

abbrev txt : Dict Text
txt = (codes "uid", codes "99") ∷ (codes "role", []) ∷ []

decode_txt-encode_txt_example : decode_txt (λ s. some s) (encode_txt (λ s. s) txt []) [] ≡ some txt
unfolding get same
decode_txt-encode_txt_example =
    decode_txt-encode_txt (λ s. s) (λ s. some s) (λ s. refl) txt (refl, (refl, tt))
