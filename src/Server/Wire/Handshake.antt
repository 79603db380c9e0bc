-- ===== src/Server/Wire/Handshake.antt =====
-- The `AUTH` handshake of src/mbdeploy/server.py: exactly the token is let in.
use mbdeploy.Base.{
  ◌≡◌, ◌↔◌, ap, ◌∙◌, true, false, some, ◌++◌, arith, drop, all, Bool-cases, inl, inr,
}
use mbdeploy.Text.{Text, Unicode, codes, is_ascii, starts_with, decode_replace}
use mbdeploy.Text.Equality.{same_iff, same_refl}
use mbdeploy.Text.Search.{starts_with-drop}
use mbdeploy.Server.Wire.{accepted, type_error, check_token}

module _ (u : Unicode) where
  check_token-accepted :
      (token line : Text)
      → check_token u token (some line) ≡ accepted
      → decode_replace u line ≡ codes "AUTH " ++ token
  unfolding check_token
  check_token-accepted token line h =
      let text = decode_replace u line in
      elim (Bool-cases (starts_with text (codes "AUTH "))) [
        | inr n ↦ ground arith
        | inl y ↦
            starts_with-drop (codes "AUTH ") text y
            ∙ ap (λ s. codes "AUTH " ++ s)
                ((same_iff (drop 5 text) token).0
                  (ground (arith, starts_with-drop (codes "AUTH ") text y)))
      ]

  check_token-right :
      (token line : Text)
      → all is_ascii token ≡ true
      → decode_replace u line ≡ codes "AUTH " ++ token
      → check_token u token (some line) ≡ accepted
  unfolding check_token starts_with
  check_token-right token line a e = rw e (ground (arith, same_refl token))

  accepted-ascii :
      (token line : Text) → check_token u token (some line) ≡ accepted → all is_ascii token ≡ true
  unfolding check_token
  accepted-ascii token line h = ground arith

  -- A line is accepted exactly when it decodes to "AUTH " and the token, and the token is ASCII: a
  -- token that is not lets nobody in.
  pub check_token-accepted_iff :
      (token line : Text)
      → (check_token u token (some line) ≡ accepted)
        ↔ ((decode_replace u line ≡ codes "AUTH " ++ token) × (all is_ascii token ≡ true))
  check_token-accepted_iff token line = (
    λ h. (check_token-accepted token line h, accepted-ascii token line h),
    λ p. check_token-right token line p.1 p.0,
  )

  -- A line that starts with "AUTH " and goes on with a character that is not ASCII is not
  -- rejected: it raises a `TypeError`.
  pub check_token-type_error :
      (token line : Text)
      → starts_with (decode_replace u line) (codes "AUTH ") ≡ true
      → all is_ascii (drop 5 (decode_replace u line)) ≡ false
      → check_token u token (some line) ≡ type_error
  unfolding check_token
  check_token-type_error token line s n = ground arith
