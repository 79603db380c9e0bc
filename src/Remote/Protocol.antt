-- ===== src/Remote/Protocol.antt =====
-- The `FLASH` header as the client of src/mbdeploy/remote.py writes it and as the server of
-- src/mbdeploy/server.py reads it.
use mbdeploy.Base.{
  ℕ, ◌≤◌, ◌≡◌, ◌≢◌, refl, ◌∙◌, Bool, true, false, none, some, List, [], ◌∷◌, ◌++◌, arith, length,
  append_assoc,
}
use mbdeploy.Text.{Text, Unicode, codes, same, starts_with, is_digit, is_space, max_str_digits}
use mbdeploy.Text.Split.{split, IsWord, split-cons, split-word}
use mbdeploy.Text.Decimal.{
  show, int_of, int_of-show, show-IsDigits, show-ne-nil, is_digit-IsDigits, IsDigits-IsWord,
}
use mbdeploy.Server.Header.{header, value_error, parse_flash_header}
use mbdeploy.Remote.Header.{flash_header}

module _ (u : Unicode) where
  blank : is_space u b' ' ≡ true
  unfolding is_space
  blank = refl

  flash-IsWord : IsWord (is_space u) (codes "FLASH")
  unfolding is_space
  flash-IsWord = ground arith

  force-IsWord : IsWord (is_space u) (codes "force-relay")
  unfolding is_space
  force-IsWord = ground arith

  sha-IsWord :
      (digest : Text) → IsWord (is_space u) digest → IsWord (is_space u) (codes "sha256=" ++ digest)
  unfolding is_space
  sha-IsWord digest w = ground arith

  digit-ne-nil : (s : Text) → is_digit u s ≡ true → s ≢ []
  unfolding is_digit
  digit-ne-nil [] d e = cc
  digit-ne-nil (c ∷ s) d e = cc

  tail_words : Bool → List Text
  tail_words true = codes "force-relay" ∷ []
  tail_words false = []

  flash_header-split :
      (nbytes : ℕ) (digest : Text) (force : Bool)
      → IsWord (is_space u) digest
      → split (is_space u) (flash_header nbytes digest force)
        ≡ codes "FLASH" ∷ show nbytes ∷ (codes "sha256=" ++ digest) ∷ tail_words force
  unfolding flash_header tail_words
  flash_header-split nbytes digest false w =
      split-cons (is_space u) (codes "FLASH") b' ' _ flash-IsWord (λ e. cc) blank
      ∙ rw
          (
            split-cons (is_space u) (show nbytes) b' ' _
                (IsDigits-IsWord u _ (show-IsDigits nbytes)) (show-ne-nil nbytes) blank,
            split-word (is_space u) (codes "sha256=" ++ digest) (sha-IsWord digest w) (λ e. cc),
          )
          refl
  flash_header-split nbytes digest true w =
      rw (append_assoc (show nbytes) (b' ' ∷ (codes "sha256=" ++ digest)) (codes " force-relay")) (
        split-cons (is_space u) (codes "FLASH") b' ' _ flash-IsWord (λ e. cc) blank
        ∙ rw
            (
              split-cons (is_space u) (show nbytes) b' ' _
                  (IsDigits-IsWord u _ (show-IsDigits nbytes)) (show-ne-nil nbytes) blank,
              split-cons (is_space u) (codes "sha256=" ++ digest) b' ' (codes "force-relay")
                  (sha-IsWord digest w) (λ e. cc) blank,
              split-word (is_space u) (codes "force-relay") force-IsWord (λ e. cc),
            )
            refl)

  -- What the client sends is what the server reads: the header line for any byte count that `int`
  -- converts and any digest that is one word parses to that count, digest and flag.
  pub parse_flash_header-flash_header :
      (nbytes : ℕ) (digest : Text) (force : Bool)
      → length (show nbytes) ≤ max_str_digits
      → IsWord (is_space u) digest
      → parse_flash_header u (flash_header nbytes digest force)
        ≡ header (record { nbytes = nbytes; sha256 = some digest; force_relay = force })
  unfolding parse_flash_header tail_words starts_with same
  parse_flash_header-flash_header nbytes digest force short word =
      rw (flash_header-split nbytes digest force word) (
        ground (
          arith,
          int_of-show u nbytes short,
          is_digit-IsDigits u (show nbytes) (show-IsDigits nbytes) (show-ne-nil nbytes),
        ))

  -- A count that `isdigit` accepts and `int` refuses, such as a superscript digit or more than 4300
  -- digits, is not a malformed header: the parser raises a `ValueError`.
  pub parse_flash_header-value_error :
      (count rest : Text)
      → is_digit u count ≡ true
      → int_of u count ≡ none
      → IsWord (is_space u) count
      → parse_flash_header u (codes "FLASH" ++ b' ' ∷ (count ++ b' ' ∷ rest)) ≡ value_error
  unfolding parse_flash_header same
  parse_flash_header-value_error count rest d n w =
      rw
        (
          split-cons (is_space u) (codes "FLASH") b' ' (count ++ b' ' ∷ rest) flash-IsWord (λ e. cc)
              blank,
          split-cons (is_space u) count b' ' rest w (digit-ne-nil count d) blank,
        )
        (ground arith)
