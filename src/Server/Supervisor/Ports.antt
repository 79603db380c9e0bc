-- ===== src/Server/Supervisor/Ports.antt =====
-- The ports that `_alloc_ports` of src/mbdeploy/server.py hands out, takes back and hands out again.
pub mod Leak
pub mod Live
use mbdeploy.Base.{
  ℕ, ◌+◌, ◌<◌, ◌≡◌, ◌≢◌, refl, sym, ap, ◌∙◌, Option, none, some, List, [], ◌∷◌, arith, inl, inr,
  ◌⊎◌, if_true, if_false, Bool-cases,
}
use mathlib.Core.Path.{subst}
use mbdeploy.Text.{Text, same}
use mbdeploy.Text.Equality.{same_iff}
use mbdeploy.Text.Dict.{Dict, get, put, remove, get-put, get-remove}

-- two pairs without a port in common
abbrev pub Apart : ℕ × ℕ → ℕ × ℕ → Type 0
Apart x z = (x.1 < z.0) ⊎ (z.1 < x.0)

-- two consecutive ports, not 0, that were handed out before the port `n`
abbrev pub Pair : ℕ → ℕ × ℕ → Type 0
Pair n x = (x.1 ≡ x.0 + 1) × (x.1 < n) × (0 < x.0)

abbrev pub Free : ℕ × ℕ → List (ℕ × ℕ) → Type 0
Free x [] = ⊥
Free x (z ∷ l) = (z ≡ x) ⊎ Free x l

abbrev Distinct : List (ℕ × ℕ) → Type 0
Distinct [] = Unit
Distinct (x ∷ l) = ((z : ℕ × ℕ) → Free z l → Apart x z) × Distinct l

-- The pairs in use `d` and the free ones `f` are all apart, and below the next port `n`.
pub record Allotted (d : Dict (ℕ × ℕ)) (f : List (ℕ × ℕ)) (n : ℕ) : Type 0 where
  pub positive : 0 < n
  pub used_pair : (uid : Text) (x : ℕ × ℕ) → get uid d ≡ some x → Pair n x
  pub used_apart :
      (uid k : Text) (x z : ℕ × ℕ) → uid ≢ k → get uid d ≡ some x → get k d ≡ some z → Apart x z
  pub free_pair : (x : ℕ × ℕ) → Free x f → Pair n x
  pub free_apart : Distinct f
  pub mixed_apart : (uid : Text) (x z : ℕ × ℕ) → get uid d ≡ some x → Free z f → Apart x z

-- a pair that may be handed out
pub record Spare (x : ℕ × ℕ) (d : Dict (ℕ × ℕ)) (f : List (ℕ × ℕ)) (n : ℕ) : Type 0 where
  pub pair : Pair n x
  pub used : (uid : Text) (z : ℕ × ℕ) → get uid d ≡ some z → Apart x z
  pub free : (z : ℕ × ℕ) → Free z f → Apart x z

module _ (d : Dict (ℕ × ℕ)) (f : List (ℕ × ℕ)) (n : ℕ) where
  -- the newest of the free list
  pub take_free : (x : ℕ × ℕ) → Allotted d (x ∷ f) n → Allotted d f n × Spare x d f n
  take_free x a = (
    record {
      positive = a.positive;
      used_pair = a.used_pair;
      used_apart = a.used_apart;
      free_pair = λ z m. a.free_pair z (inr m);
      free_apart = a.free_apart.1;
      mixed_apart = λ uid z w g m. a.mixed_apart uid z w g (inr m);
    },
    record {
      pair = a.free_pair x (inl refl);
      used = λ uid z g. ground (arith, a.mixed_apart uid z x g (inl refl));
      free = a.free_apart.0;
    },
  )

  -- the next two ports
  pub take_next : Allotted d f n → Allotted d f (n + 2) × Spare (n, n + 1) d f (n + 2)
  take_next a = (
    record {
      positive = ground (arith, a.positive);
      used_pair = λ uid x g. ground (arith, a.used_pair uid x g);
      used_apart = a.used_apart;
      free_pair = λ x m. ground (arith, a.free_pair x m);
      free_apart = a.free_apart;
      mixed_apart = a.mixed_apart;
    },
    record {
      pair = ground (arith, a.positive);
      used = λ uid z g. inr (ground (arith, a.used_pair uid z g));
      free = λ z m. inr (ground (arith, a.free_pair z m));
    },
  )

  pub give_back :
      (uid : Text) (x : ℕ × ℕ)
      → get uid d ≡ some x
      → Allotted d f n
      → Allotted (remove uid d) (x ∷ f) n
  give_back uid x g a = record {
    positive = a.positive;
    used_pair = λ k z h. a.used_pair k z (kept k z h).1;
    used_apart = λ j k z w ne h i. a.used_apart j k z w ne (kept j z h).1 (kept k w i).1;
    free_pair =
        λ z m. elim m [ inl e ↦ subst (Pair n) e (a.used_pair uid x g) | inr m ↦ a.free_pair z m ];
    free_apart = (λ z m. a.mixed_apart uid x z g m, a.free_apart);
    mixed_apart = λ k z w h m. elim m [
      | inl e ↦
          subst (Apart z) e (a.used_apart k uid z x (λ q. (kept k z h).0 (sym q)) (kept k z h).1 g)
      | inr m ↦ a.mixed_apart k z w (kept k z h).1 m
    ];
  }
    where
      kept : (k : Text) (z : ℕ × ℕ) → get k (remove uid d) ≡ some z → (uid ≢ k) × (get k d ≡ some z)
      kept k z h = elim (Bool-cases (same uid k)) [
        | inl q ↦ absurd (ground (arith, h, get-remove uid k d, q))
        | inr q ↦
            (λ e. ground (arith, (same_iff uid k).1 e, q), ground (arith, h, get-remove uid k d, q))
      ]

  pub hand_out :
      (uid : Text) (x : ℕ × ℕ) → Spare x d f n → Allotted d f n → Allotted (put uid x d) f n
  hand_out uid x s a = record {
    positive = a.positive;
    used_pair = λ k z h. elim (held k z h) [
      | inl (e, q) ↦ subst (Pair n) q s.pair
      | inr (e, g) ↦ a.used_pair k z g
    ];
    used_apart = λ j k z w ne h i. elim (held j z h) [
      | inl (e, q) ↦ elim (held k w i) [
        | inl (e2, q2) ↦ absurd (ne (sym e ∙ e2))
        | inr (e2, g2) ↦ subst (λ t. Apart t w) q (s.used k w g2)
      ]
      | inr (e, g) ↦ elim (held k w i) [
        | inl (e2, q2) ↦ let m = s.used j z g in subst (Apart z) q2 (ground (arith, m))
        | inr (e2, g2) ↦ a.used_apart j k z w ne g g2
      ]
    ];
    free_pair = a.free_pair;
    free_apart = a.free_apart;
    mixed_apart = λ k z w h m. elim (held k z h) [
      | inl (e, q) ↦ subst (λ t. Apart t w) q (s.free w m)
      | inr (e, g) ↦ a.mixed_apart k z w g m
    ];
  }
    where
      held :
          (k : Text) (z : ℕ × ℕ)
          → get k (put uid x d) ≡ some z
          → ((uid ≡ k) × (x ≡ z)) ⊎ ((uid ≢ k) × (get k d ≡ some z))
      held k z h = elim (Bool-cases (same uid k)) [
        | inl q ↦ inl ((same_iff uid k).0 q, cc (sym (if_true _ _ q) ∙ sym (get-put uid k x d) ∙ h))
        | inr q ↦
            inr (
              λ e. ground (arith, (same_iff uid k).1 e, q),
              ground (arith, h, get-put uid k x d, q),
            )
      ]
