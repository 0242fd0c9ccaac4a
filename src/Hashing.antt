-- ===== src/Hashing.antt =====
-- `crypto/sha256`, which Go's library implements: a parameter of everything that hashes. The one
-- thing that the proofs use of it is that the program meets no collision.
use waychain_consensus.Prelude.{
  ◌≡◌, Bytes, bytes_eq, bytes_eq_iff, Bool-cases, inl, inr, bytes_eq_refl,
}

pub record Sha256 : Type 0 where
  pub sum256 : Bytes → Bytes
  pub collision_free : (a b : Bytes) → sum256 a ≡ sum256 b → a ≡ b

module _ ⦃h : Sha256⦄ where
  -- Two digests are equal exactly when the hashed bytes are.
  pub bytes_eq-sum256 : (a b : Bytes) → bytes_eq (h.sum256 a) (h.sum256 b) ≡ bytes_eq a b
  bytes_eq-sum256 a b = elim (Bool-cases (bytes_eq a b)) [
    | inl same ↦ rw (same, (bytes_eq_iff a b).0 same) (bytes_eq_refl (h.sum256 b))
    | inr differ ↦ elim (Bool-cases (bytes_eq (h.sum256 a) (h.sum256 b))) [
      | inl e ↦ cc ((bytes_eq_iff a b).1 (h.collision_free a b ((bytes_eq_iff _ _).0 e)))
      | inr e ↦ rw differ e
    ]
  ]

-- A function that meets the law, for concrete runs.
instance abbrev pub plain_digest : Sha256
plain_digest = record { sum256 = λ x. x; collision_free = λ a b e. e }
