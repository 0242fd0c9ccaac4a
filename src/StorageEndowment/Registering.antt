-- ===== src/StorageEndowment/Registering.antt =====
-- The record of an operator: what registering finds of an earlier registration.
use waychain_consensus.Prelude.{
  ℕ, ◌+◌, ◌-◌, ◌%◌, ◌^◌, ◌<◌, ◌≡◌, ◌≢◌, ap, ◌∙◌, false, [], ◌∷◌, ok, some, Bytes, codes, bytes_eq,
  bytes_eq_refl, arith,
}
use waychain_consensus.Hashing.{Sha256, bytes_eq-sum256}
use waychain_consensus.State.{StateDb}
use waychain_consensus.State.Storage.{sload, sstore, sload-sstore, sload-add_log}
use waychain_consensus.Precompile.{storage_key, read_slot}
use waychain_consensus.StorageEndowment.{
  endowment_addr, operator_count, operator_key, list_key, active_byte, second_byte, new_operator,
  low_uint64, caller_address, write_operator, register_operator,
}

new_operator-fields :
    (stake block : ℕ)
    → block < 2 ^ 56
    → (active_byte (new_operator stake block) ≡ 1) × (second_byte (new_operator stake block) ≡ 0)
unfolding active_byte second_byte new_operator
new_operator-fields stake block small = (omega arith, omega arith)

module _ ⦃h : Sha256⦄ (who : Bytes) where
  operator : StateDb → ℕ
  operator s = sload endowment_addr (operator_key who) s

  kept :
      (j : Bytes) (v : ℕ) (s : StateDb)
      → bytes_eq j (operator_key who) ≡ false
      → operator (sstore endowment_addr j v s) ≡ operator s
  unfolding operator
  kept j v s other =
      ground (arith, other, sload-sstore endowment_addr (operator_key who) endowment_addr j v s)

  stored : (v : ℕ) (s : StateDb) → operator (sstore endowment_addr (operator_key who) v s) ≡ v
  unfolding operator
  stored v s = ground (
    arith,
    bytes_eq_refl endowment_addr,
    bytes_eq_refl (operator_key who),
    sload-sstore endowment_addr (operator_key who) endowment_addr (operator_key who) v s,
  )

  list_apart : (i : ℕ) → bytes_eq (list_key i) (operator_key who) ≡ false
  unfolding list_key bytes_eq
  list_apart i = bytes_eq-sum256 (32 ∷ _) (16 ∷ who)

  -- What the writes of a registration leave in the operator's slot.
  pub operator-write_operator :
      (caller : Bytes) (stake block : ℕ) (s : StateDb)
      → sload endowment_addr (operator_key who) (write_operator caller who stake block s).1
        ≡ new_operator stake block
  unfolding write_operator operator
  operator-write_operator caller stake block s =
      sload-add_log endowment_addr (operator_key who) endowment_addr
        (storage_key (codes "OperatorRegistered") ∷ []) caller block _
      ∙ kept _ _ _ (
          list_apart (
            ((low_uint64 (sload endowment_addr operator_count s) + 1) % 2 ^ 64 + 2 ^ 64 - 1)
            % 2 ^ 64))
      ∙ stored _ _

  register_operator-answer :
      (caller input : Bytes) (later : ℕ) (t : StateDb)
      → read_slot input 4 ≢ 0
      → caller_address caller t ≡ (ok who, t)
      → second_byte (operator t) ≡ 0
      → (register_operator input caller later t).0 ≡ ok (1 ∷ [], some (read_slot input 4 % 2 ^ 64))
  unfolding register_operator operator write_operator
  register_operator-answer caller input later t positive named unset =
      ground (arith, positive, named, unset)

  -- A registration at a block below 2^56 lets every later one of the same caller pass, so an operator
  -- is counted and listed as often as it registers.
  pub register_operator-write_operator :
      (caller input : Bytes) (stake block later : ℕ) (s : StateDb)
      → block < 2 ^ 56
      → read_slot input 4 ≢ 0
      → ((t : StateDb) → caller_address caller t ≡ (ok who, t))
      → (register_operator input caller later (write_operator caller who stake block s).1).0
        ≡ ok (1 ∷ [], some (read_slot input 4 % 2 ^ 64))
  unfolding operator
  register_operator-write_operator caller input stake block later s small positive named =
      register_operator-answer caller input later (write_operator caller who stake block s).1
        positive (named (write_operator caller who stake block s).1)
        (ap second_byte (operator-write_operator caller stake block s)
          ∙ (new_operator-fields stake block small).1)
