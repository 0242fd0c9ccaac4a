-- ===== src/TwoWay/Liquidation.antt =====
-- What a liquidation does: the debt is cleared, and the collateral stays in the vault.
use waychain_consensus.Prelude.{
  ℕ, ◌-◌, ◌≡◌, Bool, false, true, not, ◌&&◌, ok, Bool-cases, inl, inr, codes, [], ◌∷◌, arith, leb,
  if◌then◌else◌, is_ok, is_panic, Bytes, length, slice, bytes_eq, bytes_eq_refl, bytes_eq_iff, List,
  ap, ◌∙◌,
}
use waychain_consensus.Hashing.{Sha256}
use waychain_consensus.State.{StateDb, touch, add_log}
use waychain_consensus.State.Storage.{sstore}
use waychain_consensus.Precompile.{storage_key, big_bytes}
use waychain_consensus.StabilityPool.{vault_addr, debt_key}
use waychain_consensus.TwoWay.{
  two_way_liquidate, total_debt, collaterals_in, collateral_name, is_above_liquidation_ratio,
}
use waychain_consensus.TwoWay.Slots.{
  at, slots_of, at-touch, at-sstore, at-add_log, lower_at, at-lower_at, slots_of-touch,
  slots_of-sstore, slots_of-lower_at, slots_of-add_log, collaterals_in-insert,
  collateral_name-debt_key,
}

module _ ⦃h : Sha256⦄ where
  cleared : Bytes → StateDb → StateDb
  cleared vault_id s = lower_at vault_addr (storage_key total_debt) (at (debt_key vault_id) s) (
      touch vault_addr (
        sstore vault_addr (debt_key vault_id) 0
          (touch vault_addr (touch vault_addr (touch vault_addr s)))))

  at-cleared :
      (j vault_id : Bytes) (s : StateDb)
      → bytes_eq (debt_key vault_id) (storage_key total_debt) ≡ false
      → at j (cleared vault_id s) ≡ (
          if bytes_eq (storage_key total_debt) j
          then at (storage_key total_debt) s - at (debt_key vault_id) s
          else if bytes_eq (debt_key vault_id) j
          then 0
          else at j s)
  unfolding cleared
  at-cleared j vault_id s differ = simp (at-lower_at, at-sstore, at-touch, differ)

  collaterals_in-cleared :
      (vault_id w : Bytes) (s : StateDb)
      → collateral_name vault_id (storage_key total_debt) ≡ []
      → collaterals_in vault_id (slots_of (cleared w s)) ≡ collaterals_in vault_id (slots_of s)
  unfolding cleared
  collaterals_in-cleared vault_id w s apart = simp (
    slots_of-lower_at, slots_of-touch, slots_of-sstore, apart, collaterals_in-insert,
    collateral_name-debt_key,
  )

  -- The code's guards.
  unfoldable pub may_liquidate : Bytes → StateDb → Bool
  may_liquidate input s =
      leb 36 (length input)
      && not (
          is_above_liquidation_ratio (slice input 4 36) (at (debt_key (slice input 4 36)) s)
            (slots_of s))

  module _ (input caller : Bytes) (block : ℕ) (s : StateDb) where
    liquidate-state :
        is_panic (two_way_liquidate input caller block s).0 ≡ false
        → may_liquidate input s ≡ true
        → two_way_liquidate input caller block s ≡ (
          ok (slice input 4 36),
          add_log vault_addr
              (storage_key (codes "Liquidated")
                ∷ storage_key (slice input 4 36)
                ∷ storage_key caller
                ∷ [])
              (big_bytes (at (debt_key (slice input 4 36)) s))
              block
              (cleared (slice input 4 36) s),
        )
    unfolding two_way_liquidate may_liquidate cleared at slots_of lower_at
    liquidate-state calm can = ground (
      arith,
      slots_of-touch vault_addr s,
      at-touch (debt_key (slice input 4 36)) vault_addr s,
      at-touch (debt_key (slice input 4 36)) vault_addr (touch vault_addr s),
    )

    liquidate-refused :
        (j vault_id : Bytes)
        → may_liquidate input s ≡ false
        → (is_ok (two_way_liquidate input caller block s).0 ≡ false)
          × (at j (two_way_liquidate input caller block s).1 ≡ at j s)
          × (slots_of (two_way_liquidate input caller block s).1 ≡ slots_of s)
    unfolding two_way_liquidate may_liquidate at slots_of
    liquidate-refused j vault_id cannot = ground (
      arith,
      slots_of-touch vault_addr s,
      slots_of-touch vault_addr (touch vault_addr s),
      at-touch j vault_addr s,
      at-touch j vault_addr (touch vault_addr s),
      at-touch (debt_key (slice input 4 36)) vault_addr s,
      at-touch (debt_key (slice input 4 36)) vault_addr (touch vault_addr s),
    )

  -- A liquidation that does not panic, for a vault whose debt slot and collateral keys are not the
  -- slot of the total: it is accepted exactly when the input is long enough and the vault is not
  -- above the liquidation ratio. Acceptance sets the debt of the vault to zero and takes it off the
  -- total; a refusal leaves both. The collateral of the vault is the same in every case.
  pub two_way_liquidate_exact :
      (input caller : Bytes) (block : ℕ) (s : StateDb)
      → is_panic (two_way_liquidate input caller block s).0 ≡ false
      → bytes_eq (debt_key (slice input 4 36)) (storage_key total_debt) ≡ false
      → collateral_name (slice input 4 36) (storage_key total_debt) ≡ []
      → let id = slice input 4 36 in
        let s' = (two_way_liquidate input caller block s).1 in
        (is_ok (two_way_liquidate input caller block s).0 ≡ may_liquidate input s)
        × (at (debt_key id) s' ≡ (if may_liquidate input s then 0 else at (debt_key id) s))
        × (at (storage_key total_debt) s' ≡ (
            if may_liquidate input s
            then at (storage_key total_debt) s - at (debt_key id) s
            else at (storage_key total_debt) s))
        × (collaterals_in id (slots_of s') ≡ collaterals_in id (slots_of s))
  two_way_liquidate_exact input caller block s calm differ apart =
      elim (Bool-cases (may_liquidate input s)) [
        | inl can ↦
            let e = liquidate-state input caller block s calm can in
            (
              ground (arith, e, can),
              ground (
                arith,
                e,
                can,
                logged (debt_key id),
                at-cleared (debt_key id) id s differ,
                bytes_eq_refl (debt_key id),
                bytes_eq_iff (storage_key total_debt) (debt_key id),
                bytes_eq_iff (debt_key id) (storage_key total_debt),
              ),
              ground (
                arith,
                e,
                can,
                logged (storage_key total_debt),
                at-cleared (storage_key total_debt) id s differ,
                bytes_eq_refl (storage_key total_debt),
              ),
              ap (λ r. collaterals_in id (slots_of r.1)) e
                  ∙ ap (collaterals_in id) (
                      slots_of-add_log vault_addr topics (big_bytes (at (debt_key id) s)) block
                        (cleared id s))
                  ∙ collaterals_in-cleared id id s apart,
            )
        | inr cannot ↦
            let refused = λ (j : Bytes). liquidate-refused input caller block s j id cannot in
            (
              ground (arith, refused [], cannot),
              ground (arith, refused (debt_key id), cannot),
              ground (arith, refused (storage_key total_debt), cannot),
              ap (collaterals_in id) ((refused []).2),
            )
      ]
    where
      id : Bytes
      id = slice input 4 36

      topics : List Bytes
      topics = storage_key (codes "Liquidated") ∷ storage_key id ∷ storage_key caller ∷ []

      logged :
          (j : Bytes)
          → at j (add_log vault_addr topics (big_bytes (at (debt_key id) s)) block (cleared id s))
            ≡ at j (cleared id s)
      logged j =
          at-add_log j vault_addr topics (big_bytes (at (debt_key id) s)) block (cleared id s)
