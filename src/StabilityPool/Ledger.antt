-- ===== src/StabilityPool/Ledger.antt =====
-- The ledger's theorems: what an accepted withdrawal does, and that the total covers the deposits.
use waychain_consensus.Prelude.{
  ℕ, ◌^◌, ◌<◌, ◌≤◌, ◌≡◌, refl, Bool, true, false, List, [], ◌∷◌, ◌&&◌, ◌||◌, Outcome, ok, err, some,
  panic, is_ok, ltb, leb, if◌then◌else◌, Bytes, length, arith, lookup, lookup_or, bytes_eq,
  Bool-cases, inl, inr, ◌∙◌,
}
use waychain_consensus.Hashing.{Sha256}
use waychain_consensus.State.{StateDb, new_state_db, account_at}
use waychain_consensus.State.Storage.{sload}
use waychain_consensus.Precompile.{read_slot, abs_diff}
use waychain_consensus.StabilityPool.{
  PoolError, pool_addr, deposit_slot, total_deposits, two_way_balance, stability_withdraw,
}
use waychain_consensus.StabilityPool.Moves.{slot, stability_withdraw-ok}
use waychain_consensus.StabilityPool.Deposits.{
  slot-touch, slot-after_withdraw, stability_withdraw-outcome,
}
use waychain_consensus.StabilityPool.Backing.{deposits_of, all_distinct, IsBacked}
use waychain_consensus.StabilityPool.Calls.{PoolCall, run, run-IsBacked}

module _ ⦃h : Sha256⦄ where
  -- The code's guards on a withdrawal.
  unfoldable pub may_withdraw : Bytes → Bytes → StateDb → Bool
  unfolding slot
  may_withdraw input caller s =
      leb 36 (length input)
      && ltb 0 (read_slot input 4)
      && leb (read_slot input 4) (slot (deposit_slot caller) s)

  withdraw_refused :
      (input caller j : Bytes) (block : ℕ) (s : StateDb)
      → may_withdraw input caller s ≡ false
      → slot j (stability_withdraw input caller block s).1 ≡ slot j s
  unfolding may_withdraw stability_withdraw slot
  withdraw_refused input caller j block s e =
      ground (arith, slot-touch j pool_addr s, slot-touch (deposit_slot caller) pool_addr s)

  is_ok-value : (r : Outcome PoolError Bytes) → is_ok r ≡ true → (out : Bytes) × (r ≡ ok out)
  is_ok-value (ok out) e = (out, refl)
  is_ok-value (err x) e = ground arith
  is_ok-value panic e = ground arith

  -- On slots below 2^256, a withdrawal is accepted exactly when the input is long enough, the
  -- amount is positive and the caller has deposited it. It then replaces three slots, the caller's
  -- deposit, the total and the pool's balance, by their distance to the amount, and no other; a
  -- refusal changes no slot.
  pub stability_withdraw_exact :
      (input caller : Bytes) (block : ℕ) (s : StateDb)
      → slot total_deposits s < 2 ^ 256
      → slot two_way_balance s < 2 ^ 256
      → slot (deposit_slot caller) s < 2 ^ 256
      → (is_ok (stability_withdraw input caller block s).0 ≡ may_withdraw input caller s)
        × ((j : Bytes)
            → slot j (stability_withdraw input caller block s).1 ≡ (
                if may_withdraw input caller s
                  && (bytes_eq (deposit_slot caller) j
                      || bytes_eq total_deposits j
                      || bytes_eq two_way_balance j)
                then abs_diff (slot j s) (read_slot input 4)
                else slot j s))
  unfolding may_withdraw
  stability_withdraw_exact input caller block s t b d = (
    outcome,
    λ j. elim (Bool-cases (may_withdraw input caller s)) [
      | inl can ↦
          (let (out, r) = is_ok-value (stability_withdraw input caller block s).0 (outcome ∙ can) in
            ground (
              arith,
              can,
              stability_withdraw-ok input caller out block s r,
              slot-after_withdraw j caller (read_slot input 4) block s,
            ))
      | inr refused ↦ ground (arith, refused, withdraw_refused input caller j block s refused)
    ],
  )
    where
      outcome : is_ok (stability_withdraw input caller block s).0 ≡ may_withdraw input caller s
      outcome = stability_withdraw-outcome input caller block s t b d

  slot-new_state_db : (k : Bytes) → slot k new_state_db ≡ 0
  unfolding slot sload account_at lookup_or lookup
  slot-new_state_db k = refl

  deposits_of-new_state_db : (us : List Bytes) → deposits_of us new_state_db ≡ 0
  unfolding deposits_of
  deposits_of-new_state_db [] = refl
  deposits_of-new_state_db (u ∷ us) =
      omega (arith, slot-new_state_db (deposit_slot u), deposits_of-new_state_db us)

  new_state_db-IsBacked : IsBacked new_state_db
  unfolding IsBacked
  new_state_db-IsBacked us d =
      omega (arith, deposits_of-new_state_db us, slot-new_state_db total_deposits)

  -- After any sequence of calls of the stability pool on a new state, with any inputs and callers,
  -- none of which panics: for any list of distinct users, the sum of their recorded deposits is at
  -- most the recorded total.
  pub run-new_state_db-IsBacked :
      (cs : List PoolCall) (t : StateDb)
      → run cs new_state_db ≡ some t
      → (us : List Bytes) → all_distinct us ≡ true
      → deposits_of us t ≤ slot total_deposits t
  unfolding IsBacked
  run-new_state_db-IsBacked cs t e = run-IsBacked cs new_state_db t e new_state_db-IsBacked
