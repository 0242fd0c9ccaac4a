-- ===== src/StabilityPool/Calls.antt =====
-- Every call of the pool that does not panic keeps the ledger backed.
use waychain_consensus.Prelude.{
  ℕ, ◌≤◌, ◌≡◌, refl, Bool, true, false, List, [], ◌∷◌, Outcome, ok, err, Option, none, some, panic,
  if◌then◌else◌, Bytes, arith, bytes_eq,
}
use mathlib.Core.Path.{subst, sym}
use waychain_consensus.Hashing.{Sha256}
use waychain_consensus.State.{StateDb, touch}
use waychain_consensus.Precompile.{read_slot}
use waychain_consensus.StabilityPool.{
  PoolError, pool_addr, deposit_slot, total_deposits, stability_deposit, stability_withdraw,
  stability_claim_rewards, stability_absorb, stability_get_deposit, stability_get_pool_stats,
  stability_pool_precompile, stability_minted_debt,
}
use waychain_consensus.StabilityPool.Moves.{slot, stability_deposit-ok, stability_withdraw-ok}
use waychain_consensus.StabilityPool.Deposits.{slot-touch}
use waychain_consensus.StabilityPool.Rewards.{
  is_ledger, stability_claim_rewards-is_ledger, stability_absorb-is_ledger,
}
use waychain_consensus.StabilityPool.Backing.{
  IsBacked, IsSameLedger, IsBacked-IsSameLedger, after_deposit-IsBacked, after_withdraw-IsBacked,
}

pub data PoolCall : Type 0 where
  pool_call : Bytes → Bytes → ℕ → PoolCall

unfoldable pub panics : Outcome PoolError Bytes → Bool
panics (ok out) = false
panics (err e) = false
panics panic = true

module _ ⦃h : Sha256⦄ where
  is_ledger-deposit_slot : (caller u : Bytes) → is_ledger caller (deposit_slot u) ≡ true
  unfolding bytes_eq
  is_ledger-deposit_slot caller u = refl

  is_ledger-total_deposits : (caller : Bytes) → is_ledger caller total_deposits ≡ true
  unfolding bytes_eq
  is_ledger-total_deposits caller = refl

  -- A call that keeps every ledger slot keeps the invariant.
  kept-IsBacked :
      (caller : Bytes) (s t : StateDb)
      → ((j : Bytes) → is_ledger caller j ≡ true → slot j t ≡ slot j s)
      → IsBacked s
      → IsBacked t
  unfolding IsSameLedger
  kept-IsBacked caller s t keep b =
      IsBacked-IsSameLedger s t (λ u. keep (deposit_slot u) (is_ledger-deposit_slot caller u))
        (keep total_deposits (is_ledger-total_deposits caller)) b

  pub deposit-err :
      (input caller : Bytes) (block : ℕ) (s : StateDb) (e : PoolError) (j : Bytes)
      → (stability_deposit input caller block s).0 ≡ err e
      → slot j (stability_deposit input caller block s).1 ≡ slot j s
  unfolding stability_deposit stability_minted_debt
  deposit-err input caller block s e j h =
      ground (arith, slot-touch j pool_addr s, slot-touch j pool_addr (touch pool_addr s))

  pub withdraw-err :
      (input caller : Bytes) (block : ℕ) (s : StateDb) (e : PoolError) (j : Bytes)
      → (stability_withdraw input caller block s).0 ≡ err e
      → slot j (stability_withdraw input caller block s).1 ≡ slot j s
  unfolding stability_withdraw
  withdraw-err input caller block s e j h = ground (arith, slot-touch j pool_addr s)

  withdraw-covered :
      (input caller out : Bytes) (block : ℕ) (s : StateDb)
      → (stability_withdraw input caller block s).0 ≡ ok out
      → read_slot input 4 ≤ slot (deposit_slot caller) s
  unfolding stability_withdraw slot
  withdraw-covered input caller out block s h =
      ground (arith, slot-touch (deposit_slot caller) pool_addr s)

  get_deposit-kept :
      (input caller j : Bytes) (s : StateDb)
      → slot j (stability_get_deposit input caller s).1 ≡ slot j s
  unfolding stability_get_deposit
  get_deposit-kept input caller j s = ground (arith, slot-touch j pool_addr s)

  get_pool_stats-kept :
      (input caller j : Bytes) (s : StateDb)
      → slot j (stability_get_pool_stats input caller s).1 ≡ slot j s
  unfolding stability_get_pool_stats
  get_pool_stats-kept input caller j s = ground (arith, slot-touch j pool_addr s)

  -- By the outcome of a call that does not panic.
  pub by_outcome :
      {P : Type 0} (r : Outcome PoolError Bytes)
      → panics r ≡ false
      → ((e : PoolError) → r ≡ err e → P)
      → ((out : Bytes) → r ≡ ok out → P)
      → P
  unfolding panics
  by_outcome (ok out) h f g = g out refl
  by_outcome (err e) h f g = f e refl
  by_outcome panic h f g = ground arith

  module _ (input caller : Bytes) (block : ℕ) (s : StateDb) (b : IsBacked s) where
    deposit-IsBacked :
        panics (stability_deposit input caller block s).0 ≡ false
        → IsBacked (stability_deposit input caller block s).1
    deposit-IsBacked h =
        by_outcome _ h
          (λ e r. kept-IsBacked caller s _ (λ j l. deposit-err input caller block s e j r) b)
          (λ out r.
            subst IsBacked (sym (stability_deposit-ok input caller out block s r))
              (after_deposit-IsBacked caller (read_slot input 4) block s b))

    withdraw-IsBacked :
        panics (stability_withdraw input caller block s).0 ≡ false
        → IsBacked (stability_withdraw input caller block s).1
    withdraw-IsBacked h =
        by_outcome _ h
          (λ e r. kept-IsBacked caller s _ (λ j l. withdraw-err input caller block s e j r) b)
          (λ out r. subst IsBacked (sym (stability_withdraw-ok input caller out block s r)) (
            after_withdraw-IsBacked caller (read_slot input 4) block s
              (withdraw-covered input caller out block s r) b))

    claim-IsBacked : IsBacked (stability_claim_rewards input caller block s).1
    claim-IsBacked =
        kept-IsBacked caller s _ (stability_claim_rewards-is_ledger input caller block s) b

    absorb-IsBacked : IsBacked (stability_absorb input caller block s).1
    absorb-IsBacked =
        kept-IsBacked caller s _ (λ j. stability_absorb-is_ledger input caller j block s) b

    get_deposit-IsBacked : IsBacked (stability_get_deposit input caller s).1
    get_deposit-IsBacked = kept-IsBacked caller s _ (λ j l. get_deposit-kept input caller j s) b

    get_pool_stats-IsBacked : IsBacked (stability_get_pool_stats input caller s).1
    get_pool_stats-IsBacked =
        kept-IsBacked caller s _ (λ j l. get_pool_stats-kept input caller j s) b

    pool-IsBacked :
        panics (stability_pool_precompile input caller block s).0 ≡ false
        → IsBacked (stability_pool_precompile input caller block s).1
    unfolding stability_pool_precompile
    pool-IsBacked h = ground (
      arith, b, deposit-IsBacked, withdraw-IsBacked, claim-IsBacked, absorb-IsBacked,
      get_deposit-IsBacked, get_pool_stats-IsBacked,
    )

  -- The states that the calls reach one after the other; `none` where one panics, which ends the node.
  unfoldable pub run : List PoolCall → StateDb → Option StateDb
  run [] s = some s
  run (pool_call input caller block ∷ cs) s =
      let r = stability_pool_precompile input caller block s in
      let rest = run cs r.1 in if panics r.0 then none else rest

  pub run-IsBacked :
      (cs : List PoolCall) (s t : StateDb) → run cs s ≡ some t → IsBacked s → IsBacked t
  unfolding run
  run-IsBacked [] s t e b = ground (arith, b)
  run-IsBacked (pool_call input caller block ∷ cs) s t e b = ground (
    arith,
    pool-IsBacked input caller block s b,
    run-IsBacked cs (stability_pool_precompile input caller block s).1 t,
  )
