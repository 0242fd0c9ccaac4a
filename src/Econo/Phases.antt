-- ===== src/Econo/Phases.antt =====
-- What the policy does to the treasury, and which counters an accrual moves.
use waychain_consensus.Prelude.{
  ◌≡◌, true, false, arith, ◌==◌, if◌then◌else◌, is_panic, bytes_eq_refl,
}
use waychain_consensus.Prelude.Int.{ℤ, ◌-ℤ◌}
use waychain_consensus.Hashing.{Sha256}
use waychain_consensus.State.{StateDb, account_at, touch, add_log}
use waychain_consensus.State.Storage.{account_at-put_account, account_at-touch}
use waychain_consensus.Econo.{
  Econo, magnitude, treasury_addr, burn_share, burn_treasury_share, grant_stimulus,
  apply_econo_policy,
}

-- The balance of the treasury.
unfoldable pub treasury : StateDb → ℤ
treasury s = (account_at treasury_addr s).balance

burned_nothing : (b burn : ℤ) → (magnitude burn == 0) ≡ true → b ≡ b -ℤ burn
unfolding ◌-ℤ◌
burned_nothing b burn none = ground arith

module _ ⦃h : Sha256⦄ (E : Type 0) where
  burn_treasury_share-treasury :
      (s : StateDb)
      → (is_panic (burn_treasury_share {E = E} 50 s).0 ≡ false)
        × (treasury (burn_treasury_share {E = E} 50 s).1 ≡ treasury s -ℤ burn_share 50 (treasury s))
  unfolding burn_treasury_share treasury add_log account_at
  burn_treasury_share-treasury s = ground (
    arith,
    account_at-touch treasury_addr treasury_addr s,
    account_at-put_account treasury_addr treasury_addr
        (record (account_at treasury_addr (touch treasury_addr s)) {
          balance =
              (account_at treasury_addr (touch treasury_addr s)).balance
              -ℤ burn_share 50 (account_at treasury_addr (touch treasury_addr s)).balance;
        })
        (touch treasury_addr s),
    burned_nothing (account_at treasury_addr s).balance
        (burn_share 50 (account_at treasury_addr s).balance),
    bytes_eq_refl treasury_addr,
  )

  -- The policy of an epoch never panics. In the expansion phase it takes 50 of 10000 parts off the
  -- treasury's balance, rounded down, and in every other phase it leaves the balance.
  pub apply_econo_policy_exact :
      (e : Econo) (s : StateDb)
      → (is_panic (apply_econo_policy {E = E} e s).0 ≡ false)
        × (treasury (apply_econo_policy {E = E} e s).1
            ≡ (if e.snap.phase == 1 then treasury s -ℤ burn_share 50 (treasury s) else treasury s))
  unfolding apply_econo_policy grant_stimulus treasury add_log account_at
  apply_econo_policy_exact e s = ground (arith, burn_treasury_share-treasury s)
