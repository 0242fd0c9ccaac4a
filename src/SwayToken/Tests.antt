-- ===== src/SwayToken/Tests.antt =====
-- A mint on a new chain.
use waychain_consensus.Prelude.{
  ◌+◌, ◌≤◌, ◌≡◌, refl, true, codes, is_ok, arith, lookup, lookup_or, insert, bytes_eq,
}
use waychain_consensus.Hashing.{plain_digest}
use waychain_consensus.State.{StateDb, new_state_db, account_at, put_account, touch}
use waychain_consensus.State.Storage.{sload, sstore}
use waychain_consensus.SwayToken.{
  sway_addr, sway_hard_ceiling, total_supply_slot, bucket_slot, dex_lp, sway_init,
  sway_mint_internal,
}
use waychain_consensus.SwayToken.Minting.{slot, may_mint, sway_mint_internal-exact}

abbrev issued : StateDb
issued = (sway_init new_state_db).1

sway_mint_internal-exact_example :
    (is_ok (sway_mint_internal (codes "zoe") 500 dex_lp issued).0 ≡ may_mint 500 dex_lp issued)
    × (may_mint 500 dex_lp issued ≡ true
        → (slot total_supply_slot (sway_mint_internal (codes "zoe") 500 dex_lp issued).1
            ≡ slot total_supply_slot issued + 500)
          × (slot total_supply_slot (sway_mint_internal (codes "zoe") 500 dex_lp issued).1
              ≤ sway_hard_ceiling)
          × (slot (bucket_slot dex_lp) (sway_mint_internal (codes "zoe") 500 dex_lp issued).1 + 500
              ≡ slot (bucket_slot dex_lp) issued))
unfolding slot sway_init sload sstore account_at put_account touch lookup lookup_or insert bytes_eq
    sway_addr
sway_mint_internal-exact_example =
    sway_mint_internal-exact (codes "zoe") 500 dex_lp issued (omega arith) (omega arith)

may_mint-issued : may_mint 500 dex_lp issued ≡ true
unfolding may_mint slot sway_init sload sstore account_at put_account touch lookup lookup_or insert
    bytes_eq sway_addr
may_mint-issued = refl
