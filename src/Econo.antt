-- ===== src/Econo.antt =====
-- evm/econo_loop.go: the indicators of the economy and the policy that follows them, with the supply
-- tracker of evm/task_registry.go (`QuestTotalSupply`, `QuestAddSupply`).
-- `econoSnap` and `econoPolicy` are variables of the package, here a record that is passed along. All
-- counters are `uint64`s. The reports for the RPC are left out.
pub mod Phases
mod Tests
use waychain_consensus.Prelude.{
  ℕ, ◌+◌, ◌*◌, ◌-◌, ◌/◌, ◌%◌, ◌^◌, Bool, true, false, ◌&&◌, ◌||◌, List, [], ◌∷◌, ltb, leb, ◌==◌,
  if◌then◌else◌, Bytes, codes, ok, err, panic,
}
use waychain_consensus.Prelude.Int.{ℤ, pos, negsuc, pos_part, neg_part, ◌-ℤ◌}
use waychain_consensus.Hashing.{Sha256}
use waychain_consensus.State.{StateDb, account_at, put_account, touch, add_log}
use waychain_consensus.State.Storage.{sload, sstore}
use waychain_consensus.Precompile.{
  Call, pure, ◌>>=◌, ◌>>◌, open_account, load, store, store_big, emit, big_bytes,
  precompile_addr_hex, storage_key,
}

pub record EconoSnapshot : Type 0 where
  pub gbp : ℕ
  pub tasks : ℕ
  pub pro_paid : ℕ
  pub pro_tasks : ℕ
  pub micro_paid : ℕ
  pub micro_tasks : ℕ
  pub mrt_paid : ℕ
  pub mrt_claims : ℕ
  pub rent_paid : ℕ
  pub storage_staked : ℕ
  pub window_start : ℕ
  pub phase : ℕ

pub record EconoPolicy : Type 0 where
  pub policy_phase : ℕ
  pub burn_bps : ℕ
  pub grant_bps : ℕ

pub record Econo : Type 0 where
  pub snap : EconoSnapshot
  pub policy : EconoPolicy

abbrev pub econo_window_blocks : ℕ
econo_window_blocks = 10000

abbrev pub econo_gbp_expansion_threshold : ℕ
econo_gbp_expansion_threshold = 100000

abbrev pub econo_velocity_expansion_threshold : ℕ
econo_velocity_expansion_threshold = 100

abbrev pub econo_mrt_pay_weight : ℕ
econo_mrt_pay_weight = 1000

abbrev pub econo_mrt_expansion_claims : ℕ
econo_mrt_expansion_claims = 10

abbrev pub econo_max_burn_bps : ℕ
econo_max_burn_bps = 500

abbrev pub econo_max_grant_bps : ℕ
econo_max_grant_bps = 500

abbrev pub econo_expansion_burn_bps : ℕ
econo_expansion_burn_bps = 50

abbrev pub econo_consolidation_grant_bps : ℕ
econo_consolidation_grant_bps = 200

abbrev pub fresh_window : ℕ → EconoSnapshot
fresh_window block = record {
  gbp = 0;
  tasks = 0;
  pro_paid = 0;
  pro_tasks = 0;
  micro_paid = 0;
  micro_tasks = 0;
  mrt_paid = 0;
  mrt_claims = 0;
  rent_paid = 0;
  storage_staked = 0;
  window_start = block;
  phase = 0;
}

abbrev pub new_econo : Econo
new_econo = record {
  snap = fresh_window 0;
  policy = record { policy_phase = 0; burn_bps = 0; grant_bps = 0 };
}

-- The reset at the start of each accrual. The difference of the blocks is modulo 2^64.
unfoldable pub roll_window : ℕ → EconoSnapshot → EconoSnapshot
roll_window block s =
    if leb econo_window_blocks ((block + 2 ^ 64 - s.window_start) % 2 ^ 64)
    then fresh_window block
    else s

-- `EconoAccruePayout`
unfoldable pub econo_accrue_payout : ℕ → Bool → ℕ → EconoSnapshot → EconoSnapshot
unfolding roll_window
econo_accrue_payout amount is_pro block before =
    let s = roll_window block before in
    let s1 = record s { gbp = (s.gbp + amount) % 2 ^ 64; tasks = (s.tasks + 1) % 2 ^ 64 } in
    if is_pro
    then record s1 {
      pro_paid = (s.pro_paid + amount) % 2 ^ 64;
      pro_tasks = (s.pro_tasks + 1) % 2 ^ 64;
    }
    else record s1 {
      micro_paid = (s.micro_paid + amount) % 2 ^ 64;
      micro_tasks = (s.micro_tasks + 1) % 2 ^ 64;
    }

-- `EconoAccrueMRT`
unfoldable pub econo_accrue_mrt : ℕ → ℕ → EconoSnapshot → EconoSnapshot
unfolding roll_window
econo_accrue_mrt token_supply block before =
    let s = roll_window block before in
    let weighted = token_supply * econo_mrt_pay_weight % 2 ^ 64 in
    record s {
      mrt_paid = (s.mrt_paid + weighted) % 2 ^ 64;
      mrt_claims = (s.mrt_claims + 1) % 2 ^ 64;
      pro_paid = (s.pro_paid + weighted) % 2 ^ 64;
      pro_tasks = (s.pro_tasks + 1) % 2 ^ 64;
      tasks = (s.tasks + 1) % 2 ^ 64;
    }

-- `EconoAccrueRent`
unfoldable pub econo_accrue_rent : ℕ → ℕ → EconoSnapshot → EconoSnapshot
unfolding roll_window
econo_accrue_rent amount block before =
    let s = roll_window block before in
    record s { rent_paid = (s.rent_paid + amount) % 2 ^ 64; tasks = (s.tasks + 1) % 2 ^ 64 }

-- `EconoAccrueStorage`
unfoldable pub econo_accrue_storage : ℕ → ℕ → EconoSnapshot → EconoSnapshot
unfolding roll_window
econo_accrue_storage amount block before =
    let s = roll_window block before in
    record s {
      storage_staked = (s.storage_staked + amount) % 2 ^ 64;
      tasks = (s.tasks + 1) % 2 ^ 64;
    }

-- `EconoGBPEquiv`
abbrev pub econo_gbp_equiv : EconoSnapshot → ℕ
econo_gbp_equiv s = (s.gbp + s.rent_paid + s.mrt_paid + s.storage_staked) % 2 ^ 64

-- `EconoYieldSpreadBps`
unfoldable pub econo_yield_spread_bps : EconoSnapshot → ℕ
econo_yield_spread_bps s =
    let micro_avg = if ltb 0 s.micro_tasks then s.micro_paid / s.micro_tasks else 0 in
    let pro_avg = if ltb 0 s.pro_tasks then s.pro_paid / s.pro_tasks else 0 in
    if micro_avg == 0 then 0 else pro_avg * 10000 % 2 ^ 64 / micro_avg

abbrev pub registry_addr : Bytes
registry_addr = precompile_addr_hex 35

abbrev pub treasury_addr : Bytes
treasury_addr = precompile_addr_hex 3

abbrev pub supply_slot : Bytes
supply_slot = 65 ∷ []

-- A part of an amount in basis points, no more than a maximum.
abbrev pub clamp_bps : ℕ → ℕ → ℕ
clamp_bps limit bps = if ltb limit bps then limit else bps

-- `ComputeEconoPhase`, from the velocity on
unfoldable pub phase_of : EconoSnapshot → ℕ → ℕ
phase_of s velocity =
    let high_output = leb econo_gbp_expansion_threshold (econo_gbp_equiv s) in
    let high_velocity = leb econo_velocity_expansion_threshold velocity in
    let mrt_surge = leb econo_mrt_expansion_claims s.mrt_claims in
    if (high_output && high_velocity) || mrt_surge then 1 else 0

-- A share of a balance in basis points. `Div` rounds a negative quotient down.
unfoldable pub burn_share : ℕ → ℤ → ℤ
burn_share bps (pos n) = pos (n * bps / 10000)
burn_share bps (negsuc n) = pos 0 -ℤ pos (((n + 1) * bps + 9999) / 10000)

abbrev pub magnitude : ℤ → ℕ
magnitude n = pos_part n + neg_part n

module _ ⦃h : Sha256⦄ {E : Type 0} where
  -- `QuestTotalSupply`
  unfoldable pub quest_total_supply : Call E ℕ
  quest_total_supply = do open_account registry_addr; load registry_addr (storage_key supply_slot)

  -- `QuestAddSupply`
  unfoldable pub quest_add_supply : ℕ → Call E (Unit {0})
  unfolding quest_total_supply
  quest_add_supply amount = if amount == 0 then pure tt else do
    cur ← quest_total_supply
    store_big registry_addr (storage_key supply_slot) (cur + amount)

  -- `EconoVelocityBps`: a supply that is a multiple of 2^64 is a division by zero.
  unfoldable pub velocity_of : EconoSnapshot → ℕ → Call E ℕ
  velocity_of s supply state =
      if supply == 0
      then (ok 0, state)
      else if supply % 2 ^ 64 == 0
      then (panic, state)
      else (ok (s.tasks * 10000 % 2 ^ 64 / (supply % 2 ^ 64)), state)

  unfoldable pub econo_velocity_bps : EconoSnapshot → Call E ℕ
  unfolding quest_total_supply velocity_of
  econo_velocity_bps s = do supply ← quest_total_supply; velocity_of s supply

  -- `AccrueEcono`
  unfoldable pub accrue_econo : Econo → Call E Econo
  unfolding econo_velocity_bps phase_of
  accrue_econo e = do
    velocity ← econo_velocity_bps e.snap
    pure (record e { snap = record e.snap { phase = phase_of e.snap velocity } })

  -- `burnTreasuryShare`
  unfoldable pub burn_treasury_share : ℕ → Call E (Unit {0})
  unfolding burn_share
  burn_treasury_share bps s =
      let opened = touch treasury_addr s in
      let treasury = account_at treasury_addr opened in
      let burn = burn_share (clamp_bps econo_max_burn_bps bps) treasury.balance in
      if bps == 0
      then (ok tt, s)
      else if magnitude burn == 0
      then (ok tt, opened)
      else emit registry_addr (storage_key (codes "EconoBurn") ∷ []) (big_bytes (magnitude burn)) 0
          (put_account treasury_addr (record treasury { balance = treasury.balance -ℤ burn })
            opened)

  -- `grantStimulus`
  unfoldable pub grant_stimulus : ℕ → Call E (Unit {0})
  grant_stimulus bps =
      emit registry_addr (storage_key (codes "EconoStimulus") ∷ [])
        (big_bytes (clamp_bps econo_max_grant_bps bps)) 0

  -- `ApplyEconoPolicy`
  unfoldable pub apply_econo_policy : Econo → Call E Econo
  unfolding burn_treasury_share grant_stimulus
  apply_econo_policy e s =
      if e.snap.phase == 1
      then (do
        burn_treasury_share econo_expansion_burn_bps
        pure (record e {
          policy = record { policy_phase = 1; burn_bps = econo_expansion_burn_bps; grant_bps = 0 };
        }))
          s
      else (do
        grant_stimulus econo_consolidation_grant_bps
        pure (record e {
          policy = record {
            policy_phase = 0;
            burn_bps = 0;
            grant_bps = econo_consolidation_grant_bps;
          };
        }))
          s
