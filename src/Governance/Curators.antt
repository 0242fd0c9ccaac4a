-- ===== src/Governance/Curators.antt =====
-- evm/governance.go, the last part: who applies as a curator, the election, and the curators' rewards.
-- The votes are a map from voters to numbers; the order of the list stands for that of Go's `range`.
use waychain_consensus.Prelude.{
  ℕ, ◌+◌, ◌*◌, ◌/◌, ◌%◌, ◌^◌, not, List, [], ◌∷◌, ◌++◌, none, some, ok, err, ltb, leb, ◌==◌,
  if◌then◌else◌, Bytes, bytes_key, codes, be_value, lookup_or, insert,
}
use waychain_consensus.Prelude.Int.{pos, ◌+ℤ◌}
use waychain_consensus.Prelude.Decimal.{decimal}
use waychain_consensus.Hashing.{Sha256}
use waychain_consensus.State.{account_at, put_account, get_account}
use waychain_consensus.State.Storage.{sload}
use waychain_consensus.Precompile.{
  Call, pure, ◌>>=◌, ◌>>◌, require, open_account, load, store, precompile_addr_hex, storage_key,
}
use waychain_consensus.Governance.{governance_addr, first_of}

pub data CuratorError : Type 0 where
  no_badge_contract : CuratorError
  caller_not_verified : CuratorError
  level_too_low : ℕ → CuratorError
  already_a_curator : CuratorError

unfoldable pub badge_addr : Bytes
unfolding precompile_addr_hex
badge_addr = precompile_addr_hex 19

abbrev pub badge_slot : Bytes → Bytes
badge_slot holder = 16 ∷ holder

abbrev pub curator_slot : Bytes → Bytes
curator_slot curator = 48 ∷ curator

abbrev pub curator_application_slot : Bytes → Bytes
curator_application_slot applicant = 32 ∷ applicant

abbrev pub curator_bonus_slot : Bytes → Bytes
curator_bonus_slot curator = 34 ∷ curator

-- `state.GetAccount(addr)` of the badges, which must be there.
unfoldable pub require_badges : Call CuratorError (Unit {0})
unfolding get_account
require_badges s =
    (elim (get_account badge_addr s) [ none ↦ err no_badge_contract | some acc ↦ ok tt ], s)

-- `voteScores[candidate]`, raised by the votes of one voter, and that of every candidate in turn.
unfoldable pub raise_score : ℕ → Bytes → List (Bytes × ℕ) → List (Bytes × ℕ)
raise_score count candidate scores =
    let score = lookup_or 0 candidate scores in
    insert candidate
      (if ltb 1000 ((score + count) % 2 ^ 64) then 1000 else (score + count) % 2 ^ 64) scores

unfoldable pub raise_scores : ℕ → List Bytes → List (Bytes × ℕ) → List (Bytes × ℕ)
unfolding raise_score
raise_scores count [] scores = scores
raise_scores count (c ∷ cs) scores = raise_scores count cs (raise_score count c scores)

unfoldable pub zero_scores : List Bytes → List (Bytes × ℕ)
zero_scores [] = []
zero_scores (c ∷ cs) = insert c 0 (zero_scores cs)

module _ ⦃h : Sha256⦄ where
  -- `ApplyForCurator`
  unfoldable pub apply_for_curator : Bytes → ℕ → Call CuratorError (Unit {0})
  unfolding require_badges
  apply_for_curator caller block = do
    require_badges
    data_slot ← load badge_addr (storage_key (badge_slot caller))
    require (not (data_slot == 0)) caller_not_verified
    require (leb 2 (first_of data_slot)) (level_too_low (first_of data_slot))
    curator ← load badge_addr (storage_key (curator_slot caller))
    require (curator % 2 ^ 64 == 0) already_a_curator
    open_account governance_addr
    store governance_addr (storage_key (curator_application_slot caller))
        (be_value (h.sum256 (caller ++ codes ":" ++ decimal block)) / 256 * 256)

  -- The loop over the votes: a voter below level 2 does not count.
  unfoldable pub tally :
      List Bytes → List (Bytes × ℕ) → List (Bytes × ℕ) → Call CuratorError (List (Bytes × ℕ))
  unfolding require_badges raise_scores
  tally candidates [] scores = pure scores
  tally candidates ((voter, count) ∷ votes) scores = do
    require_badges
    data_slot ← load badge_addr (storage_key (badge_slot voter))
    tally candidates votes
        (if ltb (first_of data_slot) 2 then scores else raise_scores count candidates scores)

  -- The marks of an elected curator, in both accounts.
  unfoldable pub mark_curator : Bytes → Call CuratorError (Unit {0})
  mark_curator candidate = do
    store governance_addr (storage_key (curator_slot candidate)) 1
    open_account badge_addr
    store badge_addr (storage_key (curator_slot candidate)) 1

  unfoldable pub elect_in_order : List (Bytes × ℕ) → List Bytes → Call CuratorError (List Bytes)
  unfolding mark_curator
  elect_in_order scores [] = pure []
  elect_in_order scores (c ∷ cs) =
      let rest = elect_in_order scores cs in
      if ltb 0 (lookup_or 0 c scores)
      then (do mark_curator c; elected ← rest; pure (c ∷ elected))
      else rest

  -- `ElectCuratorCouncil`
  unfoldable pub elect_curator_council :
      List Bytes → List (Bytes × ℕ) → Call CuratorError (List Bytes)
  unfolding zero_scores tally elect_in_order
  elect_curator_council candidates votes = do
    open_account governance_addr
    scores ← tally candidates votes (zero_scores candidates)
    elect_in_order scores candidates

  -- `DistributeCuratorRewards`
  unfoldable pub reward_curators : List Bytes → ℕ → Call CuratorError (Unit {0})
  reward_curators [] base s = (ok tt, s)
  reward_curators (c ∷ cs) base s =
      let bonus = sload governance_addr (storage_key (curator_bonus_slot c)) s % 2 ^ 64 in
      let acc = account_at c s in
      reward_curators cs base
        (put_account c (record acc { balance = acc.balance +ℤ pos ((base + bonus) % 2 ^ 64) }) s)

  unfoldable pub distribute_curator_rewards : List Bytes → ℕ → Call CuratorError (Unit {0})
  unfolding reward_curators
  distribute_curator_rewards curators base = do
    open_account governance_addr
    reward_curators curators base
