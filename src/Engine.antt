-- ===== src/Engine.antt =====
-- consensus.go: the consensus engine, which holds the active validator set of the epoch, picks the
-- proposer of a height and records finalized blocks.
-- `ActiveSet` holds pointers into a slice that nothing changes afterwards, so it is a list of
-- identifiers. The weights of the epoch's lottery are `float64`s: `Floats` is the arithmetic that
-- `sqrtWeighted` uses, a parameter. `sort.Slice` is an insertion sort by the same comparison.
-- `ConsensusRound`, which the package declares and never uses, is not modelled, nor are locks.
pub mod Epoch
pub mod Finality
mod Tests
use waychain_consensus.Prelude.{
  ℕ, zero, suc, ◌+◌, ◌%◌, ◌^◌, ◌≡◌, Bool, true, false, ◌||◌, List, [], ◌∷◌, ◌++◌, Option, none,
  some, ltb, ◌==◌, if◌then◌else◌, Bytes, bytes_key, nat_eq, codes, be_value, length, get_elem?,
  take, insert, lookup_or,
}
use waychain_consensus.Prelude.Decimal.{decimal}
use waychain_consensus.Hashing.{Sha256}
use waychain_consensus.Validators.{ValidatorId, ValidatorSet, max_validators, id_string}
use waychain_consensus.Types.{Block}

-- The float operations of `sqrtWeighted` and of the comparison of weights.
pub record Floats : Type 1 where
  pub F : Type 0
  pub zero_f : F
  pub from_uint64 : ℕ → F
  pub add : F → F → F
  pub div : F → F → F
  pub halve : F → F
  pub le_f : F → F → Bool
  pub gt_f : F → F → Bool

abbrev pub phase_propose : ℕ
phase_propose = 0

abbrev pub phase_prevote : ℕ
phase_prevote = 1

abbrev pub phase_precommit : ℕ
phase_precommit = 2

abbrev pub phase_commit : ℕ
phase_commit = 3

abbrev pub phase_timeout : ℕ
phase_timeout = 4

pub record Engine : Type 0 where
  pub current_height : ℕ
  pub current_round : ℕ
  pub validators : ValidatorSet
  pub active_set : List ValidatorId
  pub voting_power : List (Bytes × ℕ)
  pub total_power : ℕ
  pub blocks : List (ℕ × Block)
  pub random_seed : Bytes

module _ (fl : Floats) where
  open fl use {F, zero_f, from_uint64, add, div, halve, le_f, gt_f}

  -- The ten rounds of Newton's iteration.
  pub newton : ℕ → F → F → F
  newton zero x z = z
  newton (suc n) x z = newton n x (halve (add z (div x z)))

  pub sqrt_weighted : F → F
  unfolding newton
  sqrt_weighted x = if le_f x zero_f then zero_f else newton 10 x x

  abbrev pub Weighted : Type 0
  Weighted = ValidatorId × F

  pub insert_weighted : Weighted → List Weighted → List Weighted
  insert_weighted w [] = w ∷ []
  insert_weighted w (v ∷ vs) = if gt_f v.1 w.1 then v ∷ insert_weighted w vs else w ∷ v ∷ vs

  pub sort_weighted : List Weighted → List Weighted
  unfolding insert_weighted
  sort_weighted [] = []
  sort_weighted (v ∷ vs) = insert_weighted v (sort_weighted vs)

  pub weigh : List (ValidatorId × ℕ) → List ValidatorId → List Weighted
  unfolding sqrt_weighted
  weigh stakes [] = []
  weigh stakes (v ∷ vs) = (v, sqrt_weighted (from_uint64 (lookup_or 0 v stakes))) ∷ weigh stakes vs

  -- The loop over the first `n` weighted validators: each is active, with voting power 1.
  pub elect : List Weighted → Engine → Engine
  elect [] ce = ce
  elect (w ∷ ws) ce = elect ws (record ce {
    active_set = ce.active_set ++ w.0 ∷ [];
    voting_power = insert (id_string w.0) 1 ce.voting_power;
    total_power = ce.total_power + 1;
  })

  pub epoch_of : ⦃h : Sha256⦄ → List ValidatorId → Engine → Engine
  unfolding sort_weighted weigh elect
  epoch_of ⦃h⦄ [] ce = record ce { active_set = []; total_power = 0 }
  epoch_of ⦃h⦄ (v ∷ vs) ce =
      let winners = take max_validators (sort_weighted (weigh ce.validators.stakes (v ∷ vs))) in
      record (elect winners (record ce { active_set = []; voting_power = []; total_power = 0 })) {
        random_seed = h.sum256 (codes "epoch:" ++ decimal ce.current_height);
      }

  pub select_new_epoch : ⦃h : Sha256⦄ → Engine → Engine
  unfolding epoch_of
  select_new_epoch ⦃h⦄ ce = epoch_of ce.validators.ids ce

  pub new_consensus_engine : ⦃h : Sha256⦄ → ValidatorSet → Engine
  unfolding select_new_epoch
  new_consensus_engine ⦃h⦄ vs = select_new_epoch (record {
    current_height = 0;
    current_round = 0;
    validators = vs;
    active_set = [];
    voting_power = [];
    total_power = 0;
    blocks = [];
    random_seed = [];
  })

-- `SelectProposer`: `none` is nil, for an empty active set.
pub select_proposer : ⦃h : Sha256⦄ → ℕ → Engine → Option ValidatorId
select_proposer ⦃h⦄ height ce =
    if length ce.active_set == 0
    then none
    else get_elem? ce.active_set (be_value digest % 2 ^ 64 % length ce.active_set)
  where
    digest : Bytes
    digest = h.sum256 (ce.random_seed ++ codes ":" ++ decimal height)

-- `GetQuorumHeight`: the greatest key of `Blocks`.
pub quorum_height_from : ℕ → List (ℕ × Block) → ℕ
quorum_height_from best [] = best
quorum_height_from best ((h, b) ∷ bs) = quorum_height_from (if ltb best h then h else best) bs

pub get_quorum_height : Engine → ℕ
unfolding quorum_height_from
get_quorum_height ce = quorum_height_from 0 ce.blocks

pub is_validator_active_in : ValidatorId → List ValidatorId → Bool
is_validator_active_in id [] = false
is_validator_active_in id (v ∷ vs) = (v == id) || is_validator_active_in id vs

pub is_validator_active : ValidatorId → Engine → Bool
unfolding is_validator_active_in
is_validator_active id ce = is_validator_active_in id ce.active_set

unfoldable pub finalize_block : Block → Engine → Engine
finalize_block b ce = record ce {
  blocks = insert b.height b ce.blocks;
  current_height = if ltb ce.current_height b.height then b.height else ce.current_height;
}
