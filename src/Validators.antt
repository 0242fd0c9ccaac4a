-- ===== src/Validators.antt =====
-- validators.go, with `ValidatorID` and `NewValidatorID` of types.go: the set of active validators,
-- their stakes, the missed-block counters and jailing.
-- A `ValidatorID` ([20]byte) is the number below 2^160 that its bytes spell, most significant
-- first: the comparison of `string(id[:])` is then the order of the numbers. `stakes` and `missed`
-- are the Go maps. The sqrt-weighted `SelectProposer`, which draws from `math/rand` with floats, and
-- the printing are not modelled, nor is the `seed` field that only the former uses.
pub mod Order
pub mod Registry
pub mod Stake
mod Tests
use waychain_consensus.Prelude.{
  ℕ, ◌+◌, ◌/◌, ◌%◌, ◌^◌, Bool, true, false, List, [], ◌∷◌, ◌++◌, ltb, leb, ◌==◌, if◌then◌else◌,
  Bytes, hex2, nat_eq, lookup_or, contains_key, insert, erase, length, Outcome, ok, err, panic,
}

abbrev pub ValidatorId : Type 0
ValidatorId = ℕ

-- `fmt.Sprintf("%02x", id[19])`: only the last byte
pub id_string : ValidatorId → Bytes
id_string id = hex2 (id % 256)

-- `NewValidatorID(b)`
abbrev pub new_validator_id : ℕ → ValidatorId
new_validator_id b = b % 256

abbrev pub max_validators : ℕ
max_validators = 200

abbrev pub min_stake : ℕ
min_stake = 100

abbrev pub jail_threshold : ℕ
jail_threshold = 50

pub record ValidatorSet : Type 0 where
  pub ids : List ValidatorId
  pub stakes : List (ValidatorId × ℕ)
  pub missed : List (ValidatorId × ℕ)
  pub jailed : List ValidatorId

pub data AddError : Type 0 where
  already_registered stake_too_low set_full : AddError

abbrev pub new_validator_set : ValidatorSet
new_validator_set = record { ids = []; stakes = []; missed = []; jailed = [] }

-- `sort.Slice` of the identifiers, as an insertion sort
pub insert_sorted : ValidatorId → List ValidatorId → List ValidatorId
insert_sorted x [] = x ∷ []
insert_sorted x (y ∷ ys) = if ltb y x then y ∷ insert_sorted x ys else x ∷ y ∷ ys

pub sort_ids : List ValidatorId → List ValidatorId
unfolding insert_sorted
sort_ids [] = []
sort_ids (x ∷ xs) = insert_sorted x (sort_ids xs)

abbrev register : ValidatorId → ℕ → ValidatorSet → ValidatorSet
register id stake vs = record vs {
  ids = sort_ids (vs.ids ++ id ∷ []);
  stakes = insert id stake vs.stakes;
  missed = insert id 0 vs.missed;
}

pub add : ValidatorId → ℕ → ValidatorSet → Outcome AddError (Unit {0}) × ValidatorSet
add id stake vs =
    if contains_key id vs.stakes
    then (err already_registered, vs)
    else if ltb stake min_stake
    then (err stake_too_low, vs)
    else if leb max_validators (length vs.ids)
    then (err set_full, vs)
    else (ok tt, register id stake vs)

-- The loop of `AddMultiple`: identifiers past the end of `stakes` are skipped, and the first error
-- ends it.
pub add_multiple :
    List ValidatorId → List ℕ → ValidatorSet → Outcome AddError (Unit {0}) × ValidatorSet
unfolding add
add_multiple [] stakes vs = (ok tt, vs)
add_multiple (id ∷ ids) [] vs = (ok tt, vs)
add_multiple (id ∷ ids) (stake ∷ stakes) vs =
    let rest = add_multiple ids stakes (add id stake vs).1 in
    elim (add id stake vs).0 [
      | ok _ ↦ rest
      | err e ↦ (err e, (add id stake vs).1)
      | panic ↦ (panic, (add id stake vs).1)
    ]

pub remove_first : ValidatorId → List ValidatorId → List ValidatorId
remove_first id [] = []
remove_first id (x ∷ xs) = if x == id then xs else x ∷ remove_first id xs

pub remove : ValidatorId → ValidatorSet → ValidatorSet
unfolding remove_first
remove id vs = record vs {
  ids = remove_first id vs.ids;
  stakes = erase id vs.stakes;
  missed = erase id vs.missed;
}

pub jail : ValidatorId → ValidatorSet → ValidatorSet
unfolding remove
jail id vs = record (remove id vs) { jailed = vs.jailed ++ id ∷ [] }

abbrev bump_missed : ValidatorId → ValidatorSet → ValidatorSet
bump_missed id vs = record vs { missed = insert id (lookup_or 0 id vs.missed + 1) vs.missed }

-- Returns whether the validator was jailed.
pub mark_missed : ValidatorId → ValidatorSet → Bool × ValidatorSet
unfolding jail
mark_missed id vs =
    if leb jail_threshold (lookup_or 0 id vs.missed + 1)
    then (true, jail id (bump_missed id vs))
    else (false, bump_missed id vs)

-- The sum is a uint64.
pub total_stake_from : ℕ → List (ValidatorId × ℕ) → List ValidatorId → ℕ
total_stake_from total stakes [] = total
total_stake_from total stakes (v ∷ vs) =
    total_stake_from ((total + lookup_or 0 v stakes) % 2 ^ 64) stakes vs

pub total_stake : ValidatorSet → ℕ
unfolding total_stake_from
total_stake vs = total_stake_from 0 vs.stakes vs.ids

abbrev pub count : ValidatorSet → ℕ
count vs = length vs.ids
