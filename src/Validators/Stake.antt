-- ===== src/Validators/Stake.antt =====
-- The total stake under registration and removal.
use waychain_consensus.Prelude.{
  ℕ, ◌+◌, ◌%◌, ◌^◌, ◌<◌, ◌≡◌, refl, false, ◌∙◌, not, ◌&&◌, List, [], ◌∷◌, ◌++◌, arith, ltb, leb,
  if◌then◌else◌, nat_eq, length, lookup_or, insert, lookup_or-insert,
}
use waychain_consensus.Validators.{
  ValidatorId, ValidatorSet, min_stake, max_validators, insert_sorted, sort_ids, add,
  total_stake_from, total_stake,
}
use waychain_consensus.Validators.Order.{mem}
use waychain_consensus.Validators.Registry.{IsWellFormed}

-- The sum without the wrap-around.
pub stake_sum : List (ValidatorId × ℕ) → List ValidatorId → ℕ
stake_sum stakes [] = 0
stake_sum stakes (v ∷ vs) = lookup_or 0 v stakes + stake_sum stakes vs

total_stake_from_lem :
    (total : ℕ) (stakes : List (ValidatorId × ℕ)) (ids : List ValidatorId)
    → total < 2 ^ 64
    → total_stake_from total stakes ids ≡ (total + stake_sum stakes ids) % 2 ^ 64
unfolding total_stake_from stake_sum
total_stake_from_lem total stakes [] h = omega arith
total_stake_from_lem total stakes (v ∷ vs) h =
    total_stake_from_lem ((total + lookup_or 0 v stakes) % 2 ^ 64) stakes vs (omega arith)
    ∙ omega arith

-- `TotalStake` is the sum of the stakes modulo 2^64.
pub total_stake_lem : (vs : ValidatorSet) → total_stake vs ≡ stake_sum vs.stakes vs.ids % 2 ^ 64
unfolding total_stake
total_stake_lem vs = omega (arith, total_stake_from_lem 0 vs.stakes vs.ids)

module _ (stakes : List (ValidatorId × ℕ)) where
  stake_sum-insert_sorted :
      (x : ValidatorId) (ys : List ValidatorId)
      → stake_sum stakes (insert_sorted x ys) ≡ lookup_or 0 x stakes + stake_sum stakes ys
  unfolding stake_sum insert_sorted
  stake_sum-insert_sorted x [] = refl
  stake_sum-insert_sorted x (y ∷ ys) = ground (arith, stake_sum-insert_sorted x ys)

  stake_sum-sort_ids :
      (xs : List ValidatorId) → stake_sum stakes (sort_ids xs) ≡ stake_sum stakes xs
  unfolding stake_sum sort_ids
  stake_sum-sort_ids [] = refl
  stake_sum-sort_ids (x ∷ xs) =
      omega (arith, stake_sum-insert_sorted x (sort_ids xs), stake_sum-sort_ids xs)

  stake_sum-append :
      (xs : List ValidatorId) (x : ValidatorId)
      → stake_sum stakes (xs ++ x ∷ []) ≡ stake_sum stakes xs + lookup_or 0 x stakes
  unfolding stake_sum
  stake_sum-append [] x = omega arith
  stake_sum-append (y ∷ ys) x = omega (arith, stake_sum-append ys x)

stake_sum-insert :
    (id stake : ℕ) (stakes : List (ValidatorId × ℕ)) (ids : List ValidatorId)
    → mem id ids ≡ false
    → stake_sum (insert id stake stakes) ids ≡ stake_sum stakes ids
unfolding stake_sum mem
stake_sum-insert id stake stakes [] h = refl
stake_sum-insert id stake stakes (y ∷ ys) h =
    ground (arith, stake_sum-insert id stake stakes ys, lookup_or-insert 0 id y stake stakes)

-- An accepted registration raises the sum of the active stakes by the stake.
pub add_stake :
    (id stake : ℕ) (vs : ValidatorSet)
    → mem id vs.ids ≡ false
    → stake_sum (insert id stake vs.stakes) (sort_ids (vs.ids ++ id ∷ []))
      ≡ stake_sum vs.stakes vs.ids + stake
add_stake id stake vs h = ground (
  arith,
  stake_sum-sort_ids (insert id stake vs.stakes) (vs.ids ++ id ∷ []),
  stake_sum-append (insert id stake vs.stakes) vs.ids id,
  stake_sum-insert id stake vs.stakes vs.ids h,
  lookup_or-insert 0 id id stake vs.stakes,
)

-- On a well-formed set `TotalStake` after `Add` is, modulo 2^64, the total before plus the stake
-- when the call is accepted, and the total before when it is refused.
pub total_stake-add :
    (id stake : ℕ) (vs : ValidatorSet)
    → IsWellFormed vs
    → let fits = not (mem id vs.ids) && leb min_stake stake && ltb (length vs.ids) max_validators in
      total_stake (add id stake vs).1
      ≡ (if fits then (total_stake vs + stake) % 2 ^ 64 else total_stake vs)
unfolding add
total_stake-add id stake vs h = ground (
  arith,
  h.registered id,
  add_stake id stake vs,
  total_stake_lem vs,
  total_stake_lem (add id stake vs).1,
)
