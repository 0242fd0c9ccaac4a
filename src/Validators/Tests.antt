-- ===== src/Validators/Tests.antt =====
-- Runs of the validator set, and the theorems at concrete inputs.
use waychain_consensus.Prelude.{
  ◌+◌, ◌*◌, ◌≡◌, refl, true, false, [], ◌∷◌, some, none, arith, insert, lookup, lookup_or,
  contains_key, nat_eq, err, length, ltb, leb, ◌&&◌, not, if◌then◌else◌, ◌==◌, is_ok, hex2,
}
use waychain_consensus.Validators.{
  ValidatorSet, new_validator_set, add, mark_missed, total_stake, id_string, min_stake,
  max_validators, already_registered, stake_too_low, sort_ids,
}
use waychain_consensus.Validators.Order.{mem}
use waychain_consensus.Validators.Registry.{
  IsWellFormed, adds, adds_multiple, misses, run, run-new-IsWellFormed, add_exact,
  mark_missed_exact,
}

abbrev three : ValidatorSet
three = run (adds_multiple (7 ∷ 3 ∷ 5 ∷ []) (500 ∷ 100 ∷ 250 ∷ []) ∷ []) new_validator_set

three_ids : three.ids ≡ 3 ∷ 5 ∷ 7 ∷ []
unfolding run contains_key insert sort_ids
three_ids = refl

three-total_stake : total_stake three ≡ 850
unfolding total_stake run contains_key insert lookup_or sort_ids
three-total_stake = refl

add_again : (add 5 900 three).0 ≡ err already_registered
unfolding add run contains_key insert sort_ids
add_again = refl

add_poor : (add 9 99 three).0 ≡ err stake_too_low
unfolding add run contains_key insert sort_ids
add_poor = refl

-- The printed name of an identifier shows its last byte only.
id_string_collision : id_string 7 ≡ id_string (7 + 256 * 9)
unfolding id_string hex2
id_string_collision = refl

run-new-IsWellFormed_example :
    IsWellFormed (run (adds 7 500 ∷ adds 7 600 ∷ misses 7 ∷ misses 9 ∷ []) new_validator_set)
run-new-IsWellFormed_example =
    run-new-IsWellFormed (adds 7 500 ∷ adds 7 600 ∷ misses 7 ∷ misses 9 ∷ [])

add_exact_example :
    let (r, vs') = add 4 120 three in
    let fits =
      not (mem 4 three.ids) && leb min_stake 120 && ltb (length three.ids) max_validators in
    (is_ok r ≡ fits)
    × (mem 4 vs'.ids ≡ (if fits && 4 == 4 then true else mem 4 three.ids))
    × (lookup 4 vs'.stakes ≡ (if fits && 4 == 4 then some 120 else lookup 4 three.stakes))
    × (lookup_or 0 4 vs'.missed ≡ (if fits && 4 == 4 then 0 else lookup_or 0 4 three.missed))
    × (vs'.jailed ≡ three.jailed)
add_exact_example =
    add_exact 4 120 4 three
      (run-new-IsWellFormed (adds_multiple (7 ∷ 3 ∷ 5 ∷ []) (500 ∷ 100 ∷ 250 ∷ []) ∷ []))

-- A validator that has missed 49 blocks.
abbrev tardy : ValidatorSet
tardy = record { ids = 3 ∷ []; stakes = (3, 100) ∷ []; missed = (3, 49) ∷ []; jailed = [] }

tardy-IsWellFormed : IsWellFormed tardy
unfolding mem contains_key lookup lookup_or
tardy-IsWellFormed = record {
  ascending = (tt, tt);
  registered = λ i. ground arith;
  bounded = omega arith;
  funded = λ i v h. ground arith;
  patient = λ i. ground arith;
}

mark_missed_exact_example :
    let (jailed, vs') = mark_missed 3 tardy in
    (jailed ≡ true)
    × (vs'.jailed ≡ 3 ∷ [])
    × (mem 3 vs'.ids ≡ false)
    × (lookup 3 vs'.stakes ≡ none)
    × (lookup_or 0 3 vs'.missed ≡ 0)
unfolding mem lookup lookup_or mark_missed
mark_missed_exact_example = mark_missed_exact 3 3 tardy tardy-IsWellFormed
