-- ===== src/Validators/Registry.antt =====
-- The registry's invariant, kept by every operation, and what the operations do to it.
use waychain_consensus.Prelude.{
  ℕ, ◌+◌, ◌≤◌, ◌<◌, ◌≡◌, refl, Bool, true, false, List, [], ◌∷◌, ◌++◌, none, some, not, ◌&&◌, is_ok,
  inl, inr, Bool-cases, arith, ltb, leb, ◌==◌, if◌then◌else◌, nat_eq, length, length-append, lookup,
  lookup_or, contains_key, insert, lookup-insert, lookup-erase, contains_key-insert,
  contains_key-erase, lookup_or-erase, lookup_or-insert,
}
use waychain_consensus.Validators.{
  ValidatorId, ValidatorSet, min_stake, max_validators, jail_threshold, new_validator_set, sort_ids,
  add, add_multiple, remove, jail, mark_missed,
}
use waychain_consensus.Validators.Order.{
  mem, IsAscending, mem-append, mem-sort_ids, sort_ids-append-IsAscending, length-sort_ids,
  remove_first-IsAscending, mem-remove_first, length-remove_first,
}

-- The identifiers are sorted and each once, they are exactly those with a stake, there are at most
-- 200, no stake is below the minimum, and no counter has reached the threshold.
pub record IsWellFormed (vs : ValidatorSet) : Type 0 where
  pub ascending : IsAscending vs.ids
  pub registered : (i : ValidatorId) → contains_key i vs.stakes ≡ mem i vs.ids
  pub bounded : length vs.ids ≤ max_validators
  pub funded : (i : ValidatorId) (v : ℕ) → lookup i vs.stakes ≡ some v → min_stake ≤ v
  pub patient : (i : ValidatorId) → lookup_or 0 i vs.missed < jail_threshold

new_validator_set-IsWellFormed : IsWellFormed new_validator_set
unfolding mem contains_key lookup lookup_or
new_validator_set-IsWellFormed = record {
  ascending = tt;
  registered = λ i. refl;
  bounded = omega arith;
  funded = λ i v h. cc;
  patient = λ i. omega arith;
}

module _ (id stake : ℕ) (vs : ValidatorSet) (h : IsWellFormed vs) where
  -- The three guards of `Add` have passed.
  register-IsWellFormed :
      contains_key id vs.stakes ≡ false
      → min_stake ≤ stake
      → length vs.ids < max_validators
      → IsWellFormed (record vs {
        ids = sort_ids (vs.ids ++ id ∷ []);
        stakes = insert id stake vs.stakes;
        missed = insert id 0 vs.missed;
      })
  register-IsWellFormed new enough room = record {
    ascending = sort_ids-append-IsAscending id vs.ids (ground (arith, h.registered id)) h.ascending;
    registered = λ i. ground (
      arith,
      h.registered i,
      contains_key-insert id i stake vs.stakes,
      mem-sort_ids i (vs.ids ++ id ∷ []),
      mem-append i id vs.ids,
    );
    bounded = omega (arith, length-sort_ids (vs.ids ++ id ∷ []), length-append vs.ids (id ∷ []));
    funded = λ i v e. ground (arith, h.funded i v, lookup-insert id i stake vs.stakes);
    patient = λ i. ground (arith, h.patient i, lookup_or-insert 0 id i 0 vs.missed);
  }

  -- Registering a validator keeps the invariant, whether it is refused or not.
  pub add-IsWellFormed : IsWellFormed (add id stake vs).1
  unfolding add
  add-IsWellFormed = ground (arith, register-IsWellFormed)

  remove-IsWellFormed : IsWellFormed (remove id vs)
  unfolding remove
  remove-IsWellFormed = record {
    ascending = remove_first-IsAscending id vs.ids h.ascending;
    registered = λ i. ground (
      arith,
      h.registered i,
      contains_key-erase id i vs.stakes,
      mem-remove_first i id vs.ids h.ascending,
    );
    bounded = omega (arith, length-remove_first id vs.ids, h.bounded);
    funded = λ i v e. ground (arith, h.funded i v, lookup-erase id i vs.stakes);
    patient = λ i. ground (arith, h.patient i, lookup_or-erase 0 id i vs.missed);
  }

  jail-IsWellFormed : IsWellFormed (jail id vs)
  unfolding jail
  jail-IsWellFormed = record {
    ascending = remove-IsWellFormed.ascending;
    registered = remove-IsWellFormed.registered;
    bounded = remove-IsWellFormed.bounded;
    funded = remove-IsWellFormed.funded;
    patient = remove-IsWellFormed.patient;
  }

  -- A missed block keeps the invariant: the counter stays below the threshold, or the validator goes.
  pub mark_missed-IsWellFormed : IsWellFormed (mark_missed id vs).1
  unfolding mark_missed jail remove
  mark_missed-IsWellFormed = elim (Bool-cases over) [
    | inl yes' ↦ rw yes' (record {
      ascending = remove-IsWellFormed.ascending;
      registered = remove-IsWellFormed.registered;
      bounded = remove-IsWellFormed.bounded;
      funded = remove-IsWellFormed.funded;
      patient = λ i. ground (
        arith,
        h.patient i,
        lookup_or-erase 0 id i (insert id next vs.missed),
        lookup_or-insert 0 id i next vs.missed,
      );
    })
    | inr no' ↦ rw no' (record {
      ascending = h.ascending;
      registered = h.registered;
      bounded = h.bounded;
      funded = h.funded;
      patient = λ i. ground (arith, h.patient i, lookup_or-insert 0 id i next vs.missed);
    })
  ]
    where
      next : ℕ
      next = lookup_or 0 id vs.missed + 1

      over : Bool
      over = leb jail_threshold next

-- A batch keeps the invariant, also when an error cuts it short.
pub add_multiple-IsWellFormed :
    (ids stakes : List ℕ) (vs : ValidatorSet)
    → IsWellFormed vs
    → IsWellFormed (add_multiple ids stakes vs).1
unfolding add_multiple
add_multiple-IsWellFormed [] stakes vs h = h
add_multiple-IsWellFormed (id ∷ ids) [] vs h = h
add_multiple-IsWellFormed (id ∷ ids) (stake ∷ stakes) vs h = ground (
  arith,
  add-IsWellFormed id stake vs h,
  add_multiple-IsWellFormed ids stakes (add id stake vs).1,
)

-- The calls that change a validator set.
pub data Op : Type 0 where
  adds : ValidatorId → ℕ → Op
  adds_multiple : List ValidatorId → List ℕ → Op
  removes jails misses : ValidatorId → Op

unfoldable pub apply : Op → ValidatorSet → ValidatorSet
unfolding add add_multiple remove jail mark_missed
apply (adds id stake) vs = (add id stake vs).1
apply (adds_multiple ids stakes) vs = (add_multiple ids stakes vs).1
apply (removes id) vs = remove id vs
apply (jails id) vs = jail id vs
apply (misses id) vs = (mark_missed id vs).1

unfoldable pub run : List Op → ValidatorSet → ValidatorSet
unfolding apply
run [] vs = vs
run (op ∷ ops) vs = run ops (apply op vs)

apply-IsWellFormed : (op : Op) (vs : ValidatorSet) → IsWellFormed vs → IsWellFormed (apply op vs)
unfolding apply
apply-IsWellFormed (adds id stake) vs h = add-IsWellFormed id stake vs h
apply-IsWellFormed (adds_multiple ids stakes) vs h = add_multiple-IsWellFormed ids stakes vs h
apply-IsWellFormed (removes id) vs h = remove-IsWellFormed id 0 vs h
apply-IsWellFormed (jails id) vs h = jail-IsWellFormed id 0 vs h
apply-IsWellFormed (misses id) vs h = mark_missed-IsWellFormed id 0 vs h

run-IsWellFormed : (ops : List Op) (vs : ValidatorSet) → IsWellFormed vs → IsWellFormed (run ops vs)
unfolding run
run-IsWellFormed [] vs h = h
run-IsWellFormed (op ∷ ops) vs h = run-IsWellFormed ops (apply op vs) (apply-IsWellFormed op vs h)

-- After any sequence of calls on a new validator set: the identifiers are ascending and exactly
-- those with a stake, at most 200 are active, no stake is below 100 and no missed counter has
-- reached 50.
pub run-new-IsWellFormed : (ops : List Op) → IsWellFormed (run ops new_validator_set)
run-new-IsWellFormed ops = run-IsWellFormed ops new_validator_set new_validator_set-IsWellFormed

-- `Add` on a well-formed set succeeds exactly when the identifier is new, the stake is at least 100
-- and fewer than 200 validators are active. It then makes the identifier active with that stake and
-- no missed block; every other validator is as before, and a refusal changes nothing.
pub add_exact :
    (id stake i : ℕ) (vs : ValidatorSet)
    → IsWellFormed vs
    → let (r, vs') = add id stake vs in
      let fits = not (mem id vs.ids) && leb min_stake stake && ltb (length vs.ids) max_validators in
      (is_ok r ≡ fits)
      × (mem i vs'.ids ≡ (if fits && id == i then true else mem i vs.ids))
      × (lookup i vs'.stakes ≡ (if fits && id == i then some stake else lookup i vs.stakes))
      × (lookup_or 0 i vs'.missed ≡ (if fits && id == i then 0 else lookup_or 0 i vs.missed))
      × (vs'.jailed ≡ vs.jailed)
unfolding add
add_exact id stake i vs h = ground (
  arith,
  h.registered id,
  mem-sort_ids i (vs.ids ++ id ∷ []),
  mem-append i id vs.ids,
  lookup-insert id i stake vs.stakes,
  lookup_or-insert 0 id i 0 vs.missed,
)

-- `MarkMissed` on a well-formed set jails the validator exactly when its counter reaches 50: it is
-- then inactive, without stake or counter and appended to the jailed list. Before that only its
-- counter rises by one. Every other validator is as before.
pub mark_missed_exact :
    (id i : ℕ) (vs : ValidatorSet)
    → IsWellFormed vs
    → let (jailed, vs') = mark_missed id vs in
      let next = lookup_or 0 id vs.missed + 1 in
      (jailed ≡ leb jail_threshold next)
      × (vs'.jailed ≡ (if jailed then vs.jailed ++ id ∷ [] else vs.jailed))
      × (mem i vs'.ids ≡ (if jailed && id == i then false else mem i vs.ids))
      × (lookup i vs'.stakes ≡ (if jailed && id == i then none else lookup i vs.stakes))
      × (lookup_or 0 i vs'.missed
          ≡ (if id == i then (if jailed then 0 else next) else lookup_or 0 i vs.missed))
unfolding mark_missed jail remove
mark_missed_exact id i vs h = ground (
  arith,
  mem-remove_first i id vs.ids h.ascending,
  lookup-erase id i vs.stakes,
  lookup_or-erase 0 id i (insert id (lookup_or 0 id vs.missed + 1) vs.missed),
  lookup_or-insert 0 id i (lookup_or 0 id vs.missed + 1) vs.missed,
)
