-- ===== src/Engine/Epoch.antt =====
-- The epoch's election and the choice of the proposer.
use waychain_consensus.Prelude.{
  ℕ, zero, suc, ◌+◌, ◌%◌, ◌^◌, ◌≤◌, ◌<◌, ◌≡◌, refl, ◌∙◌, sym, Bool, true, false, ◌||◌, List, [],
  ◌∷◌, ◌++◌, some, arith, ◌==◌, if◌then◌else◌, Bytes, bytes_key, bytes_eq, bytes_eq_iff, nat_eq,
  length, get_elem?, take, insert, lookup, lookup-insert, be_value, codes,
}
use mathlib.Core.List.{append-nil, append_assoc}
use waychain_consensus.Prelude.Decimal.{decimal}
use waychain_consensus.Hashing.{Sha256}
use waychain_consensus.Validators.{ValidatorId, max_validators, id_string}
use waychain_consensus.Validators.Order.{mem}
use waychain_consensus.Engine.{
  Floats, Engine, Weighted, insert_weighted, sort_weighted, weigh, elect, epoch_of,
  select_new_epoch, select_proposer, is_validator_active_in, is_validator_active,
}

-- A position below the length holds an active validator.
get_elem?-active :
    (vs : List ValidatorId) (i : ℕ)
    → i < length vs
    → (v : ValidatorId) × (get_elem? vs i ≡ some v) × (is_validator_active_in v vs ≡ true)
unfolding is_validator_active_in
get_elem?-active [] i h = absurd (omega arith)
get_elem?-active (v ∷ vs) zero h = (v, refl, ground arith)
get_elem?-active (v ∷ vs) (suc i) h =
    let (w, e, a) = get_elem?-active vs i (omega arith) in (w, e, ground arith)

-- For every height a non-empty active set has a proposer, who is an active validator.
pub select_proposer-active :
    ⦃h : Sha256⦄ (height : ℕ) (ce : Engine)
    → 0 < length ce.active_set
    → (v : ValidatorId) × (select_proposer height ce ≡ some v) × (is_validator_active v ce ≡ true)
unfolding select_proposer is_validator_active
select_proposer-active ⦃h⦄ height ce some_active =
    let index = be_value (h.sum256 (ce.random_seed ++ codes ":" ++ decimal height)) % 2 ^ 64 in
    let (v, e, a) = get_elem?-active ce.active_set (index % length ce.active_set) (grind arith) in
    (v, ground arith, a)

-- Whether some identifier of the list is printed as `name`.
named : Bytes → List ValidatorId → Bool
named name [] = false
named name (v ∷ vs) = bytes_eq (id_string v) name || named name vs

mem-nil : (z : ValidatorId) → mem z [] ≡ false
unfolding mem
mem-nil z = refl

named_of_mem :
    (z : ValidatorId) (vs : List ValidatorId) → mem z vs ≡ true → named (id_string z) vs ≡ true
unfolding mem named
named_of_mem z [] h = cc
named_of_mem z (v ∷ vs) h =
    ground (arith, named_of_mem z vs, bytes_eq_iff (id_string v) (id_string z))

active-mem : (z : ValidatorId) (vs : List ValidatorId) → is_validator_active_in z vs ≡ mem z vs
unfolding mem is_validator_active_in
active-mem z [] = refl
active-mem z (v ∷ vs) = ground (arith, active-mem z vs)

module _ (fl : Floats) where
  open fl use {F, gt_f}

  abbrev names : List (Weighted fl) → List ValidatorId
  names [] = []
  names (w ∷ ws) = w.0 ∷ names ws

  mem-insert_weighted :
      (z : ValidatorId) (w : Weighted fl) (ws : List (Weighted fl))
      → mem z (names (insert_weighted fl w ws)) ≡ ((w.0 == z) || mem z (names ws))
  unfolding mem insert_weighted
  mem-insert_weighted z w [] = refl
  mem-insert_weighted z w (v ∷ vs) = ground (arith, mem-insert_weighted z w vs)

  mem-sort_weighted :
      (z : ValidatorId) (ws : List (Weighted fl))
      → mem z (names (sort_weighted fl ws)) ≡ mem z (names ws)
  unfolding mem sort_weighted
  mem-sort_weighted z [] = refl
  mem-sort_weighted z (w ∷ ws) =
      ground (arith, mem-insert_weighted z w (sort_weighted fl ws), mem-sort_weighted z ws)

  length-insert_weighted :
      (w : Weighted fl) (ws : List (Weighted fl))
      → length (insert_weighted fl w ws) ≡ suc (length ws)
  unfolding insert_weighted
  length-insert_weighted w [] = refl
  length-insert_weighted w (v ∷ vs) = ground (arith, length-insert_weighted w vs)

  length-sort_weighted : (ws : List (Weighted fl)) → length (sort_weighted fl ws) ≡ length ws
  unfolding sort_weighted
  length-sort_weighted [] = refl
  length-sort_weighted (w ∷ ws) =
      omega (arith, length-insert_weighted w (sort_weighted fl ws), length-sort_weighted ws)

  names-weigh : (stakes : List (ℕ × ℕ)) (vs : List ValidatorId) → names (weigh fl stakes vs) ≡ vs
  unfolding weigh
  names-weigh stakes [] = refl
  names-weigh stakes (v ∷ vs) = cc (names-weigh stakes vs)

  length-weigh :
      (stakes : List (ℕ × ℕ)) (vs : List ValidatorId) → length (weigh fl stakes vs) ≡ length vs
  unfolding weigh
  length-weigh stakes [] = refl
  length-weigh stakes (v ∷ vs) = omega (arith, length-weigh stakes vs)

  -- The election loop: the elected join the active set in order, and the power grows by their number.
  elect_lem :
      (ws : List (Weighted fl)) (ce : Engine)
      → let ce' = elect fl ws ce in
        (ce'.active_set ≡ ce.active_set ++ names ws)
        × (ce'.total_power ≡ ce.total_power + length ws)
        × (ce'.current_height ≡ ce.current_height)
  unfolding elect
  elect_lem [] ce = (sym (append-nil ce.active_set), omega arith, refl)
  elect_lem (w ∷ ws) ce =
      let ce₁ = record ce {
        active_set = ce.active_set ++ w.0 ∷ [];
        voting_power = insert (id_string w.0) 1 ce.voting_power;
        total_power = ce.total_power + 1;
      } in
      let (a, t, v) = elect_lem ws ce₁ in
      (a ∙ append_assoc ce.active_set (w.0 ∷ []) (names ws), omega (arith, t), v)

  -- The voting power of the elected, found by the name of each, is 1.
  elect_power :
      (z : ValidatorId) (ws : List (Weighted fl)) (ce : Engine)
      → lookup (id_string z) (elect fl ws ce).voting_power
        ≡ (if named (id_string z) (names ws) then some 1 else lookup (id_string z) ce.voting_power)
  unfolding elect named
  elect_power z [] ce = refl
  elect_power z (w ∷ ws) ce =
      let ce₁ = record ce {
        active_set = ce.active_set ++ w.0 ∷ [];
        voting_power = insert (id_string w.0) 1 ce.voting_power;
        total_power = ce.total_power + 1;
      } in
      ground
        (arith, elect_power z ws ce₁, lookup-insert (id_string w.0) (id_string z) 1 ce.voting_power)

  take-all : (n : ℕ) (ws : List (Weighted fl)) → length ws ≤ n → take n ws ≡ ws
  take-all zero [] h = refl
  take-all zero (w ∷ ws) h = absurd (omega arith)
  take-all (suc n) [] h = refl
  take-all (suc n) (w ∷ ws) h = cc (take-all n ws (omega arith))

  elected_all :
      (stakes : List (ℕ × ℕ)) (ids : List ValidatorId)
      → length ids ≤ max_validators
      → take max_validators (sort_weighted fl (weigh fl stakes ids))
        ≡ sort_weighted fl (weigh fl stakes ids)
  elected_all stakes ids h =
      let ws = weigh fl stakes ids in
      take-all max_validators (sort_weighted fl ws)
        (omega (arith, length-sort_weighted ws, length-weigh stakes ids))

  length-names : (ws : List (Weighted fl)) → length (names ws) ≡ length ws
  length-names [] = refl
  length-names (w ∷ ws) = omega (arith, length-names ws)

  epoch_of_lem :
      ⦃h : Sha256⦄ (z : ValidatorId) (ids : List ValidatorId) (ce : Engine)
      → length ids ≤ max_validators
      → let ce' = epoch_of fl ids ce in
        (is_validator_active_in z ce'.active_set ≡ mem z ids)
        × (length ce'.active_set ≡ length ids)
        × (ce'.total_power ≡ length ids)
        × (ce'.current_height ≡ ce.current_height)
  unfolding epoch_of
  epoch_of_lem ⦃h⦄ z [] ce b = (active-mem z [], refl, refl, refl)
  epoch_of_lem ⦃h⦄ z (v ∷ vs) ce b =
      let stakes = ce.validators.stakes in
      let ws = weigh fl stakes (v ∷ vs) in
      let winners = take max_validators (sort_weighted fl ws) in
      let all = elected_all stakes (v ∷ vs) b in
      let ce₀ = record ce { active_set = []; voting_power = []; total_power = 0 } in
      let (a, t, s) = elect_lem winners ce₀ in
      (
        ground (
          arith,
          a,
          all,
          active-mem z (names winners),
          mem-sort_weighted z ws,
          names-weigh stakes (v ∷ vs),
        ),
        ground (
          arith,
          a,
          all,
          length-names winners,
          length-sort_weighted ws,
          length-weigh stakes (v ∷ vs),
        ),
        ground (arith, t, all, length-sort_weighted ws, length-weigh stakes (v ∷ vs)),
        s,
      )

  epoch_of_power :
      ⦃h : Sha256⦄ (z : ValidatorId) (ids : List ValidatorId) (ce : Engine)
      → length ids ≤ max_validators
      → mem z ids ≡ true
      → lookup (id_string z) (epoch_of fl ids ce).voting_power ≡ some 1
  unfolding epoch_of
  epoch_of_power ⦃h⦄ z [] ce b m = cc (mem-nil z)
  epoch_of_power ⦃h⦄ z (v ∷ vs) ce b m =
      let stakes = ce.validators.stakes in
      let ws = weigh fl stakes (v ∷ vs) in
      let winners = take max_validators (sort_weighted fl ws) in
      let ce₀ = record ce { active_set = []; voting_power = []; total_power = 0 } in
      ground (
        arith,
        elected_all stakes (v ∷ vs) b,
        elect_power z winners ce₀,
        named_of_mem z (names winners),
        mem-sort_weighted z ws,
        names-weigh stakes (v ∷ vs),
      )

  -- With at most 200 registered validators, as in a well-formed set, the new epoch's active
  -- validators are exactly the registered ones, whatever their weights, and the total power is
  -- their number. Nothing of this depends on the float operations or on the hash.
  pub select_new_epoch-exact :
      ⦃h : Sha256⦄ (z : ValidatorId) (ce : Engine)
      → length ce.validators.ids ≤ max_validators
      → let ce' = select_new_epoch fl ce in
        (is_validator_active z ce' ≡ mem z ce.validators.ids)
        × (length ce'.active_set ≡ length ce.validators.ids)
        × (ce'.total_power ≡ length ce.validators.ids)
        × (ce'.current_height ≡ ce.current_height)
  unfolding select_new_epoch is_validator_active
  select_new_epoch-exact ⦃h⦄ z ce bound = epoch_of_lem z ce.validators.ids ce bound

  -- With at most 200 registered validators, each registered validator has voting power 1 under its
  -- printed name after the election of an epoch.
  pub select_new_epoch-power :
      ⦃h : Sha256⦄ (z : ValidatorId) (ce : Engine)
      → length ce.validators.ids ≤ max_validators
      → mem z ce.validators.ids ≡ true
      → lookup (id_string z) (select_new_epoch fl ce).voting_power ≡ some 1
  unfolding select_new_epoch
  select_new_epoch-power ⦃h⦄ z ce bound m = epoch_of_power z ce.validators.ids ce bound m
