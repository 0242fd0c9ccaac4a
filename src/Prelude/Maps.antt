-- ===== src/Prelude/Maps.antt =====
-- Go's maps as association lists. The order of the entries stands for the order in which a `range`
-- loop meets them, which Go leaves open.
use mathlib.Core.Path.{◌≡◌, refl}
use mathlib.Core.Bool.{Bool, true, false}
use mathlib.Core.List.{List, [], ◌∷◌}
use mathlib.Core.Option.{Option, none, some}
use native.Mathlib.Omega.{arith}
use waychain_consensus.Prelude.Tests.{if◌then◌else◌}
use Prim.Native.Nat.{◌+◌}
use waychain_consensus.Prelude.Keys.{Eq}
use waychain_consensus.Prelude.Lists.{length}

module _ {ℓ κ} {K : Type ℓ} {V : Type κ} ⦃e : Eq K⦄ where
  unfoldable pub lookup : K → List (K × V) → Option V
  lookup k [] = none
  lookup k ((i, w) ∷ m) = if e.beq i k then some w else lookup k m

  -- `m[k]`, with the zero value for a missing key
  unfoldable pub lookup_or : V → K → List (K × V) → V
  unfolding lookup
  lookup_or d k m = elim (lookup k m) [ none ↦ d | some v ↦ v ]

  -- `_, ok := m[k]`
  unfoldable pub contains_key : K → List (K × V) → Bool
  unfolding lookup
  contains_key k m = elim (lookup k m) [ none ↦ false | some v ↦ true ]

  -- `m[k] = v`
  unfoldable pub insert : K → V → List (K × V) → List (K × V)
  insert k v [] = (k, v) ∷ []
  insert k v ((i, w) ∷ m) = if e.beq i k then (k, v) ∷ m else (i, w) ∷ insert k v m

  -- `delete(m, k)`
  unfoldable pub erase : K → List (K × V) → List (K × V)
  erase k [] = []
  erase k ((i, w) ∷ m) = let rest = erase k m in if e.beq i k then rest else (i, w) ∷ rest

  pub lookup-insert :
      (k j : K) (v : V) (m : List (K × V))
      → lookup j (insert k v m) ≡ (if e.beq k j then some v else lookup j m)
  unfolding lookup insert
  lookup-insert k j v [] = refl
  lookup-insert k j v ((i, w) ∷ m) =
      ground (arith, e.beq_iff k j, e.beq_iff i k, e.beq_iff i j, lookup-insert k j v m)

  pub lookup-erase :
      (k j : K) (m : List (K × V)) → lookup j (erase k m) ≡ (if e.beq k j then none else lookup j m)
  unfolding lookup erase
  lookup-erase k j [] = ground arith
  lookup-erase k j ((i, w) ∷ m) =
      ground (arith, e.beq_iff k j, e.beq_iff i k, e.beq_iff i j, lookup-erase k j m)

  pub lookup_or-insert :
      (d : V) (k j : K) (v : V) (m : List (K × V))
      → lookup_or d j (insert k v m) ≡ (if e.beq k j then v else lookup_or d j m)
  unfolding lookup_or
  lookup_or-insert d k j v m = ground (arith, lookup-insert k j v m)

  pub lookup_or-erase :
      (d : V) (k j : K) (m : List (K × V))
      → lookup_or d j (erase k m) ≡ (if e.beq k j then d else lookup_or d j m)
  unfolding lookup_or
  lookup_or-erase d k j m = ground (arith, lookup-erase k j m)

  pub contains_key-insert :
      (k j : K) (v : V) (m : List (K × V))
      → contains_key j (insert k v m) ≡ (if e.beq k j then true else contains_key j m)
  unfolding contains_key
  contains_key-insert k j v m = ground (arith, lookup-insert k j v m)

  pub contains_key-erase :
      (k j : K) (m : List (K × V))
      → contains_key j (erase k m) ≡ (if e.beq k j then false else contains_key j m)
  unfolding contains_key
  contains_key-erase k j m = ground (arith, lookup-erase k j m)

  pub length-insert :
      (k : K) (v : V) (m : List (K × V))
      → length (insert k v m) ≡ length m + (if contains_key k m then 0 else 1)
  unfolding insert contains_key
  length-insert k v [] = omega arith
  length-insert k v ((i, w) ∷ m) = ground (arith, length-insert k v m)
