-- ===== src/DeadMansSwitch/Claiming.antt =====
-- When a switch can be claimed.
use waychain_consensus.Prelude.{
  ℕ, ◌+◌, ◌^◌, ◌<◌, ◌≡◌, ap, Bool, true, [], ◌∷◌, ok, ltb, ◌==◌, if◌then◌else◌, Bytes,
  bytes_eq_refl, arith,
}
use waychain_consensus.Hashing.{Sha256}
use waychain_consensus.State.{StateDb}
use waychain_consensus.State.Storage.{sload, sload-sstore}
use waychain_consensus.Precompile.{read_uint64}
use waychain_consensus.DeadMansSwitch.{
  switches_addr, switch_key, interval_of, state_of, deadline_of, with_heartbeat, with_state,
  change_switch, heartbeat, claim,
}
use waychain_consensus.DeadMansSwitch.Fields.{with_heartbeat-fields}

module _ ⦃h : Sha256⦄ where
  -- The slot of the switch of an identifier.
  unfoldable pub switch_of : ℕ → StateDb → ℕ
  switch_of id s = sload switches_addr (switch_key id) s

  change_switch-switch :
      (input : Bytes) (test : ℕ → Bool) (change : ℕ → ℕ) (s : StateDb)
      → let id = read_uint64 input 4 in
        ((change_switch input test change s).0
          ≡ ok (
              if state_of (switch_of id s) == 0
              then (if test (switch_of id s) then 1 ∷ [] else 0 ∷ [])
              else 0 ∷ []))
        × (switch_of id (change_switch input test change s).1 ≡ (
            if state_of (switch_of id s) == 0
            then (if test (switch_of id s) then change (switch_of id s) else switch_of id s)
            else switch_of id s))
  unfolding change_switch switch_of
  change_switch-switch input test change s = ground (
    arith,
    sload-sstore switches_addr (switch_key (read_uint64 input 4)) switches_addr
        (switch_key (read_uint64 input 4))
        (change (sload switches_addr (switch_key (read_uint64 input 4)) s)) s,
    bytes_eq_refl switches_addr,
    bytes_eq_refl (switch_key (read_uint64 input 4)),
  )

  -- What a claim answers.
  pub claim-answer :
      (input : Bytes) (block : ℕ) (s : StateDb)
      → let slot = switch_of (read_uint64 input 4) s in
        (claim input block s).0
        ≡ ok (
            if state_of slot == 0
            then (if ltb (deadline_of slot) block then 1 ∷ [] else 0 ∷ [])
            else 0 ∷ [])
  unfolding claim
  claim-answer input block s =
      (change_switch-switch input (λ slot. ltb (deadline_of slot) block) (λ slot. with_state slot 2)
        s).0

  switch_of-heartbeat :
      (beat : Bytes) (id block : ℕ) (s : StateDb)
      → read_uint64 beat 4 ≡ id
      → state_of (switch_of id s) ≡ 0
      → switch_of id (heartbeat beat block s).1 ≡ with_heartbeat (switch_of id s) block
  unfolding heartbeat
  switch_of-heartbeat beat id block s same active = ground (
    arith,
    ap
        (λ i.
          switch_of i (change_switch beat (λ slot. true) (λ slot. with_heartbeat slot block) s).1)
        same,
    (change_switch-switch beat (λ slot. true) (λ slot. with_heartbeat slot block) s).1,
  )

  deadline_of-with_heartbeat :
      (slot block : ℕ)
      → block + interval_of slot < 2 ^ 64
      → deadline_of (with_heartbeat slot block) ≡ block + interval_of slot
  unfolding deadline_of
  deadline_of-with_heartbeat slot block small = omega (arith, with_heartbeat-fields slot block)

  -- After a heartbeat of an active switch, by whoever, a claim of it, by whoever, is accepted at
  -- exactly the blocks beyond that of the heartbeat plus the interval, where these stay below 2^64.
  pub claim-heartbeat :
      (beat input : Bytes) (block later : ℕ) (s : StateDb)
      → read_uint64 beat 4 ≡ read_uint64 input 4
      → state_of (switch_of (read_uint64 input 4) s) ≡ 0
      → block + interval_of (switch_of (read_uint64 input 4) s) < 2 ^ 64
      → (claim input later (heartbeat beat block s).1).0
        ≡ ok (
            if ltb (block + interval_of (switch_of (read_uint64 input 4) s)) later
            then 1 ∷ []
            else 0 ∷ [])
  claim-heartbeat beat input block later s same active small = ground (
    arith,
    claim-answer input later (heartbeat beat block s).1,
    switch_of-heartbeat beat (read_uint64 input 4) block s same active,
    with_heartbeat-fields (switch_of (read_uint64 input 4) s) block,
    deadline_of-with_heartbeat (switch_of (read_uint64 input 4) s) block small,
  )
