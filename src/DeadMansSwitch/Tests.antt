-- ===== src/DeadMansSwitch/Tests.antt =====
-- A switch, its heartbeat and its claim.
use waychain_consensus.Prelude.{
  ◌+◌, ◌≡◌, refl, [], ◌∷◌, ◌++◌, ok, Bytes, replicate, arith, ltb, if◌then◌else◌, lookup, lookup_or,
  insert, bytes_eq, ap, ◌∙◌,
}
use waychain_consensus.Hashing.{plain_digest}
use waychain_consensus.State.{StateDb, new_state_db, account_at, put_account}
use waychain_consensus.State.Storage.{sload, sstore}
use waychain_consensus.Precompile.{be_bytes, read_uint64}
use waychain_consensus.DeadMansSwitch.{
  switches_addr, switch_key, new_switch, state_of, interval_of, heartbeat, claim,
}
use waychain_consensus.DeadMansSwitch.Fields.{new_switch-fields}
use waychain_consensus.DeadMansSwitch.Claiming.{switch_of, claim-heartbeat}

abbrev first_switch : Bytes
first_switch = replicate 4 0 ++ be_bytes 8 1

-- The state with one switch of a day's interval, from block 5 on.
abbrev guarded : StateDb
guarded = sstore switches_addr (switch_key 1) (new_switch 1 86400 5) new_state_db

guarded_switch : switch_of (read_uint64 first_switch 4) guarded ≡ new_switch 1 86400 5
unfolding switch_of sload sstore put_account account_at lookup_or lookup insert read_uint64 be_bytes
    switch_key new_switch bytes_eq switches_addr
guarded_switch = refl

claim-heartbeat_example :
    (claim first_switch 90000 (heartbeat first_switch 100 guarded).1).0
    ≡ ok (
        if ltb (100 + interval_of (switch_of (read_uint64 first_switch 4) guarded)) 90000
        then 1 ∷ []
        else 0 ∷ [])
claim-heartbeat_example =
    claim-heartbeat first_switch first_switch 100 90000 guarded refl
      (ap state_of guarded_switch ∙ (new_switch-fields 1 86400 5 (omega arith) (omega arith)).0)
      (omega (
        arith,
        ap interval_of guarded_switch ∙ (new_switch-fields 1 86400 5 (omega arith) (omega arith)).1,
      ))
