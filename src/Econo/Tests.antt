-- ===== src/Econo/Tests.antt =====
-- The policy at a concrete input.
use waychain_consensus.Prelude.Int.{pos}
use waychain_consensus.Hashing.{plain_digest}
use waychain_consensus.State.{StateDb, new_account, new_state_db, put_account}
use waychain_consensus.Econo.{Econo, new_econo, treasury_addr}

abbrev funded : StateDb
funded = put_account treasury_addr (record new_account { balance = pos 1000000 }) new_state_db

abbrev expanding : Econo
expanding = record new_econo { snap = record new_econo.snap { phase = 1 } }
