-- ===== src/BitcoinRegistry/Tests.antt =====
-- One commitment, delivered three times.
use waychain_consensus.Prelude.{
  ◌+◌, ◌*◌, ◌≡◌, refl, [], ◌∷◌, ◌++◌, ok, Bytes, replicate, arith, bytes_eq, lookup, lookup_or,
}
use waychain_consensus.Hashing.{plain_digest}
use waychain_consensus.State.{new_state_db, account_at}
use waychain_consensus.State.Storage.{sload}
use waychain_consensus.Precompile.{be_bytes, word, read_slot, read_address}
use waychain_consensus.BitcoinRegistry.{total_committed, attest_commitment}
use waychain_consensus.BitcoinRegistry.Committing.{
  at, IsCreditable, amount_of, user_key, delivered, attest_again,
}

abbrev commitment : Bytes
commitment = be_bytes 4 0xF237C0C2 ++ (replicate 32 7 ++ (be_bytes 32 25000 ++ replicate 20 9))

commitment-IsCreditable : IsCreditable commitment new_state_db
unfolding at sload account_at lookup_or lookup read_slot read_address be_bytes total_committed
    bytes_eq word
commitment-IsCreditable = record {
  long = omega arith;
  not_low = omega arith;
  not_high = omega arith;
  free = refl;
  apart = refl;
  apart' = refl;
}

attest_again_example :
    ((attest_commitment commitment (delivered commitment 2 new_state_db)).0 ≡ ok (1 ∷ []))
    × (at (user_key commitment) (delivered commitment 3 new_state_db)
        ≡ at (user_key commitment) new_state_db + 3 * amount_of commitment)
    × (at total_committed (delivered commitment 3 new_state_db)
        ≡ at total_committed new_state_db + 3 * amount_of commitment)
unfolding at sload account_at lookup_or lookup read_slot read_address be_bytes
attest_again_example =
    attest_again commitment 2 new_state_db commitment-IsCreditable (omega arith) (omega arith)
