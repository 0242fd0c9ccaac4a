-- ===== src/Badges/Tests.antt =====
-- A curator who is added under an address, and the caller who is not.
use waychain_consensus.Prelude.{
  ◌≡◌, refl, List, [], ◌∷◌, ◌++◌, codes, Bytes, replicate, arith, bytes_eq,
}
use waychain_consensus.Hashing.{plain_digest}
use waychain_consensus.State.{new_state_db, StateDb}
use waychain_consensus.State.Storage.{sload, sstore}
use waychain_consensus.Precompile.{be_bytes, word}
use waychain_consensus.Badges.{badges_addr, total_badges, curator_count, curator_key}
use waychain_consensus.Badges.Curating.{BadgeCall, run, run-curator_key}

-- The text of an address, and the bytes of it.
abbrev text : Bytes
text = codes "0909090909090909090909090909090909090909"

abbrev governor : Bytes
governor = codes "governor"

abbrev additions : List BadgeCall
additions =
    record { input = be_bytes 4 0x0F9BD4BD ++ replicate 20 9; caller = governor; block = 1 }
    ∷ record {
      input = be_bytes 4 0x0210186D ++ (replicate 20 9 ++ (2 ∷ be_bytes 8 0));
      caller = governor;
      block = 2;
    }
    ∷ []

abbrev governed : StateDb
governed = sstore badges_addr (curator_key governor) 1 new_state_db

run-curator_key_example :
    sload badges_addr (curator_key text) (run additions governed)
    ≡ sload badges_addr (curator_key text) governed
unfolding total_badges curator_count word be_bytes bytes_eq
run-curator_key_example = run-curator_key text refl refl (λ e. ground arith) additions governed
