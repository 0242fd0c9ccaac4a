-- ===== src/StorageEndowment/Tests.antt =====
-- The allocation of an epoch, and its halving.
use waychain_consensus.Prelude.{◌*◌, ◌^◌, ◌≡◌, refl}
use waychain_consensus.StorageEndowment.{halve}

halve_twice : halve 2 (10000000 * 10 ^ 18) ≡ 2500000 * 10 ^ 18
unfolding halve
halve_twice = refl
