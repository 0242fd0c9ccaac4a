-- ===== src/Serialize/Tests.antt =====
-- The wire format of a transfer, read back and cut short.
use waychain_consensus.Prelude.{
  ◌≡◌, refl, [], ◌∷◌, ◌++◌, arith, codes, take, length, ok, err, Bytes,
}
use waychain_consensus.Hashing.{plain_digest}
use waychain_consensus.Types.{Transaction}
use waychain_consensus.Precompile.{be_bytes}
use waychain_consensus.Serialize.{serialize_tx, deserialize_tx, short_read}
use waychain_consensus.Serialize.Numbers.{number_bytes}
use waychain_consensus.Serialize.RoundTrip.{IsSerializable, received, deserialize_tx-serialize_tx}
use waychain_consensus.Serialize.Truncation.{deserialize_tx-take}

abbrev payment : Transaction
payment = record {
  nonce = 3;
  from = codes "zoe";
  to = codes "tom";
  value = 700;
  gas_limit = 21000;
  gas_price = 5;
  gas_used = 0;
  calldata = 9 ∷ 8 ∷ [];
  hash = [];
  signature = 1 ∷ 2 ∷ 3 ∷ [];
  lane = 2;
  encrypted_data = 4 ∷ [];
  logs = [];
}

payment-IsSerializable : IsSerializable payment
unfolding number_bytes
payment-IsSerializable = record {
  nonce = omega arith;
  from = omega arith;
  to = omega arith;
  value = omega arith;
  gas_limit = omega arith;
  gas_price = omega arith;
  lane = omega arith;
  encrypted_data = omega arith;
  calldata = omega arith;
  signature = omega arith;
}

length-payment : length (serialize_tx payment) ≡ 55
unfolding serialize_tx be_bytes number_bytes
length-payment = refl

deserialize_tx-serialize_tx_example :
    deserialize_tx (serialize_tx payment ++ 7 ∷ 7 ∷ []) ≡ ok (received payment)
deserialize_tx-serialize_tx_example =
    deserialize_tx-serialize_tx payment (7 ∷ 7 ∷ []) payment-IsSerializable

deserialize_tx-take_example :
    (field : Bytes) × (deserialize_tx (take 20 (serialize_tx payment)) ≡ err (short_read field))
deserialize_tx-take_example =
    deserialize_tx-take payment 20 payment-IsSerializable (omega (arith, length-payment))
