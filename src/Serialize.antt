-- ===== src/Serialize.antt =====
-- serialize.go: the wire format of a transaction, its hexadecimal wrapping, and the texts for the RPC.
-- A reader is the bytes that are left to read. Lengths are cut to their fields, as Go's conversions do.
pub mod Numbers
pub mod Reading
pub mod RoundTrip
pub mod Truncation
mod Tests
use waychain_consensus.Prelude.{
  ℕ, ◌+◌, Bool, true, false, List, [], ◌∷◌, ◌++◌, ok, err, panic, Outcome, ltb, if◌then◌else◌,
  Bytes, codes, length, take, drop, be_value, map,
}
use waychain_consensus.Prelude.Hex.{hex, decode_string, hex_number}
use waychain_consensus.Prelude.Decimal.{decimal}
use waychain_consensus.Hashing.{Sha256}
use waychain_consensus.State.{LogEntry}
use waychain_consensus.Types.{Transaction}
use waychain_consensus.Precompile.{be_bytes}
use waychain_consensus.Chain.Transactions.{tx_hash}
use waychain_consensus.Serialize.Numbers.{number_bytes}

-- The field that a read falls short of, by its name, or a text that is not hexadecimal.
pub data TxError : Type 0 where
  short_read : Bytes → TxError
  hex_decode : TxError

abbrev pub Reader {ℓ} : Type ℓ → Type ℓ
Reader A = Bytes → Outcome TxError (A × Bytes)

module _ {ℓ κ} {A : Type ℓ} {B : Type κ} where
  infixl 5 ◌>>=◌
  abbrev pub ◌>>=◌ : Reader A → (A → Reader B) → Reader B
  ◌>>=◌ p f bs = elim (p bs) [ ok v ↦ f v.0 v.1 | err e ↦ err e | panic ↦ panic ]

abbrev pub done {ℓ} : {A : Type ℓ} → A → Reader A
done a bs = ok (a, bs)

-- `r.read(n)`
unfoldable pub read : Bytes → ℕ → Reader Bytes
read field n bs = if ltb (length bs) n then err (short_read field) else ok (take n bs, drop n bs)

-- `be64(r.buf)` and the like, after a read of as many bytes.
unfoldable pub read_number : Bytes → ℕ → Reader ℕ
unfolding read
read_number field n = read field n >>= λ bs. done (be_value bs)

-- A length of so many bytes, and then as many bytes as it says.
unfoldable pub read_sized : Bytes → Bytes → ℕ → Reader Bytes
unfolding read_number read
read_sized length_field field n = read_number length_field n >>= λ size. read field size

-- `SerializeTx`
unfoldable pub serialize_tx : Transaction → Bytes
serialize_tx tx =
    be_bytes 8 tx.nonce
    ++ be_bytes 2 (length tx.from)
    ++ tx.from
    ++ be_bytes 2 (length tx.to)
    ++ tx.to
    ++ be_bytes 2 (length (number_bytes tx.value))
    ++ number_bytes tx.value
    ++ be_bytes 8 tx.gas_limit
    ++ be_bytes 8 tx.gas_price
    ++ be_bytes 1 tx.lane
    ++ be_bytes 4 (length tx.encrypted_data)
    ++ tx.encrypted_data
    ++ be_bytes 4 (length tx.calldata)
    ++ tx.calldata
    ++ be_bytes 2 (length tx.signature)
    ++ tx.signature

module _ ⦃h : Sha256⦄ where
  -- The transaction of the fields, with its hash.
  abbrev pub hashed : Transaction → Transaction
  hashed tx = record tx { hash = tx_hash tx }

  -- `DeserializeTx`, with what it leaves unread
  unfoldable pub read_tx : Reader Transaction
  unfolding read_number read_sized
  read_tx = do
    nonce ← read_number (codes "nonce") 8
    from ← read_sized (codes "fromLen") (codes "from") 2
    to ← read_sized (codes "toLen") (codes "to") 2
    value ← read_sized (codes "valueLen") (codes "value") 2
    gas_limit ← read_number (codes "gasLimit") 8
    gas_price ← read_number (codes "gasPrice") 8
    lane ← read_number (codes "lane") 1
    encrypted_data ← read_sized (codes "encDataLen") (codes "encrypted data") 4
    calldata ← read_sized (codes "dataLen") (codes "data") 4
    signature ← read_sized (codes "sigLen") (codes "signature") 2
    done (
        hashed (record {
          nonce = nonce;
          from = from;
          to = to;
          value = be_value value;
          gas_limit = gas_limit;
          gas_price = gas_price;
          gas_used = 0;
          calldata = calldata;
          hash = [];
          signature = signature;
          lane = lane;
          encrypted_data = encrypted_data;
          logs = [];
        }))

  -- `DeserializeTx`: what is left of the input is not looked at.
  unfoldable pub deserialize_tx : Bytes → Outcome TxError Transaction
  unfolding read_tx
  deserialize_tx bs = elim (read_tx bs) [ ok v ↦ ok v.0 | err e ↦ err e | panic ↦ panic ]

  -- `DeserializeTxHex`
  unfoldable pub deserialize_tx_hex : Bytes → Outcome TxError Transaction
  unfolding deserialize_tx decode_string
  deserialize_tx_hex text =
      if (decode_string text).1 then deserialize_tx (decode_string text).0 else err hex_decode

-- `SerializeTxHex`
unfoldable pub serialize_tx_hex : Transaction → Bytes
unfolding serialize_tx hex
serialize_tx_hex tx = hex (serialize_tx tx)

pub record TxJson : Type 0 where
  pub nonce : Bytes
  pub from : Bytes
  pub to : Bytes
  pub value : Bytes
  pub gas_limit : Bytes
  pub gas_price : Bytes
  pub gas_used : Bytes
  pub calldata : Bytes
  pub hash : Bytes
  pub signature : Bytes
  pub lane : Bytes
  pub encrypted_data : Bytes

abbrev with_0x : Bytes → Bytes
with_0x text = codes "0x" ++ text

-- `ToJSON`
unfoldable pub to_json : Transaction → TxJson
unfolding hex hex_number
to_json tx = record {
  nonce = with_0x (hex_number tx.nonce);
  from = with_0x tx.from;
  to = with_0x tx.to;
  value = with_0x (hex_number tx.value);
  gas_limit = with_0x (hex_number tx.gas_limit);
  gas_price = with_0x (hex_number tx.gas_price);
  gas_used = with_0x (hex_number tx.gas_used);
  calldata = with_0x (hex tx.calldata);
  hash = with_0x (hex tx.hash);
  signature = with_0x (hex tx.signature);
  lane = with_0x (decimal tx.lane);
  encrypted_data = hex tx.encrypted_data;
}

pub record LogJson : Type 0 where
  pub address : Bytes
  pub topics : List Bytes
  pub payload : Bytes
  pub block_number : Bytes
  pub transaction_hash : Bytes
  pub transaction_index : Bytes
  pub log_index : Bytes
  pub block_hash : Bytes
  pub removed : Bool

-- `LogToRPC`
unfoldable pub log_to_rpc : LogEntry → ℕ → Bytes → ℕ → LogJson
unfolding hex hex_number
log_to_rpc log block tx_hash index = record {
  address = with_0x log.address;
  topics = map (λ topic. with_0x (hex topic)) log.topics;
  payload = with_0x (hex log.payload);
  block_number = with_0x (hex_number block);
  transaction_hash = tx_hash;
  transaction_index = codes "0x0";
  log_index = with_0x (hex_number index);
  block_hash = [];
  removed = false;
}
