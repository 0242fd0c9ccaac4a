-- ===== src/Serialize/RoundTrip.antt =====
-- What is read back of a transaction that was written.
use mathlib.Core.List.{append_assoc}
use waychain_consensus.Prelude.{◌^◌, ◌<◌, ◌≡◌, refl, ◌++◌, ok, Bytes, length, codes, []}
use waychain_consensus.Hashing.{Sha256}
use waychain_consensus.Types.{Transaction}
use waychain_consensus.Precompile.{be_bytes}
use waychain_consensus.Chain.Transactions.{tx_hash}
use waychain_consensus.Serialize.{◌>>=◌, read_tx, serialize_tx, deserialize_tx}
use waychain_consensus.Serialize.Numbers.{number_bytes, be_value-number_bytes}
use waychain_consensus.Serialize.Reading.{read_number-append, read_sized-append}

-- The fields fit what the format has for them.
pub record IsSerializable (tx : Transaction) : Type 0 where
  pub nonce : tx.nonce < 2 ^ 64
  pub from : length tx.from < 2 ^ 16
  pub to : length tx.to < 2 ^ 16
  pub value : length (number_bytes tx.value) < 2 ^ 16
  pub gas_limit : tx.gas_limit < 2 ^ 64
  pub gas_price : tx.gas_price < 2 ^ 64
  pub lane : tx.lane < 256
  pub encrypted_data : length tx.encrypted_data < 2 ^ 32
  pub calldata : length tx.calldata < 2 ^ 32
  pub signature : length tx.signature < 2 ^ 16

-- The written transaction with more behind it.
wire : Transaction → Bytes → Bytes
wire tx rest =
    be_bytes 8 tx.nonce
    ++ (be_bytes 2 (length tx.from)
        ++ (tx.from
            ++ (be_bytes 2 (length tx.to)
                ++ (tx.to
                    ++ (be_bytes 2 (length (number_bytes tx.value))
                        ++ (number_bytes tx.value
                            ++ (be_bytes 8 tx.gas_limit
                                ++ (be_bytes 8 tx.gas_price
                                    ++ (be_bytes 1 tx.lane
                                        ++ (be_bytes 4 (length tx.encrypted_data)
                                            ++ (tx.encrypted_data
                                                ++ (be_bytes 4 (length tx.calldata)
                                                    ++ (tx.calldata
                                                        ++ (be_bytes 2 (length tx.signature)
                                                            ++ (tx.signature ++ rest)))))))))))))))

wire-append : (tx : Transaction) (rest : Bytes) → serialize_tx tx ++ rest ≡ wire tx rest
unfolding serialize_tx wire
wire-append tx rest = simp append_assoc

module _ ⦃h : Sha256⦄ where
  -- What the receiver makes of a transaction: the fields that are sent, and the hash.
  abbrev pub received : Transaction → Transaction
  received tx = record tx { gas_used = 0; hash = tx_hash tx; logs = [] }

  pub read_tx-wire :
      (tx : Transaction) (rest : Bytes)
      → IsSerializable tx
      → read_tx (serialize_tx tx ++ rest) ≡ ok (received tx, rest)
  unfolding read_tx wire tx_hash
  read_tx-wire tx rest fits =
      rw
        (
          wire-append tx rest,
          read_tx,
          ◌>>=◌,
          read_number-append (codes "nonce") 8 tx.nonce _ fits.nonce,
          read_sized-append (codes "fromLen") (codes "from") 2 tx.from _ fits.from,
          read_sized-append (codes "toLen") (codes "to") 2 tx.to _ fits.to,
          read_sized-append (codes "valueLen") (codes "value") 2 (number_bytes tx.value) _
              fits.value,
          read_number-append (codes "gasLimit") 8 tx.gas_limit _ fits.gas_limit,
          read_number-append (codes "gasPrice") 8 tx.gas_price _ fits.gas_price,
          read_number-append (codes "lane") 1 tx.lane _ fits.lane,
          read_sized-append (codes "encDataLen") (codes "encrypted data") 4 tx.encrypted_data _
              fits.encrypted_data,
          read_sized-append (codes "dataLen") (codes "data") 4 tx.calldata _ fits.calldata,
          read_sized-append (codes "sigLen") (codes "signature") 2 tx.signature rest fits.signature,
          be_value-number_bytes tx.value,
        )
        refl

  -- A transaction whose fields fit the format is read back from what was written of it, whatever
  -- bytes follow: every field that is sent is the same, the hash is computed anew, and the used gas
  -- and the logs are empty.
  pub deserialize_tx-serialize_tx :
      (tx : Transaction) (rest : Bytes)
      → IsSerializable tx
      → deserialize_tx (serialize_tx tx ++ rest) ≡ ok (received tx)
  unfolding deserialize_tx
  deserialize_tx-serialize_tx tx rest fits = rw (deserialize_tx, read_tx-wire tx rest fits) refl
