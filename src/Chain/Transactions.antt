-- ===== src/Chain/Transactions.antt =====
-- chain.go and crypto.go: the hash that a transaction signs, its signature, and the checks that
-- `ProduceBlock` makes of it.
use waychain_consensus.Prelude.{
  ℕ, ◌+◌, ◌*◌, ◌%◌, ◌^◌, Bool, true, false, ◌&&◌, not, [], ◌++◌, Option, none, some, is_ok, ◌==◌,
  if◌then◌else◌, Bytes, bytes_eq, codes, length,
}
use waychain_consensus.Prelude.Int.{pos, ltb_ℤ}
use waychain_consensus.Prelude.Decimal.{decimal}
use waychain_consensus.Prelude.Hex.{hex, decode_string}
use waychain_consensus.Hashing.{Sha256}
use waychain_consensus.Types.{Transaction}
use waychain_consensus.State.{StateDb, Account, can_deploy_contract, consensus_lane}
use waychain_consensus.Execution.Results.{Precompiles, Revm}

pub record Node : Type 0 where
  pub precompiles : Precompiles
  pub revm : Revm
  pub verify : Bytes → Bytes → Bytes → Bool
  pub accounts_text : StateDb → Bytes

-- `ParsePubKey`
unfoldable pub parse_pub_key : Bytes → Option Bytes
unfolding decode_string
parse_pub_key text =
    let bytes = decode_string text in
    if bytes.1 && (length bytes.0 == 32) then some bytes.0 else none

-- A gas price of 0 counts as 1.
abbrev pub gas_price_of : Transaction → ℕ
gas_price_of tx = if tx.gas_price == 0 then 1 else tx.gas_price

-- `new(big.Int).SetUint64(tx.GasLimit * gasPrice)`, with the value
abbrev pub cost_of : Transaction → ℕ
cost_of tx = tx.gas_limit * gas_price_of tx % 2 ^ 64 + tx.value

module _ ⦃h : Sha256⦄ where
  -- `TxHash`
  unfoldable pub tx_hash : Transaction → Bytes
  unfolding hex
  tx_hash tx = h.sum256 (
      decimal tx.nonce
      ++ codes ":"
      ++ tx.from
      ++ codes ":"
      ++ tx.to
      ++ codes ":"
      ++ decimal tx.value
      ++ codes ":"
      ++ decimal tx.gas_limit
      ++ codes ":"
      ++ decimal tx.lane
      ++ codes ":"
      ++ decimal (length tx.calldata)
      ++ codes ":"
      ++ hex tx.calldata
      ++ codes ":"
      ++ hex tx.encrypted_data)

  -- `NewTransaction`
  unfoldable pub new_transaction : ℕ → Bytes → Bytes → ℕ → ℕ → Bytes → Transaction
  unfolding tx_hash
  new_transaction nonce from to value gas_limit calldata = record draft { hash = tx_hash draft }
    where
      draft : Transaction
      draft = record {
        nonce = nonce;
        from = from;
        to = to;
        value = value;
        gas_limit = gas_limit;
        gas_price = 0;
        gas_used = 0;
        calldata = calldata;
        hash = [];
        signature = [];
        lane = consensus_lane;
        encrypted_data = [];
        logs = [];
      }

  module _ (node : Node) where
    -- A transaction without a signature passes.
    unfoldable pub is_signed : Transaction → Bool
    unfolding parse_pub_key tx_hash
    is_signed tx = if length tx.signature == 0 then true else elim (parse_pub_key tx.from) [
      | none ↦ false
      | some key ↦ node.verify key (tx_hash tx) tx.signature
    ]

    -- The checks of the loop of `ProduceBlock`, on the account of the sender.
    unfoldable pub admissible : Transaction → Account → Bool
    unfolding is_signed can_deploy_contract
    admissible tx sender =
        is_signed tx
        && (tx.nonce == sender.nonce)
        && (if bytes_eq tx.to [] then is_ok (can_deploy_contract sender.dox_dev_level) else true)
        && not (ltb_ℤ sender.balance (pos (cost_of tx)))
