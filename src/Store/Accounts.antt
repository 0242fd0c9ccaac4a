-- ===== src/Store/Accounts.antt =====
-- What comes back of the accounts that store/store.go wrote.
use mathlib.Core.List.{append_assoc, append-nil}
use waychain_consensus.Prelude.{
  ℕ, suc, ◌+◌, ◌≡◌, refl, sym, ap, ◌∙◌, false, List, [], ◌∷◌, ◌++◌, Option, none, some, ok, err,
  panic, Outcome, if◌then◌else◌, Bytes, bytes_eq, bytes_eq_iff, bytes_eq_refl, bytes_key, codes,
  map, insert, lookup, contains_key, arith, be_value, is_ok,
}
use waychain_consensus.Prelude.Int.{ℤ, pos, negsuc, pos_part, neg_part}
use waychain_consensus.State.{Account, StateDb}
use waychain_consensus.Serialize.Numbers.{be_value-number_bytes}
use waychain_consensus.Store.Backend.{StoreError, Gob, Bolt, IsExact, IsBolt}
use waychain_consensus.Store.Updating.{look-update}
use waychain_consensus.Store.{
  Store, to_serialized, from_serialized, fill_storage, magnitude_bytes, serialize_gob,
  deserialize_gob, serialize_account, deserialize_account, put, get_decoded, put_accounts,
  save_all_accounts, load_account,
}

-- No key stands twice.
unfoldable pub IsKeyed {ℓ} : {V : Type ℓ} → List (Bytes × V) → Type 0
IsKeyed [] = Unit
IsKeyed ((k, v) ∷ m) = (contains_key k m ≡ false) × IsKeyed m

module _ {ℓ} {V : Type ℓ} where
  missing_differs :
      (i k : Bytes) (v : V) (xs m : List (Bytes × V))
      → contains_key i (xs ++ (k, v) ∷ m) ≡ false
      → bytes_eq i k ≡ false
  unfolding contains_key lookup
  missing_differs i k v [] m h = ground (arith, bytes_eq_iff i k, bytes_eq_iff k i)
  missing_differs i k v ((j, w) ∷ xs) m h = ground (arith, missing_differs i k v xs m)

  insert_fresh :
      (k : Bytes) (v : V) (xs m : List (Bytes × V))
      → IsKeyed (xs ++ (k, v) ∷ m)
      → insert k v xs ≡ xs ++ (k, v) ∷ []
  unfolding insert IsKeyed
  insert_fresh k v [] m h = refl
  insert_fresh k v ((i, w) ∷ xs) m h =
      rw (insert, missing_differs i k v xs m h.0)
        (ap (λ zs. (i, w) ∷ zs) (insert_fresh k v xs m h.1))

fill_storage_keyed :
    (m acc : List (Bytes × ℕ))
    → IsKeyed (acc ++ m)
    → fill_storage (map (λ entry. entry.0) m) (map (λ entry. entry.1) m) acc ≡ acc ++ m
unfolding fill_storage
fill_storage_keyed [] acc h = sym (append-nil acc)
fill_storage_keyed ((k, v) ∷ m) acc h =
    ap (fill_storage (map (λ entry. entry.0) m) (map (λ entry. entry.1) m))
      (insert_fresh k v acc m h)
    ∙ fill_storage_keyed m (acc ++ (k, v) ∷ []) (rw (append_assoc acc ((k, v) ∷ []) m) h)
    ∙ append_assoc acc ((k, v) ∷ []) m

-- The account with the amounts of its balance and its rent, without their signs.
abbrev pub unsigned : Account → Account
unsigned acc = record acc {
  balance = pos (pos_part acc.balance + neg_part acc.balance);
  state_rent_paid = pos (pos_part acc.state_rent_paid + neg_part acc.state_rent_paid);
}

be_value-magnitude_bytes : (n : ℤ) → be_value (magnitude_bytes n) ≡ pos_part n + neg_part n
unfolding magnitude_bytes
be_value-magnitude_bytes (pos n) = omega (arith, be_value-number_bytes n)
be_value-magnitude_bytes (negsuc n) = omega (arith, be_value-number_bytes (suc n))

from_serialized-to_serialized :
    (acc : Account) → IsKeyed acc.storage → from_serialized (to_serialized acc) ≡ unsigned acc
unfolding from_serialized to_serialized
from_serialized-to_serialized acc keyed =
    rw
      (
        fill_storage_keyed acc.storage [] keyed,
        be_value-magnitude_bytes acc.balance,
        be_value-magnitude_bytes acc.state_rent_paid,
      )
      refl

module _ (gob : Gob) where
  -- x
  pub deserialize_account-serialize_account :
      (acc : Account) (bs : Bytes)
      → IsExact gob.account (to_serialized acc)
      → IsKeyed acc.storage
      → serialize_account gob acc ≡ ok bs
      → deserialize_account gob bs ≡ ok (unsigned acc)
  unfolding serialize_account deserialize_account serialize_gob deserialize_gob
  deserialize_account-serialize_account acc bs exact keyed saved =
      ground (arith, exact bs, from_serialized-to_serialized acc keyed)

  -- Gob and the keys of the storages are as Go has them.
  unfoldable pub AllSavable : List (Bytes × Account) → Type 0
  AllSavable [] = Unit
  AllSavable ((addr, acc) ∷ rest) =
      IsExact gob.account (to_serialized acc) × IsKeyed acc.storage × AllSavable rest

  module _ (bolt : Bolt) (law : IsBolt bolt) where
    abbrev account_in : Bytes → bolt.Db → Outcome StoreError (Option Account)
    account_in addr db = get_decoded bolt (deserialize_account gob) (codes "accounts") addr db

    account_in-put :
        (addr : Bytes) (acc : Account) (v : Bytes) (db new : bolt.Db) (j : Bytes)
        → deserialize_account gob v ≡ ok (unsigned acc)
        → put bolt (codes "accounts") addr v db ≡ ok new
        → account_in j new ≡ (if bytes_eq addr j then ok (some (unsigned acc)) else account_in j db)
    unfolding put get_decoded
    account_in-put addr acc v db new j saved step = ground (
      arith,
      law.get-put (codes "accounts") addr v db new (codes "accounts") j,
      bytes_eq_refl (codes "accounts"),
    )

    saved_or : List (Bytes × Account) → Bytes → bolt.Db → Outcome StoreError (Option Account)
    saved_or accounts j db = elim (lookup j accounts) [
      | some acc ↦ ok (some (unsigned acc))
      | none ↦ account_in j db
    ]

    put_accounts_step :
        (addr : Bytes) (acc : Account) (rest : List (Bytes × Account)) (db new : bolt.Db)
        (j : Bytes) (v : Bytes) (stored : Outcome StoreError bolt.Db)
        → AllSavable ((addr, acc) ∷ rest)
        → IsKeyed ((addr, acc) ∷ rest)
        → ((mid : bolt.Db)
            → put_accounts gob bolt rest mid ≡ ok new
            → account_in j new ≡ saved_or rest j mid)
        → serialize_account gob acc ≡ ok v
        → put bolt (codes "accounts") addr v db ≡ stored
        → put_accounts gob bolt ((addr, acc) ∷ rest) db ≡ ok new
        → account_in j new ≡ saved_or ((addr, acc) ∷ rest) j db
    unfolding put_accounts saved_or lookup contains_key IsKeyed AllSavable
    put_accounts_step addr acc rest db new j v (ok mid) exact keyed next e step h = ground (
      arith,
      next mid,
      bytes_eq_iff addr j,
      account_in-put addr acc v db mid j
          (deserialize_account-serialize_account acc v exact.0 exact.1 e) step,
    )
    put_accounts_step addr acc rest db new j v (err x) exact keyed next e step h =
        ground (arith, h, e, step)
    put_accounts_step addr acc rest db new j v panic exact keyed next e step h =
        ground (arith, h, e, step)

    put_accounts_cases :
        (addr : Bytes) (acc : Account) (rest : List (Bytes × Account)) (db new : bolt.Db)
        (j : Bytes) (encoded : Outcome StoreError Bytes)
        → AllSavable ((addr, acc) ∷ rest)
        → IsKeyed ((addr, acc) ∷ rest)
        → ((mid : bolt.Db)
            → put_accounts gob bolt rest mid ≡ ok new
            → account_in j new ≡ saved_or rest j mid)
        → serialize_account gob acc ≡ encoded
        → put_accounts gob bolt ((addr, acc) ∷ rest) db ≡ ok new
        → account_in j new ≡ saved_or ((addr, acc) ∷ rest) j db
    unfolding put_accounts
    put_accounts_cases addr acc rest db new j (ok v) exact keyed next e h =
        put_accounts_step addr acc rest db new j v (put bolt (codes "accounts") addr v db) exact
          keyed next e refl h
    put_accounts_cases addr acc rest db new j (err x) exact keyed next e h = ground (arith, h, e)
    put_accounts_cases addr acc rest db new j panic exact keyed next e h = ground (arith, h, e)

    put_accounts_exact :
        (accounts : List (Bytes × Account)) (db new : bolt.Db) (j : Bytes)
        → AllSavable accounts
        → IsKeyed accounts
        → put_accounts gob bolt accounts db ≡ ok new
        → account_in j new ≡ saved_or accounts j db
    unfolding put_accounts saved_or lookup AllSavable IsKeyed
    put_accounts_exact [] db new j exact keyed h = ground (arith, h)
    put_accounts_exact ((addr, acc) ∷ rest) db new j exact keyed h =
        put_accounts_cases addr acc rest db new j (serialize_account gob acc) exact keyed
          (λ mid. put_accounts_exact rest mid new j exact.2 keyed.1) refl h

    -- With storages and accounts whose keys are distinct, and a codec that decodes what it encodes
    -- of them: after a successful `SaveAllAccounts` each account is loaded as it was, but its
    -- balance and its rent without their signs, and every other address loads what it did before.
    -- After a failed one, all load what they did before.
    pub load_account-save_all_accounts :
        (state : StateDb) (s : Store bolt) (j : Bytes)
        → AllSavable state.accounts
        → IsKeyed state.accounts
        → load_account gob bolt j (save_all_accounts gob bolt state s).1 ≡ (
            if is_ok (save_all_accounts gob bolt state s).0
            then elim (lookup j state.accounts) [
              | some acc ↦ ok (some (unsigned acc))
              | none ↦ load_account gob bolt j s
            ]
            else load_account gob bolt j s)
    unfolding load_account save_all_accounts saved_or
    load_account-save_all_accounts state s j exact keyed =
        look-update bolt (account_in j) (saved_or state.accounts j s.db)
          (put_accounts gob bolt state.accounts) s
          (λ new. put_accounts_exact state.accounts s.db new j exact keyed)
