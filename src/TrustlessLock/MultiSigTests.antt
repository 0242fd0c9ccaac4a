-- ===== src/TrustlessLock/MultiSigTests.antt =====
-- Runs of a multi-signature lock. They read an identifier back from an input, so their digest has the
-- 32 entries of a real one: 31 zeros, and one number for all of the hashed text.
use waychain_consensus.Prelude.{
  ℕ, List, zero, suc, ◌*◌, ◌<◌, bytes_eq_refl, ◌+◌, ◌≡◌, refl, true, false, arith, is_ok, Bytes, [],
  ◌∷◌, ◌++◌, slice, replicate, bytes_eq, lookup_or, be_value, be_from, ◌∙◌, ap,
}
use waychain_consensus.Prelude.Decimal.{decimal}
use waychain_consensus.Hashing.{Sha256}
use waychain_consensus.State.{new_state_db, account_at}
use waychain_consensus.State.Storage.{sload}
use waychain_consensus.Precompile.{be_bytes, read_slot, read_byte, selector_bytes, big_bytes}
use waychain_consensus.TrustlessLock.{
  trustless_lock_slot, encode_lock_header, create_multi_sig_lock, generate_lock_id, release,
  lock_type_multi_sig,
}
use waychain_consensus.TrustlessLock.Release.{lock_slot}
use waychain_consensus.TrustlessLock.Creation.{time_lock_id}
use waychain_consensus.TrustlessLock.MultiSig.{
  LockCall, run, asks_for, any_asks_for, release-run-create_multi_sig_lock,
}
use waychain_consensus.TrustlessLock.Tests.{pool, multi_creation}
use waychain_consensus.TrustlessLock.Header.{create_multi_sig_lock-is_ok}

-- An injective number for a list of numbers: 2^x * (2 * y + 1) pairs the first with the rest.
pair : ℕ → ℕ → ℕ
pair zero y = 2 * y + 1
pair (suc x) y = 2 * pair x y

pair-injective : (x y x' y' : ℕ) → pair x y ≡ pair x' y' → (x ≡ x') × (y ≡ y')
unfolding pair
pair-injective zero y zero y' e = (refl, omega arith)
pair-injective zero y (suc x') y' e = omega arith
pair-injective (suc x) y zero y' e = omega arith
pair-injective (suc x) y (suc x') y' e = ground (arith, pair-injective x y x' y')

pair-positive : (x y : ℕ) → 0 < pair x y
unfolding pair
pair-positive zero y = omega arith
pair-positive (suc x) y = omega (arith, pair-positive x y)

pack : Bytes → ℕ
unfolding pair
pack [] = 0
pack (x ∷ xs) = pair x (pack xs)

pack-injective : (xs ys : Bytes) → pack xs ≡ pack ys → xs ≡ ys
unfolding pack
pack-injective [] [] e = refl
pack-injective [] (y ∷ ys) e = ground (arith, pair-positive y (pack ys))
pack-injective (x ∷ xs) [] e = ground (arith, pair-positive x (pack xs))
pack-injective (x ∷ xs) (y ∷ ys) e =
    let same = pair-injective x (pack xs) y (pack ys) e in
    ap (λ z. z ∷ xs) same.0 ∙ ap (λ zs. y ∷ zs) (pack-injective xs ys same.1)

abbrev digest : Bytes → Bytes
digest bs = replicate 31 0 ++ pack bs ∷ []

digest-injective : (a b : Bytes) → digest a ≡ digest b → a ≡ b
unfolding read_byte
digest-injective a b e = pack-injective a b (ap (λ bs. read_byte bs 31) e)

instance abbrev packed_digest : Sha256
packed_digest = record { sum256 = digest; collision_free = digest-injective }

-- The identifier of a multi-signature lock, and what is tried on it: an extension, a release, a query,
-- and a time lock on another amount in the same block.
abbrev multi_id : Bytes
multi_id = time_lock_id multi_creation 10

abbrev attempts : List LockCall
attempts =
    record { input = 167 ∷ 184 ∷ 201 ∷ 208 ∷ (multi_id ++ be_bytes 32 40); caller = []; block = 11 }
    ∷ record { input = 246 ∷ 167 ∷ 184 ∷ 201 ∷ multi_id; caller = pool; block = 12 }
    ∷ record { input = 212 ∷ 229 ∷ 246 ∷ 167 ∷ multi_id; caller = []; block = 13 }
    ∷ record {
      input =
          161
          ∷ 178
          ∷ 195
          ∷ 212
          ∷ (pool ++ pool ++ pool ++ be_bytes 32 6 ++ be_bytes 32 2592000 ++ pool);
      caller = [];
      block = 10;
    }
    ∷ []

multi_created : is_ok (create_multi_sig_lock multi_creation [] 10 new_state_db).0 ≡ true
unfolding lock_slot sload account_at lookup_or read_byte be_bytes
multi_created = create_multi_sig_lock-is_ok multi_creation [] 10 new_state_db (omega arith)

attempts_apart : any_asks_for multi_id attempts ≡ false
unfolding any_asks_for asks_for time_lock_id generate_lock_id bytes_eq be_value be_from be_bytes
    read_slot selector_bytes big_bytes decimal pack pair
attempts_apart = refl

abbrev multi_request : Bytes
multi_request = 246 ∷ 167 ∷ 184 ∷ 201 ∷ multi_id

release-run-create_multi_sig_lock_example :
    (is_ok
        (release multi_request pool 5000
          (run attempts (create_multi_sig_lock multi_creation [] 10 new_state_db).1)).0
      ≡ false)
    × (lock_slot
          (trustless_lock_slot (time_lock_id multi_creation 10))
          (run attempts (create_multi_sig_lock multi_creation [] 10 new_state_db).1)
        ≡ encode_lock_header
            (slice multi_creation 4 24)
            (read_slot multi_creation 64)
            lock_type_multi_sig
            (slice multi_creation 97 117)
            (read_byte multi_creation 96)
            10)
unfolding be_value be_from read_byte time_lock_id generate_lock_id bytes_eq read_slot be_bytes
release-run-create_multi_sig_lock_example =
    release-run-create_multi_sig_lock multi_creation [] 10 new_state_db attempts multi_request pool
      5000 (omega arith) (omega arith) multi_created attempts_apart (bytes_eq_refl multi_id)
