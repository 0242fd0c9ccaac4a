-- ===== src/BitcoinRegistry/Committing.antt =====
-- What an attestation of a commitment does, and what the same attestation does again.
use waychain_consensus.Prelude.{
  ℕ, zero, suc, ◌+◌, ◌*◌, ◌%◌, ◌^◌, ◌<◌, ◌≤◌, ◌≡◌, ap, false, [], ◌∷◌, ok, if◌then◌else◌, Bytes,
  length, slice, bytes_eq, bytes_eq_refl, bytes_eq_iff, arith,
}
use waychain_consensus.Hashing.{Sha256, bytes_eq-sum256}
use waychain_consensus.State.{StateDb}
use waychain_consensus.State.Storage.{sload, sstore, sload-sstore}
use waychain_consensus.Precompile.{read_slot, read_address}
use waychain_consensus.BitcoinRegistry.{
  registry_addr, total_committed, with_owner, balance_key, utxo_key, credit, credit_new,
  attest_commitment,
}

-- The slot of a key of the registry.
unfoldable pub at : Bytes → StateDb → ℕ
at key s = sload registry_addr key s

put : Bytes → ℕ → StateDb → StateDb
put key v s = sstore registry_addr key v s

at-put :
    (k j : Bytes) (v : ℕ) (s : StateDb) → at k (put j v s) ≡ (if bytes_eq j k then v else at k s)
unfolding at put
at-put k j v s =
    ground (arith, sload-sstore registry_addr k registry_addr j v s, bytes_eq_refl registry_addr)

keys_differ :
    ⦃h : Sha256⦄ (utxo target : Bytes) → bytes_eq (balance_key target) (utxo_key utxo) ≡ false
unfolding bytes_eq
keys_differ utxo target = bytes_eq-sum256 (16 ∷ target) (32 ∷ utxo)

bytes_eq_sym : (xs ys : Bytes) → bytes_eq xs ys ≡ false → bytes_eq ys xs ≡ false
bytes_eq_sym xs ys h = ground (arith, h, bytes_eq_iff xs ys, bytes_eq_iff ys xs)

module _ ⦃h : Sha256⦄ (utxo target : Bytes) (amount : ℕ) where
  credited : StateDb → StateDb
  credited s = put total_committed (at total_committed s + amount) (
      put (utxo_key utxo) (with_owner target (at (utxo_key utxo) s))
        (put (balance_key target) (at (balance_key target) s + amount) s))

  module _ (s : StateDb) (apart : bytes_eq (balance_key target) total_committed ≡ false)
      (apart' : bytes_eq (utxo_key utxo) total_committed ≡ false) where
    kept_owner :
        (v : ℕ)
        → sload registry_addr (utxo_key utxo) (sstore registry_addr (balance_key target) v s)
          ≡ sload registry_addr (utxo_key utxo) s
    kept_owner v = ground (
      arith,
      sload-sstore registry_addr (utxo_key utxo) registry_addr (balance_key target) v s,
      keys_differ utxo target,
      bytes_eq_refl registry_addr,
    )

    kept_total :
        (v w : ℕ)
        → sload registry_addr total_committed
            (sstore registry_addr (utxo_key utxo) w (sstore registry_addr (balance_key target) v s))
          ≡ sload registry_addr total_committed s
    kept_total v w = ground (
      arith,
      sload-sstore registry_addr total_committed registry_addr (balance_key target) v s,
      sload-sstore registry_addr total_committed registry_addr (utxo_key utxo) w
          (sstore registry_addr (balance_key target) v s),
      apart,
      apart',
      bytes_eq_refl registry_addr,
    )

    credit-credited :
        at (balance_key target) s + amount < 2 ^ 256
        → at total_committed s + amount < 2 ^ 256
        → credit utxo target amount s ≡ (ok (1 ∷ []), credited s)
    unfolding credit credited at put
    credit-credited room room' = ground (
      arith,
      room,
      room',
      kept_owner (sload registry_addr (balance_key target) s + amount),
      kept_total (sload registry_addr (balance_key target) s + amount)
          (with_owner target (sload registry_addr (utxo_key utxo) s)),
    )

    at-credited :
        (at (balance_key target) (credited s) ≡ at (balance_key target) s + amount)
        × (at total_committed (credited s) ≡ at total_committed s + amount)
        × (at (utxo_key utxo) (credited s) ≡ with_owner target (at (utxo_key utxo) s))
    unfolding credited
    at-credited = (
      simp (
        at-put,
        bytes_eq_sym _ _ apart,
        bytes_eq_sym _ _ (keys_differ utxo target),
        bytes_eq_refl,
      ),
      simp (at-put, bytes_eq_refl),
      simp (at-put, bytes_eq_sym _ _ apart', bytes_eq_refl),
    )

module _ ⦃h : Sha256⦄ (input : Bytes) where
  abbrev pub amount_of : ℕ
  amount_of = read_slot input 36

  abbrev pub user_key : Bytes
  user_key = balance_key (read_address input 68)

  abbrev pub output_key : Bytes
  output_key = utxo_key (slice input 4 36)

  -- The state after so many calls with this input.
  unfoldable pub delivered : ℕ → StateDb → StateDb
  delivered zero s = s
  delivered (suc n) s = (attest_commitment input (delivered n s)).1

  -- The output's slot does not end in a number other than zero, and no two of the slots are one.
  pub record IsCreditable (s : StateDb) : Type 0 where
    pub long : 88 ≤ length input
    pub not_low : 10000 ≤ amount_of
    pub not_high : amount_of ≤ 100000000
    pub free : at output_key s % 2 ^ 64 ≡ 0
    pub apart : bytes_eq user_key total_committed ≡ false
    pub apart' : bytes_eq output_key total_committed ≡ false

  attest_commitment-credited :
      (s : StateDb)
      → IsCreditable s
      → at user_key s + amount_of < 2 ^ 256
      → at total_committed s + amount_of < 2 ^ 256
      → attest_commitment input s
        ≡ (ok (1 ∷ []), credited (slice input 4 36) (read_address input 68) amount_of s)
  unfolding attest_commitment credit_new at
  attest_commitment-credited s c room room' = ground (
    arith,
    c.long,
    c.not_low,
    c.not_high,
    c.free,
    credit-credited (slice input 4 36) (read_address input 68) amount_of s c.apart c.apart' room
        room',
  )

  with_owner-low : (owner : Bytes) (slot : ℕ) → with_owner owner slot % 2 ^ 64 ≡ slot % 2 ^ 64
  unfolding with_owner
  with_owner-low owner slot = omega arith

  -- What so many calls have credited, and that the check of the output lets the next one pass.
  IsCredited : ℕ → StateDb → Type 0
  IsCredited n s =
      (at user_key (delivered n s) ≡ at user_key s + n * amount_of)
      × (at total_committed (delivered n s) ≡ at total_committed s + n * amount_of)
      × (at output_key (delivered n s) % 2 ^ 64 ≡ 0)

  step-credited :
      (n : ℕ) (s : StateDb)
      → IsCreditable s
      → at user_key s + suc n * amount_of < 2 ^ 256
      → at total_committed s + suc n * amount_of < 2 ^ 256
      → IsCredited n s
      → attest_commitment input (delivered n s) ≡ (
        ok (1 ∷ []),
        credited (slice input 4 36) (read_address input 68) amount_of (delivered n s),
      )
  unfolding IsCredited
  step-credited n s c room room' before =
      attest_commitment-credited (delivered n s)
        (record {
          long = c.long;
          not_low = c.not_low;
          not_high = c.not_high;
          free = before.2;
          apart = c.apart;
          apart' = c.apart';
        })
        (omega (arith, before.0, room)) (omega (arith, before.1, room'))

  delivered-IsCredited :
      (n : ℕ) (s : StateDb)
      → IsCreditable s
      → at user_key s + n * amount_of < 2 ^ 256
      → at total_committed s + n * amount_of < 2 ^ 256
      → IsCredited n s
  unfolding IsCredited delivered
  delivered-IsCredited zero s c room room' = (omega arith, omega arith, c.free)
  delivered-IsCredited (suc n) s c room room' =
      let before = delivered-IsCredited n s c (omega (arith, room)) (omega (arith, room')) in
      let step = ap (λ r. r.1) (step-credited n s c room room' before) in
      let now =
        at-credited (slice input 4 36) (read_address input 68) amount_of (delivered n s) c.apart
          c.apart' in
      (
        omega (arith, ap (at user_key) step, now.0, before.0),
        omega (arith, ap (at total_committed) step, now.1, before.1),
        omega (
          arith,
          ap (at output_key) step,
          now.2,
          before.2,
          with_owner-low (read_address input 68) (at output_key (delivered n s)),
        ),
      )

  -- An attestation that is long enough, with an amount from 10000 to 100000000 and an output whose
  -- slot ends in eight zero bytes, is accepted as often as it is delivered: the delivery after any
  -- n others is accepted, and the user's balance and the total then have grown by n + 1 times the
  -- amount. Both stay below 2^256, and neither the user's slot nor the output's is that of the
  -- total.
  pub attest_again :
      (n : ℕ) (s : StateDb)
      → IsCreditable s
      → at user_key s + suc n * amount_of < 2 ^ 256
      → at total_committed s + suc n * amount_of < 2 ^ 256
      → ((attest_commitment input (delivered n s)).0 ≡ ok (1 ∷ []))
        × (at user_key (delivered (suc n) s) ≡ at user_key s + suc n * amount_of)
        × (at total_committed (delivered (suc n) s) ≡ at total_committed s + suc n * amount_of)
  unfolding IsCredited
  attest_again n s c room room' =
      let before = delivered-IsCredited n s c (omega (arith, room)) (omega (arith, room')) in
      let after = delivered-IsCredited (suc n) s c room room' in
      (ap (λ r. r.0) (step-credited n s c room room' before), after.0, after.1)
