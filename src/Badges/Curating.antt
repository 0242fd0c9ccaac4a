-- ===== src/Badges/Curating.antt =====
-- Which calls of the badges can make a caller a curator.
use waychain_consensus.Prelude.{
  ℕ, ◌+◌, ◌-◌, ◌≡◌, ◌≢◌, refl, ap, ◌∙◌, false, List, [], ◌∷◌, ◌==◌, Bytes, length, slice, take,
  drop, be_value, ◌*◌, ◌%◌, ◌^◌, bytes_eq, bytes_eq_iff, arith,
}
use waychain_consensus.Hashing.{Sha256, bytes_eq-sum256}
use waychain_consensus.State.{StateDb, touch}
use waychain_consensus.State.Storage.{sload, sstore, sload-sstore, sload-touch}
use waychain_consensus.Precompile.{read_address, read_byte, read_uint64, storage_key}
use waychain_consensus.Precompile.Laws.{length-take_enough, length-drop_enough}
use waychain_consensus.Badges.{
  revoked, with_level, low_uint64, badges_addr, total_badges, curator_count, badge_key, token_key,
  curator_key, as_curator, write_badge, issue_badge, revoke_badge, upgrade_badge, add_curator,
  remove_curator, dox_apply, dox_dev_badge_precompile,
}

length-read_address : (input : Bytes) (offset : ℕ) → length (read_address input offset) ≡ 20
unfolding read_address
length-read_address input offset = ground (
  arith,
  length-take_enough 20 (drop offset input),
  length-drop_enough offset input,
  ap (λ n. length (take n (drop offset input))) {x = offset + 20 - offset} {y = 20} (omega arith),
)

-- A call of the precompile, and the state after some calls.
pub record BadgeCall : Type 0 where
  pub input : Bytes
  pub caller : Bytes
  pub block : ℕ

unfoldable pub run : ⦃h : Sha256⦄ → List BadgeCall → StateDb → StateDb
run [] s = s
run (c ∷ cs) s = run cs (dox_dev_badge_precompile c.input c.caller c.block s).1

module _ ⦃h : Sha256⦄ (who : Bytes) (apart : bytes_eq total_badges (curator_key who) ≡ false)
    (apart' : bytes_eq curator_count (curator_key who) ≡ false) (text : length who ≢ 20) where
  -- The caller's flag in the account of the badges.
  curator : StateDb → ℕ
  curator s = sload badges_addr (curator_key who) s

  kept :
      (j : Bytes) (v : ℕ) (s : StateDb)
      → bytes_eq j (curator_key who) ≡ false
      → curator (sstore badges_addr j v s) ≡ curator s
  unfolding curator
  kept j v s other =
      ground (arith, other, sload-sstore badges_addr (curator_key who) badges_addr j v s)

  hashed_apart :
      (b : ℕ) (bs : Bytes)
      → (b == 48) ≡ false
      → bytes_eq (storage_key (b ∷ bs)) (curator_key who) ≡ false
  unfolding bytes_eq
  hashed_apart b bs other = ground (arith, other, bytes_eq-sum256 (b ∷ bs) (48 ∷ who))

  address_apart :
      (input : Bytes) (offset : ℕ)
      → bytes_eq (curator_key (read_address input offset)) (curator_key who) ≡ false
  unfolding bytes_eq
  address_apart input offset = ground (
    arith,
    bytes_eq-sum256 (48 ∷ read_address input offset) (48 ∷ who),
    bytes_eq_iff (read_address input offset) who,
    ap length {x = read_address input offset} {y = who},
    length-read_address input offset,
    text,
  )

  write_badge-kept :
      (target : Bytes) (level validity block : ℕ) (s : StateDb)
      → curator (write_badge target level validity block s).1 ≡ curator s
  unfolding write_badge token_key
  write_badge-kept target level validity block s =
      kept _ _ _ (hashed_apart 32 _ refl)
      ∙ kept _ _ _ (hashed_apart 16 target refl)
      ∙ kept _ _ _ apart

  issue_badge-kept :
      (input caller : Bytes) (block : ℕ) (s : StateDb)
      → curator (issue_badge input caller block s).1 ≡ curator s
  unfolding issue_badge as_curator
  issue_badge-kept input caller block s = ground (
    arith,
    write_badge-kept (read_address input 4) (read_byte input 24) (read_uint64 input 25) block s,
  )

  revoke_badge-kept :
      (input caller : Bytes) (s : StateDb) → curator (revoke_badge input caller s).1 ≡ curator s
  unfolding revoke_badge as_curator
  revoke_badge-kept input caller s = ground (
    arith,
    kept (badge_key (read_address input 4))
        (revoked (sload badges_addr (badge_key (read_address input 4)) s)) s
        (hashed_apart 16 (read_address input 4) refl),
  )

  upgrade_badge-kept :
      (input caller : Bytes) (s : StateDb) → curator (upgrade_badge input caller s).1 ≡ curator s
  unfolding upgrade_badge as_curator
  upgrade_badge-kept input caller s = ground (
    arith,
    kept (badge_key (read_address input 4))
        (with_level (sload badges_addr (badge_key (read_address input 4)) s) (read_byte input 24)) s
        (hashed_apart 16 (read_address input 4) refl),
  )

  -- A flag under an address, and then the count.
  kept_twice :
      (input : Bytes) (v w : ℕ) (s : StateDb)
      → curator (
          sstore badges_addr curator_count w
            (sstore badges_addr (curator_key (read_address input 4)) v s))
        ≡ curator s
  kept_twice input v w s = kept _ _ _ apart' ∙ kept _ _ _ (address_apart input 4)

  add_curator-kept :
      (input caller : Bytes) (s : StateDb) → curator (add_curator input caller s).1 ≡ curator s
  unfolding add_curator as_curator
  add_curator-kept input caller s = ground (
    arith,
    kept_twice input 1
        ((low_uint64 (
              sload badges_addr curator_count
                (sstore badges_addr (curator_key (read_address input 4)) 1 s))
            + 1)
          % 2 ^ 64)
        s,
  )

  remove_curator-kept :
      (input caller : Bytes) (s : StateDb) → curator (remove_curator input caller s).1 ≡ curator s
  unfolding remove_curator as_curator
  remove_curator-kept input caller s = ground (
    arith,
    kept (curator_key (read_address input 4)) 0 s (address_apart input 4),
    kept_twice input 0
        (low_uint64 (
            sload badges_addr curator_count
              (sstore badges_addr (curator_key (read_address input 4)) 0 s))
          - 1)
        s,
  )

  dox_apply-kept :
      (input caller : Bytes) (s : StateDb) → curator (dox_apply input caller s).1 ≡ curator s
  unfolding dox_apply
  dox_apply-kept input caller s = ground (
    arith,
    applied (be_value (read_address input 68) * 2 ^ 80) (be_value (slice input 4 36))
        (be_value (slice input 36 68)),
  )
    where
      applied :
          (a b c : ℕ)
          → curator (
              sstore badges_addr (storage_key (66 ∷ caller)) c (
                sstore badges_addr
                  (storage_key (65 ∷ caller))
                  b
                  (sstore badges_addr (storage_key (64 ∷ caller)) a s)))
            ≡ curator s
      applied a b c =
          kept _ _ _ (hashed_apart 66 caller refl)
          ∙ kept _ _ _ (hashed_apart 65 caller refl)
          ∙ kept _ _ _ (hashed_apart 64 caller refl)

  opened : (s : StateDb) → curator (touch badges_addr s) ≡ curator s
  unfolding curator
  opened s = sload-touch badges_addr (curator_key who) badges_addr s

  -- One call, whatever it is, leaves the flag alone.
  call-kept :
      (input caller : Bytes) (block : ℕ) (s : StateDb)
      → curator (dox_dev_badge_precompile input caller block s).1 ≡ curator s
  unfolding dox_dev_badge_precompile
  call-kept input caller block s =
      let t = touch badges_addr s in
      ground (
        arith,
        opened s,
        issue_badge-kept input caller block t,
        revoke_badge-kept input caller t,
        upgrade_badge-kept input caller t,
        add_curator-kept input caller t,
        remove_curator-kept input caller t,
        dox_apply-kept input caller t,
      )

  -- No sequence of calls of the badges, by whomever, changes the curator's flag of a caller whose
  -- text has another length than 20, where neither the number of badges nor that of curators is
  -- kept in the slot of the flag. The text of an address has 40 characters.
  pub run-curator_key :
      (cs : List BadgeCall) (s : StateDb)
      → sload badges_addr (curator_key who) (run cs s) ≡ sload badges_addr (curator_key who) s
  unfolding run curator
  run-curator_key [] s = refl
  run-curator_key (c ∷ cs) s =
      run-curator_key cs (dox_dev_badge_precompile c.input c.caller c.block s).1
      ∙ call-kept c.input c.caller c.block s
