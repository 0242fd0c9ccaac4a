-- ===== src/Governance/Finalizing.antt =====
-- What closing a proposal does.
use waychain_consensus.Prelude.{
  ℕ, ◌/◌, ◌%◌, ◌^◌, ◌≡◌, refl, Bool, true, false, arith, if◌then◌else◌, Bytes, bytes_eq,
  bytes_eq_refl, [], ◌∷◌, ok, is_ok, leb, ◌==◌, not, ◌&&◌, length, slice, codes, Bool-cases, inl,
  inr,
}
use waychain_consensus.Hashing.{Sha256}
use waychain_consensus.State.{StateDb, touch, add_log}
use waychain_consensus.Precompile.{storage_key, bool_result, be_bytes}
use waychain_consensus.State.Storage.{sload}
use waychain_consensus.Governance.{
  governance_addr, first_of, second_of, with_second, proposal_slot, votes_slot, no_votes_slot,
  calldata_slot, is_passed, status_active, status_passed, status_failed, active_proposal,
  set_inflation, close_proposal, gov_finalize,
}
use waychain_consensus.Governance.Slots.{
  slot, put, slot-put, slot-touch, slot-add_log, second_of-with_second,
}

module _ ⦃h : Sha256⦄ where
  -- The proposal that an input names can be closed.
  unfoldable pub is_open : Bytes → StateDb → Bool
  is_open input s =
      leb 36 (length input)
      && not (slot (proposal_slot (slice input 4 36)) s == 0)
      && (second_of (slot (proposal_slot (slice input 4 36)) s) == status_active)

  -- Whether the votes recorded for it let it pass.
  unfoldable pub passes : Bytes → StateDb → Bool
  passes id s =
      is_passed (first_of (slot (proposal_slot id) s)) (slot (votes_slot id) s)
        (slot (no_votes_slot id) s)

  set_inflation-kept :
      (applied : ℕ → ℕ) (id : Bytes) (v : ℕ) (passed : Bool) (block : ℕ) (s : StateDb) (k : Bytes)
      → (is_ok (set_inflation applied id v passed block s).0 ≡ true)
        × (slot k (set_inflation applied id v passed block s).1 ≡ slot k s)
  unfolding set_inflation
  set_inflation-kept applied id v passed block s k = ground (
    arith,
    slot-add_log k governance_addr (storage_key (codes "InflationSet") ∷ id ∷ [])
        (be_bytes 32
          (applied (sload governance_addr (storage_key (calldata_slot id)) s / 2 ^ 224 % 2 ^ 32)))
        block s,
  )

  close_proposal-state :
      (id : Bytes) (v : ℕ) (passed : Bool) (block : ℕ) (s : StateDb)
      → close_proposal id v passed block s ≡ (
        ok (bool_result passed),
        add_log governance_addr
            (storage_key (codes "ProposalFinalized") ∷ id ∷ [])
            ((if passed then 1 else 0) ∷ [])
            block
            (put
              (proposal_slot id)
              (with_second v (if passed then status_passed else status_failed))
              s),
      )
  unfolding close_proposal put
  close_proposal-state id v passed block s = refl

  gov_finalize_refused :
      (applied : ℕ → ℕ) (input : Bytes) (block : ℕ) (s : StateDb) (k : Bytes)
      → is_open input s ≡ false
      → (is_ok (gov_finalize applied input block s).0 ≡ false)
        × (slot k (gov_finalize applied input block s).1 ≡ slot k s)
  unfolding gov_finalize active_proposal is_open slot
  gov_finalize_refused applied input block s k closed =
      ground (arith, slot-touch k s, slot-touch (proposal_slot (slice input 4 36)) s)

  module _ (applied : ℕ → ℕ) (input : Bytes) (block : ℕ) (s : StateDb) where
    before : ℕ
    before = slot (proposal_slot (slice input 4 36)) s

    -- The state when the proposal is closed.
    at_close : StateDb
    unfolding before
    at_close =
        (set_inflation applied (slice input 4 36) before (passes (slice input 4 36) s) block
          (touch governance_addr s)).1

    gov_finalize-state :
        is_open input s ≡ true
        → ((gov_finalize applied input block s).1
            ≡ (close_proposal
                (slice input 4 36)
                before
                (passes (slice input 4 36) s)
                block
                at_close).1)
          × (is_ok (gov_finalize applied input block s).0 ≡ true)
    unfolding gov_finalize active_proposal is_open slot before at_close passes
    gov_finalize-state ready = ground (
      arith,
      slot-touch (proposal_slot (slice input 4 36)) s,
      slot-touch (votes_slot (slice input 4 36)) s,
      slot-touch (no_votes_slot (slice input 4 36)) s,
      close_proposal-state (slice input 4 36) before (passes (slice input 4 36) s) block at_close,
      (set_inflation-kept applied (slice input 4 36) before (passes (slice input 4 36) s) block
          (touch governance_addr s) []).0,
    )

    slot-closed :
        (k : Bytes)
        → is_open input s ≡ true
        → slot k (gov_finalize applied input block s).1 ≡ (
            if bytes_eq (proposal_slot (slice input 4 36)) k
            then with_second before
                (if passes (slice input 4 36) s then status_passed else status_failed)
            else slot k s)
    unfolding at_close
    slot-closed k ready = ground (
      arith,
      (gov_finalize-state ready).0,
      close_proposal-state (slice input 4 36) before (passes (slice input 4 36) s) block at_close,
      slot-add_log k governance_addr
          (storage_key (codes "ProposalFinalized") ∷ slice input 4 36 ∷ [])
          ((if passes (slice input 4 36) s then 1 else 0) ∷ []) block
          (put (proposal_slot (slice input 4 36))
            (with_second before
              (if passes (slice input 4 36) s then status_passed else status_failed))
            at_close),
      slot-put k (proposal_slot (slice input 4 36))
          (with_second before
            (if passes (slice input 4 36) s then status_passed else status_failed))
          at_close,
      (set_inflation-kept applied (slice input 4 36) before (passes (slice input 4 36) s) block
          (touch governance_addr s) k).1,
      slot-touch k s,
    )

    -- A proposal is closed exactly when the input is long enough and the proposal is there and
    -- active, whoever asks at whatever block. Its status then says whether the percentage in
    -- favour, rounded down, exceeds the threshold of its type; no other slot of the account
    -- changes. A refusal changes none.
    pub gov_finalize_exact :
        let id = slice input 4 36 in
        let r = gov_finalize applied input block s in
        (is_ok r.0 ≡ is_open input s)
        × (slot (proposal_slot id) r.1 ≡ (
            if is_open input s
            then with_second
                (slot (proposal_slot id) s)
                (if passes id s then status_passed else status_failed)
            else slot (proposal_slot id) s))
        × ((k : Bytes) → bytes_eq (proposal_slot id) k ≡ false → slot k r.1 ≡ slot k s)
    unfolding before
    gov_finalize_exact = elim (Bool-cases (is_open input s)) [
      | inl ready ↦ (
        ground (arith, (gov_finalize-state ready).1),
        ground (
          arith,
          slot-closed (proposal_slot (slice input 4 36)) ready,
          bytes_eq_refl (proposal_slot (slice input 4 36)),
        ),
        λ k other. ground (arith, slot-closed k ready),
      )
      | inr closed ↦ (
        ground (arith, (gov_finalize_refused applied input block s [] closed).0),
        ground (
          arith,
          (gov_finalize_refused applied input block s (proposal_slot (slice input 4 36)) closed).1,
        ),
        λ k other. (gov_finalize_refused applied input block s k closed).1,
      )
    ]

  -- x
  pub gov_finalize_once :
      (applied : ℕ → ℕ) (input : Bytes) (block later : ℕ) (s : StateDb)
      → is_open input s ≡ true
      → is_ok (gov_finalize applied input later (gov_finalize applied input block s).1).0 ≡ false
  unfolding is_open
  gov_finalize_once applied input block later s ready = ground (
    arith,
    (gov_finalize_exact applied input later (gov_finalize applied input block s).1).0,
    (gov_finalize_exact applied input block s).1,
    second_of-with_second (slot (proposal_slot (slice input 4 36)) s) status_passed (omega arith),
    second_of-with_second (slot (proposal_slot (slice input 4 36)) s) status_failed (omega arith),
  )
