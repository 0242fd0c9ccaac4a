-- ===== src/Governance/Voting.antt =====
-- What a vote does to the counts.
use waychain_consensus.Prelude.{
  ℕ, ◌+◌, ◌*◌, ◌-◌, ◌^◌, ◌≡◌, Bool, true, false, arith, if◌then◌else◌, Bytes, bytes_eq,
  bytes_eq_refl, bytes_eq_iff, ◌∙◌, [], ◌∷◌, ok, is_ok, is_panic, leb, ◌==◌, not, ◌&&◌, ◌||◌,
  length, slice, codes, Bool-cases, inl, inr,
}
use waychain_consensus.Hashing.{Sha256}
use waychain_consensus.State.{StateDb, touch}
use waychain_consensus.Precompile.{storage_key, read_byte, read_slot}
use waychain_consensus.Governance.{
  governance_addr, first_of, second_of, proposal_slot, votes_slot, no_votes_slot, vote_record_slot,
  credits_slot, status_active, vote_type_quadratic, active_proposal, count_vote, pay_credits,
  record_vote, gov_vote,
}
use waychain_consensus.Governance.Slots.{slot, put, slot-put, slot-touch, slot-add_log}

module _ ⦃h : Sha256⦄ where
  -- A vote counted.
  unfoldable pub counted : Bytes → ℕ → StateDb → StateDb
  counted id direction s =
      if direction == 1
      then put (votes_slot id) (slot (votes_slot id) s + 1) s
      else put (votes_slot id) (slot (votes_slot id) s)
          (put (no_votes_slot id) (slot (no_votes_slot id) s + 1) s)

  count_vote-state :
      (id : Bytes) (direction : ℕ) (s : StateDb)
      → is_panic (count_vote id direction s).0 ≡ false
      → count_vote id direction s ≡ (ok tt, counted id direction s)
  unfolding count_vote counted slot put
  count_vote-state id direction s calm = ground arith

  slot-counted :
      (k id : Bytes) (direction : ℕ) (s : StateDb)
      → slot k (counted id direction s) ≡ (
          if bytes_eq (votes_slot id) k
          then (if direction == 1 then slot (votes_slot id) s + 1 else slot (votes_slot id) s)
          else if bytes_eq (no_votes_slot id) k
          then (if direction == 1 then slot k s else slot (no_votes_slot id) s + 1)
          else slot k s)
  unfolding counted
  slot-counted k id direction s = ground (
    arith,
    slot-put k (votes_slot id) (slot (votes_slot id) s + 1) s,
    slot-put k (votes_slot id) (slot (votes_slot id) s)
        (put (no_votes_slot id) (slot (no_votes_slot id) s + 1) s),
    slot-put k (no_votes_slot id) (slot (no_votes_slot id) s + 1) s,
  )

  -- Whether the credits of a caller pay a vote.
  abbrev pub affords : ℕ → Bytes → ℕ → StateDb → Bool
  affords vote_type caller credits s =
      not (vote_type == vote_type_quadratic) || leb credits (slot (credits_slot caller) s)

  pay_credits-kept :
      (vote_type : ℕ) (caller : Bytes) (credits : ℕ) (s : StateDb) (k : Bytes)
      → (is_ok (pay_credits vote_type caller credits s).0 ≡ affords vote_type caller credits s)
        × (is_panic (pay_credits vote_type caller credits s).0 ≡ false)
        × (bytes_eq (credits_slot caller) k ≡ false
            → slot k (pay_credits vote_type caller credits s).1 ≡ slot k s)
  unfolding pay_credits slot put
  pay_credits-kept vote_type caller credits s k = (
    ground arith,
    ground arith,
    λ other.
        ground (arith, slot-put k (credits_slot caller) (slot (credits_slot caller) s - credits) s),
  )

  module _ (input caller : Bytes) (s : StateDb) where
    -- The vote that an input casts can be recorded: on an active proposal, with no vote on record.
    unfoldable pub can_vote : Bool
    can_vote =
        leb 69 (length input)
        && not (slot (proposal_slot (slice input 4 36)) s == 0)
        && (second_of (slot (proposal_slot (slice input 4 36)) s) == status_active)
        && (slot (vote_record_slot (slice input 4 36) caller) s == 0)

    vote_type : ℕ
    vote_type = first_of (slot (proposal_slot (slice input 4 36)) s)

    -- The state with the vote on record, and counted.
    marked : StateDb
    marked =
        put (vote_record_slot (slice input 4 36) caller)
          (read_byte input 36 * 2 ^ 248 + read_slot input 37) (touch governance_addr s)

    tallied : StateDb
    tallied = counted (slice input 4 36) (read_byte input 36) marked

    gov_vote_unready :
        (k : Bytes)
        → can_vote ≡ false
        → (is_ok (gov_vote input caller s).0 ≡ false)
          × (slot k (gov_vote input caller s).1 ≡ slot k s)
    unfolding gov_vote active_proposal record_vote can_vote slot
    gov_vote_unready k unready = ground (
      arith,
      slot-touch k s,
      slot-touch (proposal_slot (slice input 4 36)) s,
      slot-touch (vote_record_slot (slice input 4 36) caller) s,
    )

    record_vote-state :
        can_vote ≡ true
        → is_panic (gov_vote input caller s).0 ≡ false
        → gov_vote input caller s
          ≡ record_vote
              (slice input 4 36)
              caller
              (slot (proposal_slot (slice input 4 36)) s)
              (read_byte input 36)
              (read_slot input 37)
              (touch governance_addr s)
    unfolding gov_vote active_proposal can_vote slot
    record_vote-state ready calm = ground (arith, slot-touch (proposal_slot (slice input 4 36)) s)

    record_vote-tallied :
        can_vote ≡ true
        → is_panic (gov_vote input caller s).0 ≡ false
        → (k : Bytes)
        → (is_ok (gov_vote input caller s).0
            ≡ affords vote_type caller (read_slot input 37) tallied)
          × (slot k (gov_vote input caller s).1
              ≡ slot k (pay_credits vote_type caller (read_slot input 37) tallied).1)
    unfolding record_vote can_vote slot put marked tallied vote_type
    record_vote-tallied ready calm k = ground (
      arith,
      record_vote-state ready calm,
      slot-touch (vote_record_slot (slice input 4 36) caller) s,
      count_vote-state (slice input 4 36) (read_byte input 36) marked,
      (pay_credits-kept vote_type caller (read_slot input 37) tallied k).0,
      (pay_credits-kept vote_type caller (read_slot input 37) tallied k).1,
      slot-add_log k governance_addr (storage_key (codes "VoteCast") ∷ slice input 4 36 ∷ [])
          (read_byte input 36 ∷ []) 0 (pay_credits vote_type caller (read_slot input 37) tallied).1,
    )

    slot-tallied :
        (k : Bytes)
        → slot k tallied ≡ (
            if bytes_eq (votes_slot (slice input 4 36)) k
            then (if read_byte input 36 == 1
                then slot (votes_slot (slice input 4 36)) s + 1
                else slot (votes_slot (slice input 4 36)) s)
            else if bytes_eq (no_votes_slot (slice input 4 36)) k
            then (if read_byte input 36 == 1
                then slot k s
                else slot (no_votes_slot (slice input 4 36)) s + 1)
            else if bytes_eq (vote_record_slot (slice input 4 36) caller) k
            then read_byte input 36 * 2 ^ 248 + read_slot input 37
            else slot k s)
    unfolding tallied marked bytes_eq
    slot-tallied k = ground (
      arith,
      slot-counted k (slice input 4 36) (read_byte input 36) marked,
      slot-put k (vote_record_slot (slice input 4 36) caller)
          (read_byte input 36 * 2 ^ 248 + read_slot input 37) (touch governance_addr s),
      slot-put (votes_slot (slice input 4 36)) (vote_record_slot (slice input 4 36) caller)
          (read_byte input 36 * 2 ^ 248 + read_slot input 37) (touch governance_addr s),
      slot-put (no_votes_slot (slice input 4 36)) (vote_record_slot (slice input 4 36) caller)
          (read_byte input 36 * 2 ^ 248 + read_slot input 37) (touch governance_addr s),
      slot-touch k s,
      slot-touch (votes_slot (slice input 4 36)) s,
      slot-touch (no_votes_slot (slice input 4 36)) s,
      bytes_eq_iff (no_votes_slot (slice input 4 36)) k,
      bytes_eq_iff (vote_record_slot (slice input 4 36) caller) k,
    )

    affords-tallied :
        affords vote_type caller (read_slot input 37) tallied
        ≡ affords vote_type caller (read_slot input 37) s
    unfolding bytes_eq
    affords-tallied = ground (arith, slot-tallied (credits_slot caller))

    slot-voted :
        can_vote ≡ true
        → is_panic (gov_vote input caller s).0 ≡ false
        → (k : Bytes) → bytes_eq (credits_slot caller) k ≡ false
        → slot k (gov_vote input caller s).1 ≡ slot k tallied
    slot-voted ready calm k other =
        (record_vote-tallied ready calm k).1
        ∙ (pay_credits-kept vote_type caller (read_slot input 37) tallied k).2 other

    -- A vote that does not panic is counted exactly when the input is long enough, the proposal is
    -- there and active, and the caller's record of a vote on it is zero. A vote of direction 1 adds
    -- one in favour and every other one against, and the record becomes the direction and the
    -- credits; else counts and record stay. It is accepted where it is counted and, on a quadratic
    -- proposal, the caller has the credits. The proposal's slot stays.
    pub gov_vote_exact :
        is_panic (gov_vote input caller s).0 ≡ false
        → let id = slice input 4 36 in
          let r = gov_vote input caller s in
          let in_favour = read_byte input 36 == 1 in
          (is_ok r.0 ≡ (
            can_vote
            && affords (first_of (slot (proposal_slot id) s)) caller (read_slot input 37) s))
          × (slot (votes_slot id) r.1 ≡ (
              if can_vote && in_favour then slot (votes_slot id) s + 1 else slot (votes_slot id) s))
          × (slot (no_votes_slot id) r.1 ≡ (
              if can_vote && not in_favour
              then slot (no_votes_slot id) s + 1
              else slot (no_votes_slot id) s))
          × (slot (vote_record_slot id caller) r.1 ≡ (
              if can_vote
              then read_byte input 36 * 2 ^ 248 + read_slot input 37
              else slot (vote_record_slot id caller) s))
          × (slot (proposal_slot id) r.1 ≡ slot (proposal_slot id) s)
    unfolding vote_type bytes_eq
    gov_vote_exact calm = elim (Bool-cases can_vote) [
      | inl ready ↦ (
        ground (arith, (record_vote-tallied ready calm []).0, affords-tallied),
        ground (
          arith,
          slot-voted ready calm (votes_slot (slice input 4 36)),
          slot-tallied (votes_slot (slice input 4 36)),
          bytes_eq_refl (slice input 4 36),
        ),
        ground (
          arith,
          slot-voted ready calm (no_votes_slot (slice input 4 36)),
          slot-tallied (no_votes_slot (slice input 4 36)),
          bytes_eq_refl (slice input 4 36),
        ),
        ground (
          arith,
          slot-voted ready calm (vote_record_slot (slice input 4 36) caller),
          slot-tallied (vote_record_slot (slice input 4 36) caller),
          bytes_eq_refl (vote_record_slot (slice input 4 36) caller),
        ),
        ground (
          arith,
          slot-voted ready calm (proposal_slot (slice input 4 36)),
          slot-tallied (proposal_slot (slice input 4 36)),
        ),
      )
      | inr unready ↦ (
        ground (arith, (gov_vote_unready [] unready).0),
        ground (arith, (gov_vote_unready (votes_slot (slice input 4 36)) unready).1),
        ground (arith, (gov_vote_unready (no_votes_slot (slice input 4 36)) unready).1),
        ground (arith, (gov_vote_unready (vote_record_slot (slice input 4 36) caller) unready).1),
        (gov_vote_unready (proposal_slot (slice input 4 36)) unready).1,
      )
    ]
