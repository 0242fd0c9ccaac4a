-- ===== src/Engine/Finality.antt =====
-- Finalized blocks and the height that they give.
use waychain_consensus.Prelude.{
  ℕ, ◌≤◌, ◌≡◌, refl, List, [], ◌∷◌, some, arith, ltb, ◌==◌, if◌then◌else◌, nat_eq, lookup, insert,
  lookup-insert,
}
use waychain_consensus.Types.{Block}
use waychain_consensus.Engine.{Engine, quorum_height_from, get_quorum_height, finalize_block}

quorum_height_from-ge : (best : ℕ) (bs : List (ℕ × Block)) → best ≤ quorum_height_from best bs
unfolding quorum_height_from
quorum_height_from-ge best [] = omega arith
quorum_height_from-ge best ((h, b) ∷ bs) =
    ground (arith, quorum_height_from-ge h bs, quorum_height_from-ge best bs)

quorum_height_from-insert :
    (best k : ℕ) (b : Block) (bs : List (ℕ × Block))
    → quorum_height_from best (insert k b bs)
      ≡ (if ltb (quorum_height_from best bs) k then k else quorum_height_from best bs)
unfolding quorum_height_from insert
quorum_height_from-insert best k b [] = ground arith
quorum_height_from-insert best k b ((i, c) ∷ bs) = ground (
  arith,
  quorum_height_from-insert best k b bs,
  quorum_height_from-insert i k b bs,
  quorum_height_from-ge best bs,
  quorum_height_from-ge i bs,
)

-- `FinalizeBlock` makes the block the one stored for its height, leaves the blocks of all other
-- heights, and raises both the current height and the quorum height to the block's where they are
-- lower. A block that was stored for that height before is replaced.
pub finalize_block_exact :
    (b : Block) (h : ℕ) (ce : Engine)
    → let ce' = finalize_block b ce in
      (lookup h ce'.blocks ≡ (if b.height == h then some b else lookup h ce.blocks))
      × (ce'.current_height
          ≡ (if ltb ce.current_height b.height then b.height else ce.current_height))
      × (get_quorum_height ce'
          ≡ (if ltb (get_quorum_height ce) b.height then b.height else get_quorum_height ce))
      × (ce'.active_set ≡ ce.active_set)
      × (ce'.total_power ≡ ce.total_power)
unfolding finalize_block get_quorum_height
finalize_block_exact b h ce = (
  lookup-insert b.height h b ce.blocks,
  refl,
  quorum_height_from-insert 0 b.height b ce.blocks,
  refl,
  refl,
)
