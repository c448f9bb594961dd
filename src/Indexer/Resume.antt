-- ===== src/Indexer/Resume.antt =====
-- Where a range resumes behind the checkpoint.
use chain_watch.Prelude.{ℕ, suc, ◌+◌, ◌^◌, ◌≤◌, ◌<◌, ◌≡◌, ◌↔◌, Option, none, some, arith}
use chain_watch.Domain.{BlockCheckpoint}
use chain_watch.Indexer.{Start, resume}

-- For a range of blocks below 2^64, the block that a range resumes at lies in the range.
pub resume_bounds :
    (found : Option BlockCheckpoint) (start end : ℕ) (s : Start)
    → start ≤ end
    → end < 2 ^ 64
    → resume found start end ≡ some s
    → (start ≤ s.next_block) × (s.next_block ≤ end)
unfolding resume
resume_bounds none start end s range fits h = ground arith
resume_bounds (some c) start end s range fits h = ground arith

-- With a checkpoint from just below `start` up to below `end`, and `end` below 2^64, the range resumes
-- at the block above the checkpoint, which has to name the hash of the checkpoint.
resume_behind :
    (c : BlockCheckpoint) (start end : ℕ)
    → c.number < end
    → end < 2 ^ 64
    → start ≤ suc c.number
    → resume (some c) start end
      ≡ some (record { next_block = c.number + 1; expected_parent_hash = c.hash })
unfolding resume
resume_behind c start end below fits near = ground arith

-- Nothing is left exactly where the checkpoint is at or above both ends.
resume-none :
    (c : BlockCheckpoint) (start end : ℕ)
    → (resume (some c) start end ≡ none) ↔ ((start ≤ c.number) × (end ≤ c.number))
unfolding resume
resume-none c start end = (λ h. (ground arith, ground arith), λ h. ground arith)
