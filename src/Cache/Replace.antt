-- ===== src/Cache/Replace.antt =====
-- opencxl/cxl/component/cache_controller.py: the block that `_cache_find_replace_block` chooses.
use opencxl_core.Prelude.{
  ℕ, zero, suc, ◌+◌, ◌≤◌, ◌<◌, ◌≡◌, refl, ◌∙◌, ◌⊎◌, inl, inr, arith, List, [], ◌∷◌, ltb, length,
  get_or, Bool-cases,
}
use opencxl_core.Cache.Blocks.{
  CacheBlock, new_block, CacheSet, block, least_priority, replace_block, cache_find_replace_block,
}

-- The priority of the block at `k`, which is in range.
abbrev priority_at : List CacheBlock → ℕ → ℕ
priority_at bs k = (get_or bs k new_block).priority

below_cons :
    (v : ℕ) (b : CacheBlock) (bs : List CacheBlock)
    → v ≤ b.priority
    → ((j : ℕ) → j < length bs → v ≤ priority_at bs j)
    → (j : ℕ) → j < length (b ∷ bs)
    → v ≤ priority_at (b ∷ bs) j
below_cons v b bs h low zero p = h
below_cons v b bs h low (suc j) p = low j (omega arith)

-- The loop keeps the block that it had, or ends at a block with a lower priority than that one
-- and no higher than any other.
least_priority_lem :
    (bs : List CacheBlock) (idx least at : ℕ)
    → ((least_priority bs idx least at ≡ at) × ((j : ℕ) → j < length bs → least ≤ priority_at bs j))
      ⊎ ((k : ℕ) × (least_priority bs idx least at ≡ idx + k)
          × (k < length bs)
          × (priority_at bs k < least)
          × ((j : ℕ) → j < length bs → priority_at bs k ≤ priority_at bs j))
unfolding least_priority
least_priority_lem [] idx least at = inl (refl, λ j h. absurd (omega arith))
least_priority_lem (b ∷ bs) idx least at = elim (Bool-cases (ltb b.priority least)) [
  | inl less ↦ elim (least_priority_lem bs (idx + 1) b.priority idx) [
    | inl (e, low) ↦ inr (
      0,
      rw less (e ∙ omega arith),
      omega arith,
      ground arith,
      below_cons _ b bs (omega arith) low,
    )
    | inr (k, e, p, q, low) ↦ inr (
      suc k,
      rw less (e ∙ omega arith),
      omega arith,
      ground arith,
      below_cons _ b bs (omega arith) low,
    )
  ]
  | inr kept ↦ elim (least_priority_lem bs (idx + 1) least at) [
    | inl (e, low) ↦ inl (rw kept e, below_cons _ b bs (ground arith) low)
    | inr (k, e, p, q, low) ↦ inr (
      suc k,
      rw kept (e ∙ omega arith),
      omega arith,
      ground arith,
      below_cons _ b bs (ground arith) low,
    )
  ]
]

replace_block_least :
    (bs : List CacheBlock)
    → 0 < length bs
    → (replace_block bs < length bs)
      × ((j : ℕ) → j < length bs → priority_at bs (replace_block bs) ≤ priority_at bs j)
unfolding replace_block
replace_block_least [] h = absurd (omega arith)
replace_block_least (b ∷ bs) h = elim (least_priority_lem bs 1 b.priority 0) [
  | inl (e, low) ↦ rw e (omega arith, below_cons b.priority b bs (omega arith) low)
  | inr (k, e, p, q, low) ↦
      let e' : least_priority bs 1 b.priority 0 ≡ suc k = e ∙ omega arith in
      rw e' (omega arith, below_cons (priority_at bs k) b bs (omega arith) low)
]

-- The block chosen for replacement is in the set, and no block of the set has a lower priority: it
-- was used longest ago.
pub cache_find_replace_block_least :
    (s : CacheSet) (j : ℕ)
    → j < length s.blocks
    → (cache_find_replace_block s < length s.blocks)
      × ((block s (cache_find_replace_block s)).priority ≤ (block s j).priority)
unfolding cache_find_replace_block
cache_find_replace_block_least s j h =
    let (inside, least) = replace_block_least s.blocks (omega arith) in (inside, least j h)
