-- ===== src/Cache/Change.antt =====
-- opencxl/cxl/component/cache_controller.py: each operation on a set as one change of one block.
use opencxl_core.Prelude.{
  ℕ, ◌+◌, ◌<◌, ◌≡◌, refl, ap, false, length, modify, get_or-modify_self, modify-modify,
}
use opencxl_core.Cache.Blocks.{
  CacheState, cache_invalid, is_invalid, CacheBlock, new_block, CacheSet, block,
  cache_update_block_state, cache_data_read, cache_data_write,
}

-- A read sets the priority.
abbrev pub touched : CacheSet → CacheBlock → CacheBlock
touched s b = record b { priority = s.counter }

-- An evicted block keeps its data and has the new tag, in the state invalid.
abbrev pub evicted : CacheSet → ℕ → CacheBlock → CacheBlock
evicted s tag b = record b { priority = s.counter; tag = tag; state = cache_invalid }

-- A filled block has the new tag, state and data, and the highest priority.
abbrev pub filled : CacheSet → ℕ → CacheState → ℕ → CacheBlock → CacheBlock
filled s tag state value b = record b {
  priority = s.counter + 1;
  tag = tag;
  state = state;
  value = value;
}

-- A block that changed its state alone, to a valid one.
abbrev pub restated : CacheSet → ℕ → CacheState → CacheBlock → CacheBlock
restated s tag state b = record b { priority = s.counter; tag = tag; state = state }

module _ (s : CacheSet) (blk : ℕ) where
  pub blocks-cache_data_read : (cache_data_read s blk).0.blocks ≡ modify s.blocks blk (touched s)
  unfolding cache_data_read
  blocks-cache_data_read = refl

  pub value-cache_data_read :
      blk < length s.blocks → (cache_data_read s blk).1 ≡ (block s blk).value
  unfolding cache_data_read
  value-cache_data_read h =
      ap (λ b. b.value) (get_or-modify_self s.blocks blk (touched s) new_block h)

  pub blocks-evicted :
      (tag : ℕ)
      → (cache_update_block_state (cache_data_read s blk).0 tag blk cache_invalid).blocks
        ≡ modify s.blocks blk (evicted s tag)
  unfolding cache_data_read cache_update_block_state
  blocks-evicted tag = modify-modify s.blocks blk _ _

  pub blocks-restated :
      (tag : ℕ) (state : CacheState)
      → is_invalid state ≡ false
      → (cache_update_block_state s tag blk state).blocks
        ≡ modify s.blocks blk (restated s tag state)
  unfolding cache_update_block_state
  blocks-restated tag state valid = rw valid (modify-modify s.blocks blk _ _)

  pub blocks-filled :
      (tag : ℕ) (state : CacheState) (value : ℕ)
      → is_invalid state ≡ false
      → (cache_data_write (cache_update_block_state s tag blk state) blk value).blocks
        ≡ modify s.blocks blk (filled s tag state value)
  unfolding cache_update_block_state cache_data_write
  blocks-filled tag state value valid = simp (valid, cache_update_block_state, modify-modify)
