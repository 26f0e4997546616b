-- ===== src/Cache/Progress.antt =====
-- opencxl/cxl/component/cache_controller.py: when a store returns.
use opencxl_core.Prelude.{
  ℕ, ◌≡◌, ◌≢◌, ◌⊎◌, inl, inr, arith, false, none, some, ok, Option-cases, Bool-cases,
}
use opencxl_core.Cache.Ranges.{cxl_cached, get_mem_addr_type}
use opencxl_core.Cache.Fifo.{Fifos}
use opencxl_core.Cache.Blocks.{
  is_invalid, is_shared, CacheSet, block, cache_extract_block_state, cache_find_valid_block,
  cache_find_invalid_block, cache_update_block_state, cache_data_write, cache_exclusive,
  cache_modified,
}
use opencxl_core.Cache.Controller.{
  CacheController, blk_size, cache_extract_tag, cache_extract_set, set_at, put_set,
  cache_to_coh_state_lookup, free_block, store_hit, store_miss, store_in_set, cache_coherent_store,
}
use opencxl_core.Cache.Coherent.{find_valid-in_range}

module _ (c : CacheController) (s : CacheSet) (tag index addr size value : ℕ) (w : Fifos)
    (cached : get_mem_addr_type c.memory_ranges addr ≡ cxl_cached) where
  abbrev written : CacheSet → ℕ → CacheSet
  written s₀ blk = cache_data_write (cache_update_block_state s₀ tag blk cache_modified) blk value

  lookup_quiet : cache_to_coh_state_lookup c addr w ≡ ok (tt, w)
  unfolding cache_to_coh_state_lookup
  lookup_quiet = ground arith

  store_hit_returns :
      (blk : ℕ)
      → cache_find_valid_block tag s ≡ some blk
      → (s' : CacheSet) × (store_hit c s tag blk addr value w ≡ ok (s', w))
  unfolding store_hit cache_extract_block_state
  store_hit_returns blk found =
      let valid : is_invalid (block s blk).state ≡ false =
        ground (arith, (find_valid-in_range s tag blk found).1) in
      let quiet = lookup_quiet in
      elim (Bool-cases (is_shared (block s blk).state)) [
        | inl shared ↦
            (written (cache_update_block_state s tag blk cache_exclusive) blk, ground arith)
        | inr alone ↦ (written s blk, ground arith)
      ]

  store_miss_returns :
      (blk : ℕ)
      → cache_find_invalid_block s ≡ some blk
      → (s' : CacheSet) × (store_miss c s tag index addr size value w ≡ ok (s', w))
  unfolding store_miss free_block
  store_miss_returns blk free = let quiet = lookup_quiet in (written s blk, ground arith)

  pub store_in_set_returns :
      (cache_find_valid_block tag s ≢ none) ⊎ (cache_find_invalid_block s ≢ none)
      → (s' : CacheSet) × (store_in_set c s tag index addr size value w ≡ ok (s', w))
  unfolding store_in_set
  store_in_set_returns room = elim (Option-cases (cache_find_valid_block tag s)) [
    | inr (blk, found) ↦ let (s', done) = store_hit_returns blk found in (s', ground arith)
    | inl missed ↦ elim (Option-cases (cache_find_invalid_block s)) [
      | inr (blk, free) ↦ let (s', done) = store_miss_returns blk free in (s', ground arith)
      | inl full ↦ absurd (elim room [ inl h ↦ h missed | inr h ↦ h full ])
    ]
  ]

-- In a range of cached memory, a store of a block returns, and neither sends nor takes anything on
-- the fifos, if the cache has a valid block for the address or its set has an invalid block.
pub cache_coherent_store-returns :
    (c : CacheController) (addr value : ℕ) (w : Fifos)
    → get_mem_addr_type c.memory_ranges addr ≡ cxl_cached
    → (cache_find_valid_block (cache_extract_tag c addr) (set_at c (cache_extract_set c addr))
        ≢ none)
      ⊎ (cache_find_invalid_block (set_at c (cache_extract_set c addr)) ≢ none)
    → (c' : CacheController) × (cache_coherent_store c addr blk_size value w ≡ ok (c', w))
unfolding cache_coherent_store
cache_coherent_store-returns c addr value w cached room =
    let tag = cache_extract_tag c addr in
    let index = cache_extract_set c addr in
    let (s', done) =
      store_in_set_returns c (set_at c index) tag index addr blk_size value w cached room in
    (put_set c index s', ground arith)
