-- ===== src/Cache/Coherent.antt =====
-- opencxl/cxl/component/cache_controller.py: `cache_coherent_load` and `cache_coherent_store` on
-- the one set that they use.
use native.Mathlib.Decide.{dec_lt}
use opencxl_core.Prelude.{
  ℕ, ◌+◌, ◌<◌, ◌≡◌, ◌≢◌, sym, ap, ◌∙◌, arith, true, false, none, some, length, modify,
  get_or-modify_self, get_or-modify_ne, get_or_of_le, ok,
}
use opencxl_core.Cache.Fifo.{Fifos}
use opencxl_core.Cache.Blocks.{
  cache_invalid, is_invalid, CacheBlock, new_block, CacheSet, block, cache_update_block_state,
  cache_find_replace_block, has_tag, cache_find_valid_block, cache_data_read,
}
use opencxl_core.Cache.Controller.{
  CacheController, assem_addr, cache_assem_addr, memory_store, evict,
}
use opencxl_core.Cache.Lookup.{
  find_block-some, find_block-modify_found, find_block-modify_new, find_block-modify-none,
  find_block-modify_other,
}
use opencxl_core.Cache.Change.{value-cache_data_read}

-- The set has a valid block with the tag, and the block that a search finds has the data.
abbrev pub Holds : CacheSet → ℕ → ℕ → Type 0
Holds s tag value =
    (blk : ℕ) × (cache_find_valid_block tag s ≡ some blk) × ((block s blk).value ≡ value)

pub find_valid-in_range :
    (s : CacheSet) (tag blk : ℕ)
    → cache_find_valid_block tag s ≡ some blk
    → (blk < length s.blocks) × (has_tag tag (block s blk) ≡ true)
unfolding cache_find_valid_block
find_valid-in_range s tag blk h =
    let (k, e, p, q) = find_block-some (has_tag tag) s.blocks 0 blk h in
    let e' : blk ≡ k = omega arith in rw e' (p, q)

module _ (s s' : CacheSet) (tag blk : ℕ) (f : CacheBlock → CacheBlock)
    (change : s'.blocks ≡ modify s.blocks blk f) where
  pub found_after :
      cache_find_valid_block tag s ≡ some blk
      → has_tag tag (f (block s blk)) ≡ true
      → (cache_find_valid_block tag s' ≡ some blk) × (block s' blk ≡ f (block s blk))
  unfolding cache_find_valid_block
  found_after h t =
      let (inside, _) = find_valid-in_range s tag blk h in
      let start : 0 + blk ≡ blk = omega arith in
      let again =
        find_block-modify_found (has_tag tag) s.blocks 0 blk f (h ∙ ap some (sym start)) t in
      rw change (again ∙ ap some start, get_or-modify_self s.blocks blk f new_block inside)

  pub new_after :
      cache_find_valid_block tag s ≡ none
      → blk < length s.blocks
      → has_tag tag (f (block s blk)) ≡ true
      → (cache_find_valid_block tag s' ≡ some blk) × (block s' blk ≡ f (block s blk))
  unfolding cache_find_valid_block
  new_after h inside t =
      let start : 0 + blk ≡ blk = omega arith in
      let found = find_block-modify_new (has_tag tag) s.blocks 0 blk f h inside t in
      rw change (found ∙ ap some start, get_or-modify_self s.blocks blk f new_block inside)

  pub none_after :
      cache_find_valid_block tag s ≡ none
      → has_tag tag (f (block s blk)) ≡ false
      → cache_find_valid_block tag s' ≡ none
  unfolding cache_find_valid_block
  none_after h t = rw change (find_block-modify-none (has_tag tag) s.blocks 0 blk f h t)

  pub other_after :
      (j : ℕ)
      → cache_find_valid_block tag s ≡ some j
      → j ≢ blk
      → has_tag tag (f (block s blk)) ≡ false
      → (cache_find_valid_block tag s' ≡ some j) × (block s' j ≡ block s j)
  unfolding cache_find_valid_block
  other_after j h n t =
      let start : 0 + blk ≡ blk = omega arith in
      let kept = find_block-modify_other (has_tag tag) s.blocks 0 j blk f h (rw start n) t in
      rw change (kept, get_or-modify_ne s.blocks blk j f new_block (λ e. n (sym e)))

valid-in_range :
    (s : CacheSet) (blk : ℕ) → is_invalid (block s blk).state ≡ false → blk < length s.blocks
valid-in_range s blk h = elim (dec_lt blk (length s.blocks)) [
  | yes p ↦ p
  | no p ↦ absurd (ground (arith, get_or_of_le s.blocks blk new_block))
]

-- What an eviction that returned has done: it chose a valid block, wrote it back, and left it
-- invalid under the new tag.
module _ (c : CacheController) (s : CacheSet) (tag index size : ℕ) (w : Fifos) where
  abbrev pub victim : ℕ
  victim = cache_find_replace_block s

  abbrev pub victim_addr : ℕ
  victim_addr = assem_addr c (block s victim).tag index

  abbrev pub after_evict : CacheSet
  after_evict = cache_update_block_state (cache_data_read s victim).0 tag victim cache_invalid

  pub victim_valid :
      {r : (CacheSet × ℕ) × Fifos}
      → evict c s tag index size w ≡ ok r
      → is_invalid (block s victim).state ≡ false
  unfolding evict cache_assem_addr
  victim_valid h = ground arith

  pub evict_lem :
      {s' : CacheSet} {blk : ℕ} {w' : Fifos}
      → evict c s tag index size w ≡ ok ((s', blk), w')
      → (blk ≡ victim)
        × (s' ≡ after_evict)
        × (victim < length s.blocks)
        × (memory_store c victim_addr size (block s victim).value w ≡ ok (tt, w'))
  unfolding evict cache_assem_addr
  evict_lem h =
      let valid = victim_valid h in
      let inside = valid-in_range s victim valid in
      let value = value-cache_data_read s victim inside in
      (ground arith, ground arith, inside, ground arith)
