-- ===== src/Cache/Blocks.antt =====
-- opencxl/cxl/component/cache_controller.py: the blocks of one set. The source keeps the blocks in
-- `_cache[set]` and the set's counter in `_setcnt[set]`; here a `CacheSet` has both. Every set has
-- `_cache_assoc_size` blocks from the start, and no operation changes their number, so a loop
-- over `range(self._cache_assoc_size)` is a recursion on the list of blocks.
use opencxl_core.Prelude.{
  ℕ, ◌+◌, Bool, true, false, not, List, [], ◌∷◌, Option, none, some, if◌then◌else◌, ltb, ◌==◌, ◌&&◌,
  get_or, modify, Result, ok, err, unbound_local,
}
use opencxl_core.Cache.Fifo.{CacheResponseStatus, ok_status, failed, rsp_v, rsp_s, rsp_i, rsp_miss}

pub data CacheState : Type 0 where
  cache_invalid cache_shared cache_exclusive cache_modified : CacheState

abbrev pub is_invalid : CacheState → Bool
is_invalid cache_invalid = true
is_invalid cache_shared = false
is_invalid cache_exclusive = false
is_invalid cache_modified = false

abbrev pub is_shared : CacheState → Bool
is_shared cache_shared = true
is_shared cache_invalid = false
is_shared cache_exclusive = false
is_shared cache_modified = false

-- The source's field `data` is `value` here.
pub record CacheBlock : Type 0 where
  pub state : CacheState
  pub tag : ℕ
  pub priority : ℕ
  pub value : ℕ

abbrev pub new_block : CacheBlock
new_block = record { state = cache_invalid; tag = 0; priority = 0; value = 0 }

pub record CacheSet : Type 0 where
  pub blocks : List CacheBlock
  pub counter : ℕ

-- `self._cache[set][blk]`; no block is asked for beyond the last one.
abbrev pub block : CacheSet → ℕ → CacheBlock
block s blk = get_or s.blocks blk new_block

abbrev pub modify_block : CacheSet → ℕ → (CacheBlock → CacheBlock) → CacheSet
modify_block s blk f = record s { blocks = modify s.blocks blk f }

unfoldable pub cache_priority_update : CacheSet → ℕ → CacheSet
cache_priority_update s blk = record (modify_block s blk (λ b. record b { priority = s.counter })) {
  counter = s.counter + 1;
}

unfoldable pub cache_extract_block_state : CacheSet → ℕ → CacheState
cache_extract_block_state s blk = (block s blk).state

unfoldable pub cache_update_block_state : CacheSet → ℕ → ℕ → CacheState → CacheSet
unfolding cache_priority_update
cache_update_block_state s tag blk state =
    let s' = if not (is_invalid state) then cache_priority_update s blk else s in
    modify_block s' blk (λ b. record b { tag = tag; state = state })

-- The loop of `_cache_find_replace_block`, from the block at `idx` on.
unfoldable pub least_priority : List CacheBlock → ℕ → ℕ → ℕ → ℕ
least_priority [] idx min_priority min_idx = min_idx
least_priority (b ∷ bs) idx min_priority min_idx =
    let less = ltb b.priority min_priority in
    least_priority bs (idx + 1) (if less then b.priority else min_priority)
      (if less then idx else min_idx)

unfoldable pub replace_block : List CacheBlock → ℕ
unfolding least_priority
replace_block [] = 0
replace_block (b ∷ bs) = least_priority bs 1 b.priority 0

unfoldable pub cache_find_replace_block : CacheSet → ℕ
cache_find_replace_block s = replace_block s.blocks

-- The index of the first block with the property, counted from `idx`.
unfoldable pub find_block : (CacheBlock → Bool) → List CacheBlock → ℕ → Option ℕ
find_block test [] idx = none
find_block test (b ∷ bs) idx = if test b then some idx else find_block test bs (idx + 1)

unfoldable pub cache_find_invalid_block : CacheSet → Option ℕ
cache_find_invalid_block s = find_block (λ b. is_invalid b.state) s.blocks 0

abbrev pub has_tag : ℕ → CacheBlock → Bool
has_tag tag b = b.tag == tag && not (is_invalid b.state)

unfoldable pub cache_find_valid_block : ℕ → CacheSet → Option ℕ
cache_find_valid_block tag s = find_block (has_tag tag) s.blocks 0

unfoldable pub cache_data_read : CacheSet → ℕ → CacheSet × ℕ
unfolding cache_priority_update
cache_data_read s blk = let s' = cache_priority_update s blk in (s', (block s' blk).value)

unfoldable pub cache_data_write : CacheSet → ℕ → ℕ → CacheSet
unfolding cache_priority_update
cache_data_write s blk value =
    modify_block (cache_priority_update s blk) blk (λ b. record b { value = value })

-- No branch of the source assigns a state for `FAILED` and `RSP_MISS`.
unfoldable pub cache_rsp_state_lookup : CacheResponseStatus → Result CacheState
cache_rsp_state_lookup ok_status = ok cache_exclusive
cache_rsp_state_lookup rsp_s = ok cache_shared
cache_rsp_state_lookup rsp_i = ok cache_exclusive
cache_rsp_state_lookup rsp_v = ok cache_invalid
cache_rsp_state_lookup failed = err unbound_local
cache_rsp_state_lookup rsp_miss = err unbound_local
