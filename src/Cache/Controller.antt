-- ===== src/Cache/Controller.antt =====
-- opencxl/cxl/component/cache_controller.py: `CacheController`. An operation runs between two
-- `await`s without interruption; across an `await` only the fifos change, since the tasks that
-- read the agents' requests call `_run_coh_request` without awaiting it, so that its body, which
-- `run_coh_request` models, does not run. Log messages are left out.
use Prim.Native.Nat.{bit_and, bit_or}
use opencxl_core.Prelude.{
  ℕ, ◌+◌, ◌-◌, Bool, true, false, not, List, [], none, some, if◌then◌else◌, ◌==◌, get_or, modify,
  replicate, Result, ok, err, exception, assertion_error, attribute_error,
}
use opencxl_core.Prelude.Bits.{shl, shr, and_not}
use opencxl_core.Cache.Ranges.{dram, cxl_cached, cxl_cached_bi, MemoryRange, get_mem_addr_type}
use opencxl_core.Cache.Fifo.{
  snp_data, snp_inv, write_back, CacheRequest, CacheResponseStatus, ok_status, failed, rsp_v, rsp_s,
  rsp_i, rsp_miss, CacheResponse, Target, coh_agent, coh_bridge, M, pure, raise, ◌>>=◌, ◌>>◌, guard,
  exchange,
}
use opencxl_core.Cache.Blocks.{
  cache_invalid, cache_exclusive, cache_modified, is_invalid, is_shared, new_block, CacheSet, block,
  cache_extract_block_state, cache_update_block_state, cache_find_replace_block,
  cache_find_invalid_block, cache_find_valid_block, cache_data_read, cache_data_write,
  cache_rsp_state_lookup,
}

-- `_cache_blk_bit`, and the block size that it gives.
abbrev pub blk_bit : ℕ
blk_bit = 6

abbrev pub blk_size : ℕ
blk_size = shl 1 blk_bit

-- `has_bridge`: the configuration gave a fifo pair to the coherency bridge.
pub record CacheController : Type 0 where
  pub assoc_size : ℕ
  pub set_size : ℕ
  pub set_bit : ℕ
  pub has_bridge : Bool
  pub sets : List CacheSet
  pub memory_ranges : List MemoryRange

-- `__init__` and `_init_cache`. `int_log2` stands for `int(math.log2(...))`: whatever it
-- returns, the two assertions hold only at powers of two.
unfoldable pub new_controller : (ℕ → ℕ) → ℕ → ℕ → Bool → Result CacheController
new_controller int_log2 assoc_size set_size has_bridge =
    let set_bit = int_log2 set_size in
    let new_set : CacheSet = record { blocks = replicate assoc_size new_block; counter = 0 } in
    if not (assoc_size == shl 1 (int_log2 assoc_size))
    then err assertion_error
    else if not (set_size == shl 1 set_bit)
    then err assertion_error
    else ok (record {
      assoc_size = assoc_size;
      set_size = set_size;
      set_bit = set_bit;
      has_bridge = has_bridge;
      sets = replicate set_size new_set;
      memory_ranges = [];
    })

abbrev pub blk_mask : ℕ
blk_mask = blk_size - 1

abbrev pub set_mask : CacheController → ℕ
set_mask c = shl (c.set_size - 1) blk_bit

-- `_tag_mask` is the complement of both masks.
unfoldable pub cache_extract_tag : CacheController → ℕ → ℕ
cache_extract_tag c addr = shr (and_not addr (bit_or (set_mask c) blk_mask)) (c.set_bit + blk_bit)

unfoldable pub cache_extract_set : CacheController → ℕ → ℕ
cache_extract_set c addr = shr (bit_and addr (set_mask c)) blk_bit

abbrev pub set_at : CacheController → ℕ → CacheSet
set_at c index = get_or c.sets index (record { blocks = []; counter = 0 })

abbrev pub put_set : CacheController → ℕ → CacheSet → CacheController
put_set c index s = record c { sets = modify c.sets index (λ _. s) }

-- The address that `_cache_assem_addr` returns for a block with this tag.
unfoldable pub assem_addr : CacheController → ℕ → ℕ → ℕ
assem_addr c tag index = bit_or (shl tag (c.set_bit + blk_bit)) (shl index blk_bit)

unfoldable pub cache_assem_addr : CacheController → CacheSet → ℕ → ℕ → M ℕ
cache_assem_addr c s index blk = do
  guard (not (is_invalid (block s blk).state)) assertion_error
  pure (assem_addr c (block s blk).tag index)

-- `_get_cache_fifo`.
unfoldable pub get_cache_fifo : CacheController → ℕ → Result Target
get_cache_fifo c addr = elim (get_mem_addr_type c.memory_ranges addr) [
  | dram ↦ ok coh_bridge
  | cxl_cached ↦ ok coh_agent
  | cxl_cached_bi ↦ ok coh_agent
  | _ ↦ err exception
]

-- A request on a fifo, which is `None` where the configuration gave no bridge.
unfoldable pub request_on : CacheController → Target → CacheRequest → M CacheResponse
request_on c coh_agent packet = exchange coh_agent packet
request_on c coh_bridge packet =
    if c.has_bridge then exchange coh_bridge packet else raise attribute_error

abbrev pub lift : {A : Type 0} → Result A → M A
lift (ok a) = pure a
lift (err e) = raise e

unfoldable pub memory_load : CacheController → ℕ → ℕ → M CacheResponse
memory_load c addr size = do
  fifo ← lift (get_cache_fifo c addr)
  request_on c fifo (record { type = snp_data; addr = addr; size = size; value = 0 })

unfoldable pub memory_store : CacheController → ℕ → ℕ → ℕ → M (Unit {0})
memory_store c addr size value = do
  fifo ← lift (get_cache_fifo c addr)
  _ ← request_on c fifo (record { type = write_back; addr = addr; size = size; value = value })
  pure tt

abbrev is_rsp_i : CacheResponseStatus → Bool
is_rsp_i rsp_i = true
is_rsp_i ok_status = false
is_rsp_i failed = false
is_rsp_i rsp_v = false
is_rsp_i rsp_s = false
is_rsp_i rsp_miss = false

unfoldable pub snoop_invalidate : CacheController → Target → ℕ → M (Unit {0})
snoop_invalidate c fifo addr = do
  packet ← request_on c fifo (record { type = snp_inv; addr = addr; size = 0; value = 0 })
  guard (is_rsp_i packet.status) assertion_error

unfoldable pub cache_to_coh_state_lookup : CacheController → ℕ → M (Unit {0})
cache_to_coh_state_lookup c addr = elim (get_mem_addr_type c.memory_ranges addr) [
  | dram ↦ snoop_invalidate c coh_bridge addr
  | cxl_cached_bi ↦ snoop_invalidate c coh_agent addr
  | _ ↦ pure tt
]

-- The block for a new tag, which both `cache_coherent_load` and `cache_coherent_store` choose: an
-- invalid block, or else the block of the least priority, written back and made invalid.
unfoldable pub evict : CacheController → CacheSet → ℕ → ℕ → ℕ → M (CacheSet × ℕ)
evict c s tag index size = do
  let blk = cache_find_replace_block s
  addr ← cache_assem_addr c s index blk
  let (s', cached_data) = cache_data_read s blk
  memory_store c addr size cached_data
  pure (cache_update_block_state s' tag blk cache_invalid, blk)

unfoldable pub free_block : CacheController → CacheSet → ℕ → ℕ → ℕ → M (CacheSet × ℕ)
free_block c s tag index size = elim (cache_find_invalid_block s) [
  | some blk ↦ pure (s, blk)
  | none ↦ evict c s tag index size
]

-- The end of a load that missed: the block is filled, unless the response leaves it invalid.
unfoldable pub fill_block : CacheSet → ℕ → ℕ → CacheResponse → M (CacheSet × ℕ)
fill_block s tag blk packet = do
  state ← lift (cache_rsp_state_lookup packet.status)
  if is_invalid state then pure (s, packet.value) else (do
    guard (is_invalid (cache_extract_block_state s blk)) assertion_error
    pure (
      cache_data_write (cache_update_block_state s tag blk state) blk packet.value,
      packet.value,
    ))

unfoldable pub load_miss : CacheController → CacheSet → ℕ → ℕ → ℕ → ℕ → M (CacheSet × ℕ)
load_miss c s tag index addr size = do
  (s', blk) ← free_block c s tag index size
  packet ← memory_load c addr size
  fill_block s' tag blk packet

unfoldable pub load_in_set : CacheController → CacheSet → ℕ → ℕ → ℕ → ℕ → M (CacheSet × ℕ)
load_in_set c s tag index addr size = elim (cache_find_valid_block tag s) [
  | some blk ↦ pure (cache_data_read s blk)
  | none ↦ load_miss c s tag index addr size
]

unfoldable pub cache_coherent_load : CacheController → ℕ → ℕ → M (CacheController × ℕ)
cache_coherent_load c addr size = do
  guard (size == blk_size) assertion_error
  let tag = cache_extract_tag c addr
  let index = cache_extract_set c addr
  (s, value) ← load_in_set c (set_at c index) tag index addr size
  pure (put_set c index s, value)

-- A store that hits. A shared block asks for the other copies to be invalidated, and becomes
-- exclusive first.
unfoldable pub store_hit : CacheController → CacheSet → ℕ → ℕ → ℕ → ℕ → M CacheSet
store_hit c s tag blk addr value = do
  let state = cache_extract_block_state s blk
  guard (not (is_invalid state)) assertion_error
  s' ←
      (if is_shared state
        then (do
          cache_to_coh_state_lookup c addr
          pure (cache_update_block_state s tag blk cache_exclusive))
        else pure s)
  pure (cache_data_write (cache_update_block_state s' tag blk cache_modified) blk value)

unfoldable pub store_miss : CacheController → CacheSet → ℕ → ℕ → ℕ → ℕ → ℕ → M CacheSet
store_miss c s tag index addr size value = do
  (s', blk) ← free_block c s tag index size
  cache_to_coh_state_lookup c addr
  pure (cache_data_write (cache_update_block_state s' tag blk cache_modified) blk value)

unfoldable pub store_in_set : CacheController → CacheSet → ℕ → ℕ → ℕ → ℕ → ℕ → M CacheSet
store_in_set c s tag index addr size value = elim (cache_find_valid_block tag s) [
  | some blk ↦ store_hit c s tag blk addr value
  | none ↦ store_miss c s tag index addr size value
]

unfoldable pub cache_coherent_store : CacheController → ℕ → ℕ → ℕ → M CacheController
cache_coherent_store c addr size value = do
  guard (size == blk_size) assertion_error
  let tag = cache_extract_tag c addr
  let index = cache_extract_set c addr
  s ← store_in_set c (set_at c index) tag index addr size value
  pure (put_set c index s)
