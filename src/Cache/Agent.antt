-- ===== src/Cache/Agent.antt =====
-- opencxl/cxl/component/cache_controller.py: the requests that reach the cache controller, from
-- the coherency agents (`_coh_to_cache_state_lookup`, `_run_coh_request`) and from the processor
-- (`_uncached_load`, `_uncached_store`, one round of `_processor_request_scheduler`), with the
-- types of opencxl/cxl/transport/memory_fifo.py.
use opencxl_core.Prelude.{ℕ, Option, none, some, if◌then◌else◌, Result, ok, err, assertion_error}
use opencxl_core.Cache.Fifo.{
  CacheRequestType, snp_data, snp_inv, snp_cur, write_back, uncached_write, uncached_read,
  CacheRequest, rsp_v, rsp_s, rsp_i, rsp_miss, CacheResponse, coh_agent, M, pure, ◌>>=◌,
}
use opencxl_core.Cache.Blocks.{
  cache_invalid, cache_shared, is_shared, CacheSet, cache_extract_block_state,
  cache_update_block_state, cache_find_valid_block, cache_data_read,
}
use opencxl_core.Cache.Controller.{
  CacheController, cache_extract_tag, cache_extract_set, set_at, put_set, request_on,
  cache_coherent_load, cache_coherent_store,
}

-- What a snoop does to the block that it found. A type with no branch leaves the block alone.
unfoldable pub snoop_block : CacheRequestType → CacheSet → ℕ → ℕ → Result CacheSet
snoop_block snp_data s tag blk = ok (cache_update_block_state s tag blk cache_shared)
snoop_block snp_inv s tag blk = ok (cache_update_block_state s tag blk cache_invalid)
snoop_block write_back s tag blk =
    if is_shared (cache_extract_block_state s blk) then ok s else err assertion_error
snoop_block _ s tag blk = ok s

-- `_coh_to_cache_state_lookup`: the controller, the block found, and its data or 0.
unfoldable pub coh_to_cache_state_lookup :
    CacheController → CacheRequestType → ℕ → Result (CacheController × Option ℕ × ℕ)
unfolding snoop_block
coh_to_cache_state_lookup c type addr =
    let tag = cache_extract_tag c addr in
    let index = cache_extract_set c addr in
    let s = set_at c index in
    elim (cache_find_valid_block tag s) [
      | none ↦ ok (c, none, 0)
      | some blk ↦
          let (s', value) = cache_data_read s blk in
          elim (snoop_block type s' tag blk) [
            | err e ↦ err e
            | ok s'' ↦ ok (put_set c index s'', some blk, value)
          ]
    ]

-- The status of the response to a request whose block was found.
unfoldable pub snoop_response : CacheRequestType → ℕ → Result CacheResponse
snoop_response snp_data value = ok (record { status = rsp_s; value = value })
snoop_response snp_inv value = ok (record { status = rsp_i; value = value })
snoop_response snp_cur value = ok (record { status = rsp_v; value = value })
snoop_response write_back value = ok (record { status = rsp_v; value = value })
snoop_response _ value = err assertion_error

-- `_run_coh_request`: the controller, and the response put on the agent's fifo.
unfoldable pub run_coh_request :
    CacheController → CacheRequest → Result (CacheController × CacheResponse)
unfolding coh_to_cache_state_lookup snoop_response
run_coh_request c packet = elim (coh_to_cache_state_lookup c packet.type packet.addr) [
  | err e ↦ err e
  | ok (c', none, value) ↦ ok (c', record { status = rsp_miss; value = value })
  | ok (c', some blk, value) ↦ elim (snoop_response packet.type value) [
    | err e ↦ err e
    | ok response ↦ ok (c', response)
  ]
]

unfoldable pub uncached_load : CacheController → ℕ → ℕ → M ℕ
uncached_load c addr size = do
  resp ←
      request_on c coh_agent (record { type = uncached_read; addr = addr; size = size; value = 0 })
  pure resp.value

unfoldable pub uncached_store : CacheController → ℕ → ℕ → ℕ → M (Unit {0})
uncached_store c addr size value = do
  _ ←
      request_on c coh_agent
        (record { type = uncached_write; addr = addr; size = size; value = value })
  pure tt

pub data MemoryRequestType : Type 0 where
  mem_read mem_write mem_uncached_read mem_uncached_write : MemoryRequestType

pub record MemoryRequest : Type 0 where
  pub type : MemoryRequestType
  pub addr : ℕ
  pub size : ℕ
  pub value : ℕ

-- Every response of this controller to the processor has the status `OK`; a write's data is 0.
pub record MemoryResponse : Type 0 where
  pub value : ℕ

-- The `match` of `_processor_request_scheduler`.
unfoldable pub processor_request_of :
    MemoryRequestType → CacheController → MemoryRequest → M (CacheController × MemoryResponse)
processor_request_of mem_read c packet = do
  (c', value) ← cache_coherent_load c packet.addr packet.size
  pure (c', record { value = value })
processor_request_of mem_uncached_read c packet = do
  value ← uncached_load c packet.addr packet.size
  pure (c, record { value = value })
processor_request_of mem_write c packet = do
  c' ← cache_coherent_store c packet.addr packet.size packet.value
  pure (c', record { value = 0 })
processor_request_of mem_uncached_write c packet = do
  _ ← uncached_store c packet.addr packet.size packet.value
  pure (c, record { value = 0 })

unfoldable pub processor_request :
    CacheController → MemoryRequest → M (CacheController × MemoryResponse)
unfolding processor_request_of uncached_load uncached_store
processor_request c packet = processor_request_of packet.type c packet
