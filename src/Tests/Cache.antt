-- ===== src/Tests/Cache.antt =====
-- opencxl/cxl/component/cache_controller.py at a cache of two sets with one block each, over a
-- range of cached memory.
use opencxl_core.Prelude.{
  ℕ, ◌+◌, ◌/◌, ◌%◌, ◌≤◌, ◌<◌, ◌≡◌, ◌≢◌, refl, ◌⊎◌, inr, none, arith, false, [], ◌∷◌, ok,
}
use opencxl_core.Cache.Ranges.{cxl_cached}
use opencxl_core.Cache.Fifo.{
  CacheRequest, CacheResponse, ok_status, coh_agent, Fifos, write_back, snp_data, exchange,
  take_response,
}
use opencxl_core.Cache.Ranges.{holds, get_mem_range, get_mem_addr_type}
use opencxl_core.Cache.Blocks.{
  CacheSet, block, cache_modified, cache_exclusive, new_block, cache_find_replace_block,
  cache_find_valid_block, cache_find_invalid_block, find_block, cache_data_read, cache_data_write,
  cache_priority_update, least_priority, replace_block, cache_update_block_state,
  cache_extract_block_state, cache_rsp_state_lookup,
}
use opencxl_core.Cache.Controller.{
  CacheController, new_controller, cache_extract_tag, cache_extract_set, set_at, assem_addr,
  cache_assem_addr, get_cache_fifo, request_on, memory_load, memory_store, snoop_invalidate,
  cache_to_coh_state_lookup, evict, free_block, fill_block, load_miss, load_in_set,
  cache_coherent_load, store_hit, store_miss, store_in_set, cache_coherent_store,
}
use opencxl_core.Cache.Address.{IsWellFormed, assem_addr-extract, extract-assem_addr}
use opencxl_core.Cache.Replace.{cache_find_replace_block_least}
use opencxl_core.Cache.Traffic.{Sent}
use opencxl_core.Cache.Memory.{
  Cached, block_written_back, cache_coherent_store-others, cache_coherent_load-others,
}
use opencxl_core.Cache.Progress.{cache_coherent_store-returns}
use opencxl_core.Cache.ReadWrite.{
  cache_coherent_load-store, new_controller-IsWellFormed, cache_coherent_load-IsWellFormed,
  cache_coherent_store-IsWellFormed,
}

-- What the tests run.
unfoldable pub program : Unit {0}
unfolding holds get_mem_range get_mem_addr_type exchange take_response cache_find_valid_block
    cache_find_invalid_block find_block cache_data_read cache_data_write cache_priority_update
    least_priority replace_block cache_update_block_state cache_extract_block_state
    cache_rsp_state_lookup cache_find_replace_block cache_extract_tag cache_extract_set assem_addr
    cache_assem_addr get_cache_fifo request_on memory_load memory_store snoop_invalidate
    cache_to_coh_state_lookup evict free_block fill_block load_miss load_in_set cache_coherent_load
    store_hit store_miss store_in_set cache_coherent_store
program = tt

abbrev unused_set : CacheSet
unused_set = record { blocks = new_block ∷ []; counter = 0 }

abbrev pub empty : CacheController
empty = record {
  assoc_size = 1;
  set_size = 2;
  set_bit = 1;
  has_bridge = false;
  sets = unused_set ∷ unused_set ∷ [];
  memory_ranges = record { base_addr = 0; size = 0x1000; addr_type = cxl_cached } ∷ [];
}

-- After a store of 5 at 0x40.
abbrev pub one_block : CacheController
one_block = record empty {
  sets =
      unused_set
      ∷ record {
        blocks = record { state = cache_modified; tag = 0; priority = 1; value = 5 } ∷ [];
        counter = 2;
      }
      ∷ [];
}

-- After a store of 6 at 0xc0, which takes the same block.
abbrev replaced : CacheController
replaced = record empty {
  sets =
      unused_set
      ∷ record {
        blocks = record { state = cache_modified; tag = 1; priority = 4; value = 6 } ∷ [];
        counter = 5;
      }
      ∷ [];
}

-- After a load at 0xc0 that the agent answers with 6.
abbrev reloaded : CacheController
reloaded = record empty {
  sets =
      unused_set
      ∷ record {
        blocks = record { state = cache_exclusive; tag = 1; priority = 4; value = 6 } ∷ [];
        counter = 5;
      }
      ∷ [];
}

abbrev answer : CacheResponse
answer = record { status = ok_status; value = 6 }

abbrev pub quiet : Fifos
quiet = record { agent_responses = []; bridge_responses = []; sent = [] }

abbrev ready : Fifos
ready = record { agent_responses = answer ∷ answer ∷ []; bridge_responses = []; sent = [] }

abbrev evicted_five : CacheRequest
evicted_five = record { type = write_back; addr = 0x40; size = 0x40; value = 5 }

abbrev after_store : Fifos
after_store = record {
  agent_responses = answer ∷ [];
  bridge_responses = [];
  sent = (coh_agent, evicted_five) ∷ [];
}

abbrev after_load : Fifos
after_load = record {
  agent_responses = [];
  bridge_responses = [];
  sent =
      (coh_agent, evicted_five)
      ∷ (coh_agent, record { type = snp_data; addr = 0xc0; size = 0x40; value = 0 })
      ∷ [];
}

pub empty-IsWellFormed : IsWellFormed empty
empty-IsWellFormed = record { sets_power = refl; sets_length = refl }

one_block-IsWellFormed : IsWellFormed one_block
one_block-IsWellFormed = record { sets_power = refl; sets_length = refl }

first_store : cache_coherent_store empty 0x40 0x40 5 quiet ≡ ok (one_block, quiet)
unfolding program
first_store = refl

second_store : cache_coherent_store one_block 0xc0 0x40 6 ready ≡ ok (replaced, after_store)
unfolding program
second_store = refl

second_load : cache_coherent_load one_block 0xc0 0x40 ready ≡ ok ((reloaded, 6), after_load)
unfolding program
second_load = refl

pub five_Cached : Cached one_block 0x40 5
unfolding program
five_Cached = (0, refl, refl)

apart : 0xc0 / 0x40 ≢ 0x40 / 0x40
apart h = omega arith

cache_coherent_load-store_example :
    (c : CacheController) × (cache_coherent_load one_block 0x40 0x40 ready ≡ ok ((c, 5), ready))
cache_coherent_load-store_example =
    cache_coherent_load-store empty 0x40 0x40 5 quiet empty-IsWellFormed first_store ready

cache_coherent_store-others_example :
    Cached replaced 0x40 5 ⊎ Sent after_store (block_written_back 0x40 5)
cache_coherent_store-others_example =
    cache_coherent_store-others one_block 0xc0 0x40 6 ready 0x40 5 one_block-IsWellFormed apart
      five_Cached second_store

cache_coherent_load-others_example :
    Cached reloaded 0x40 5 ⊎ Sent after_load (block_written_back 0x40 5)
cache_coherent_load-others_example =
    cache_coherent_load-others one_block 0xc0 0x40 ready 0x40 5 one_block-IsWellFormed apart
      five_Cached second_load

cache_coherent_load-IsWellFormed_example : IsWellFormed reloaded
cache_coherent_load-IsWellFormed_example =
    cache_coherent_load-IsWellFormed one_block 0xc0 0x40 ready one_block-IsWellFormed second_load

cache_coherent_store-IsWellFormed_example : IsWellFormed replaced
cache_coherent_store-IsWellFormed_example =
    cache_coherent_store-IsWellFormed one_block 0xc0 0x40 6 ready one_block-IsWellFormed
      second_store

-- A logarithm that is right at 2.
abbrev log : ℕ → ℕ
log n = n / 2

made :
    new_controller log 2 2 false
    ≡ ok (record empty {
      assoc_size = 2;
      sets =
          record unused_set { blocks = new_block ∷ new_block ∷ [] }
          ∷ record unused_set { blocks = new_block ∷ new_block ∷ [] }
          ∷ [];
      memory_ranges = [];
    })
unfolding new_controller
made = refl

new_controller-IsWellFormed_example :
    IsWellFormed (record empty {
      assoc_size = 2;
      sets =
          record unused_set { blocks = new_block ∷ new_block ∷ [] }
          ∷ record unused_set { blocks = new_block ∷ new_block ∷ [] }
          ∷ [];
      memory_ranges = [];
    })
    × (empty.set_size ≡ 2)
new_controller-IsWellFormed_example = new_controller-IsWellFormed log 2 2 false made

assem_addr-extract_example :
    assem_addr empty (cache_extract_tag empty 0x1c5) (cache_extract_set empty 0x1c5) + 0x1c5 % 64
    ≡ 0x1c5
assem_addr-extract_example = assem_addr-extract empty empty-IsWellFormed 0x1c5

extract-assem_addr_test :
    (cache_extract_tag empty (assem_addr empty 3 1 + 5) ≡ 3)
    × (cache_extract_set empty (assem_addr empty 3 1 + 5) ≡ 1)
extract-assem_addr_test =
    extract-assem_addr empty empty-IsWellFormed 3 1 5 (omega arith) (omega arith)

-- A set whose second block was used longest ago.
abbrev used : CacheSet
used = record {
  blocks = record new_block { priority = 7 } ∷ record new_block { priority = 3 } ∷ [];
  counter = 8;
}

cache_find_replace_block_least_example :
    (cache_find_replace_block used < 2)
    × ((block used (cache_find_replace_block used)).priority ≤ 7)
cache_find_replace_block_least_example = cache_find_replace_block_least used 0 (omega arith)

in_range : get_mem_addr_type empty.memory_ranges 0x40 ≡ cxl_cached
unfolding program
in_range = refl

has_room :
    (cache_find_valid_block
        (cache_extract_tag empty 0x40)
        (set_at empty (cache_extract_set empty 0x40))
      ≢ none)
    ⊎ (cache_find_invalid_block (set_at empty (cache_extract_set empty 0x40)) ≢ none)
unfolding program
has_room = inr (λ h. ground arith)

cache_coherent_store-returns_example :
    (c : CacheController) × (cache_coherent_store empty 0x40 0x40 5 quiet ≡ ok (c, quiet))
cache_coherent_store-returns_example =
    cache_coherent_store-returns empty 0x40 5 quiet in_range has_room
