-- ===== src/Tests/MemoryHub.antt =====
-- opencxl/cxl/component/cxl_memory_hub.py at the cache of Tests/Cache, with a root complex that answers
-- every read of configuration space with the sum of the BDF and the offset.
use opencxl_core.Prelude.{◌+◌, ◌≡◌, refl, inl, inr, arith, ok, ◌>>=◌, [], ◌∷◌}
use opencxl_core.Pci.Bdf.{create_bdf}
use opencxl_core.Cache.Ranges.{MemoryRange, cfg, get_mem_range, holds}
use opencxl_core.MemoryHub.{
  CxlMemoryHub, RootComplexOps, load, store, store_cached, send_mem_request,
}
use opencxl_core.Cache.Agent.{processor_request, processor_request_of}
use opencxl_core.MemoryHub.Laws.{load-store, load-function_offset, function_offset}
use opencxl_core.Tests.Cache.{program, empty, one_block, quiet, empty-IsWellFormed}

abbrev bridge : RootComplexOps (Unit {0})
bridge = record {
  read_mmio = λ address size r. ok (0, r);
  write_mmio = λ address size value r. ok r;
  read_config = λ bdf offset size r. ok (bdf + offset, r);
  write_config = λ bdf offset size value r. ok r;
}

abbrev hub : CxlMemoryHub (Unit {0})
hub = record { cache_controller = empty; fifos = quiet; root_complex = tt }

abbrev stored : CxlMemoryHub (Unit {0})
stored = record hub { cache_controller = one_block }

load-store_example :
    (hub'' : CxlMemoryHub (Unit {0})) × (load bridge 0x40 0x40 stored ≡ ok (5, hub''))
unfolding program store store_cached send_mem_request processor_request processor_request_of
load-store_example =
    load-store bridge 0x40 0x40 5 hub stored empty-IsWellFormed (inr (inl refl)) refl

abbrev ecam : MemoryRange
ecam = record { base_addr = 0x10000000; size = 0x10000000; addr_type = cfg }

abbrev with_ecam : CxlMemoryHub (Unit {0})
with_ecam = record hub { cache_controller = record empty { memory_ranges = ecam ∷ [] } }

load-function_offset_example :
    load bridge (0x10000000 + function_offset 1 2 3 0x104) 4 with_ecam ≡ (
      bridge.read_config (create_bdf 1 2 3) 0x104 4 tt >>= λ v.
      ok (v.0, record with_ecam { root_complex = v.1 }))
unfolding get_mem_range holds
load-function_offset_example =
    load-function_offset bridge with_ecam ecam 1 2 3 0x104 4 refl refl refl (omega arith)
      (omega arith) (omega arith) (omega arith)
