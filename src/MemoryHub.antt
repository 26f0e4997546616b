-- ===== src/MemoryHub.antt =====
-- opencxl/cxl/component/cxl_memory_hub.py: where the loads and stores of a host go. The root complex
-- is any type that fills the interface `RootComplexOps`; its state is beside that of the cache
-- controller and its fifos.
pub mod Laws
use Prim.Native.Nat.{bit_and}
use opencxl_core.Prelude.{
  ℕ, ◌-◌, Option, none, some, List, Result, ok, err, ◌>>=◌, exception, attribute_error,
}
use opencxl_core.Prelude.Bits.{shr}
use opencxl_core.Pci.Bdf.{create_bdf}
use opencxl_core.Cache.Ranges.{
  MemAddrType, MemoryRange, dram, cxl_cached, cxl_cached_bi, cxl_uncached, mmio, cfg, oob,
  add_mem_range, remove_mem_range, get_mem_range, get_mem_addr_type,
}
use opencxl_core.Cache.Fifo.{Fifos}
use opencxl_core.Cache.Controller.{CacheController}
use opencxl_core.Cache.Agent.{
  MemoryRequest, MemoryResponse, mem_read, mem_write, mem_uncached_read, mem_uncached_write,
  processor_request,
}

-- The requests that the hub passes on to the root complex, with its state. A number is an address, or
-- a BDF and an offset; then comes the size, and the value of a write.
pub record RootComplexOps (R : Type 0) : Type 0 where
  pub read_mmio : ℕ → ℕ → R → Result (ℕ × R)
  pub write_mmio : ℕ → ℕ → ℕ → R → Result R
  pub read_config : ℕ → ℕ → ℕ → R → Result (ℕ × R)
  pub write_config : ℕ → ℕ → ℕ → ℕ → R → Result R

pub record CxlMemoryHub (R : Type 0) : Type 0 where
  pub cache_controller : CacheController
  pub fifos : Fifos
  pub root_complex : R

module _ {R : Type 0} where
  -- `_send_mem_request`: the controller takes the request, and its response has the status OK.
  unfoldable pub send_mem_request : MemoryRequest → CxlMemoryHub R → Result (ℕ × CxlMemoryHub R)
  unfolding processor_request
  send_mem_request packet hub = elim (processor_request hub.cache_controller packet hub.fifos) [
    | err e ↦ err e
    | ok ((c, resp), w) ↦ ok (resp.value, record hub { cache_controller = c; fifos = w })
  ]

  unfoldable pub cfg_addr_to_bdf : CxlMemoryHub R → ℕ → Result ℕ
  unfolding get_mem_range create_bdf
  cfg_addr_to_bdf hub cfg_addr = elim (get_mem_range hub.cache_controller.memory_ranges cfg_addr) [
    | none ↦ err attribute_error
    | some range ↦
        let offset = cfg_addr - range.base_addr in
        ok (
          create_bdf (bit_and (shr offset 20) 0xff) (bit_and (shr offset 15) 0x1f)
            (bit_and (shr offset 12) 0x07))
  ]

  abbrev addr_type : CxlMemoryHub R → ℕ → MemAddrType
  addr_type hub addr = get_mem_addr_type hub.cache_controller.memory_ranges addr

  unfoldable pub load_cached : ℕ → ℕ → CxlMemoryHub R → Result (ℕ × CxlMemoryHub R)
  unfolding send_mem_request
  load_cached addr size hub =
      send_mem_request (record { type = mem_read; addr = addr; size = size; value = 0 }) hub

  unfoldable pub store_cached : ℕ → ℕ → ℕ → CxlMemoryHub R → Result (CxlMemoryHub R)
  unfolding send_mem_request
  store_cached addr size value hub =
      send_mem_request (record { type = mem_write; addr = addr; size = size; value = value }) hub
      >>= λ r. ok r.1

  module _ (ops : RootComplexOps R) where
    unfoldable pub load : ℕ → ℕ → CxlMemoryHub R → Result (ℕ × CxlMemoryHub R)
    unfolding get_mem_addr_type cfg_addr_to_bdf load_cached send_mem_request
    load addr size hub = elim (addr_type hub addr) [
      | dram ↦ load_cached addr size hub
      | cxl_cached ↦ load_cached addr size hub
      | cxl_cached_bi ↦ load_cached addr size hub
      | cxl_uncached ↦
          send_mem_request
            (record { type = mem_uncached_read; addr = addr; size = size; value = 0 }) hub
      | mmio ↦ ops.read_mmio addr size hub.root_complex >>= λ r.
          ok (r.0, record hub { root_complex = r.1 })
      | cfg ↦ cfg_addr_to_bdf hub addr >>= λ bdf.
          ops.read_config bdf (bit_and addr 0xfff) size hub.root_complex >>= λ r.
          ok (r.0, record hub { root_complex = r.1 })
      | _ ↦ err exception
    ]

    unfoldable pub store : ℕ → ℕ → ℕ → CxlMemoryHub R → Result (CxlMemoryHub R)
    unfolding get_mem_addr_type cfg_addr_to_bdf store_cached send_mem_request
    store addr size value hub = elim (addr_type hub addr) [
      | dram ↦ store_cached addr size value hub
      | cxl_cached ↦ store_cached addr size value hub
      | cxl_cached_bi ↦ store_cached addr size value hub
      | cxl_uncached ↦
          send_mem_request
            (record { type = mem_uncached_write; addr = addr; size = size; value = value }) hub
          >>= λ r. ok r.1
      | mmio ↦ ops.write_mmio addr size value hub.root_complex >>= λ r.
          ok (record hub { root_complex = r })
      | cfg ↦ cfg_addr_to_bdf hub addr >>= λ bdf.
          ops.write_config bdf (bit_and addr 0xfff) size value hub.root_complex >>= λ r.
          ok (record hub { root_complex = r })
      | _ ↦ err exception
    ]
