-- ===== src/MemoryHub/Laws.antt =====
-- opencxl/cxl/component/cxl_memory_hub.py: what a load returns, from the cache and from the
-- configuration space.
use Prim.Native.Nat.{bit_and}
use opencxl_core.Prelude.{
  ℕ, ◌+◌, ◌-◌, ◌*◌, ◌%◌, ◌^◌, ◌<◌, ◌≡◌, ◌⊎◌, inl, inr, refl, sym, ap, ◌∙◌, subst, arith, some, ok,
  ◌>>=◌, Result-cases,
}
use opencxl_core.Prelude.Bits.{shr, bit_and-low_mask}
use opencxl_core.Pci.Bdf.{create_bdf}
use opencxl_core.Cache.Ranges.{
  MemAddrType, MemoryRange, dram, cxl_cached, cxl_cached_bi, cfg, get_mem_range, get_mem_addr_type,
}
use opencxl_core.Cache.Fifo.{Fifos}
use opencxl_core.Cache.Controller.{
  CacheController, cache_coherent_store, store_in_set, put_set, set_at, cache_extract_tag,
  cache_extract_set,
}
use opencxl_core.Cache.Address.{IsWellFormed}
use opencxl_core.Cache.ReadWrite.{cache_coherent_load-store}
use opencxl_core.Cache.Agent.{processor_request, processor_request_of}
use opencxl_core.MemoryHub.{
  CxlMemoryHub, RootComplexOps, send_mem_request, cfg_addr_to_bdf, addr_type, load_cached,
  store_cached, load, store,
}

-- The place of a function's registers in the configuration space, from its start.
abbrev pub function_offset : ℕ → ℕ → ℕ → ℕ → ℕ
function_offset bus device function offset =
    bus * 2 ^ 20 + device * 2 ^ 15 + function * 2 ^ 12 + offset

module _ {R : Type 0} (ops : RootComplexOps R) where
  cfg_addr_to_bdf-create_bdf :
      (hub : CxlMemoryHub R) (r : MemoryRange) (bus device function offset : ℕ)
      → get_mem_range hub.cache_controller.memory_ranges
          (r.base_addr + function_offset bus device function offset)
        ≡ some r
      → bus < 256
      → device < 32
      → function < 8
      → offset < 4096
      → cfg_addr_to_bdf hub (r.base_addr + function_offset bus device function offset)
        ≡ ok (create_bdf bus device function)
  unfolding cfg_addr_to_bdf
  cfg_addr_to_bdf-create_bdf hub r bus device function offset found b d f o =
      let place = r.base_addr + function_offset bus device function offset - r.base_addr in
      let bus_bits : bit_and (shr place 20) 0xff ≡ bus =
        bit_and-low_mask 8 (shr place 20) ∙ omega arith in
      let device_bits : bit_and (shr place 15) 0x1f ≡ device =
        bit_and-low_mask 5 (shr place 15) ∙ omega arith in
      let function_bits : bit_and (shr place 12) 0x07 ≡ function =
        bit_and-low_mask 3 (shr place 12) ∙ omega arith in
      rw (cfg_addr_to_bdf, found, bus_bits, device_bits, function_bits) refl

  -- A load of an address in a range of configuration space, whose base is a multiple of 4096, is a read of the
  -- configuration space of the function that has the address, at the offset in its 4096 bytes.
  pub load-function_offset :
      (hub : CxlMemoryHub R) (r : MemoryRange) (bus device function offset size : ℕ)
      → get_mem_range hub.cache_controller.memory_ranges
          (r.base_addr + function_offset bus device function offset)
        ≡ some r
      → r.addr_type ≡ cfg
      → r.base_addr % 4096 ≡ 0
      → bus < 256
      → device < 32
      → function < 8
      → offset < 4096
      → load ops (r.base_addr + function_offset bus device function offset) size hub ≡ (
          ops.read_config (create_bdf bus device function) offset size hub.root_complex >>= λ v.
          ok (v.0, record hub { root_complex = v.1 }))
  unfolding load get_mem_addr_type
  load-function_offset hub r bus device function offset size found type aligned b d f o =
      let addr = r.base_addr + function_offset bus device function offset in
      let low : bit_and addr 0xfff ≡ offset = bit_and-low_mask 12 addr ∙ omega arith in
      rw
        (
          load,
          get_mem_addr_type,
          found,
          type,
          cfg_addr_to_bdf-create_bdf hub r bus device function offset found b d f o,
          low,
        )
        refl

-- A store changes the blocks of the cache, not its ranges.
cache_coherent_store-memory_ranges :
    (c : CacheController) (addr size value : ℕ) (w : Fifos) {c' : CacheController} {w' : Fifos}
    → cache_coherent_store c addr size value w ≡ ok (c', w')
    → c'.memory_ranges ≡ c.memory_ranges
unfolding cache_coherent_store
cache_coherent_store-memory_ranges c addr size value w {c'} h =
    let tag = cache_extract_tag c addr in
    let index = cache_extract_set c addr in
    elim (Result-cases (store_in_set c (set_at c index) tag index addr size value w)) [
      | inr (x, e) ↦ absurd (ground arith)
      | inl ((s, w₁), e) ↦
          let last : put_set c index s ≡ c' = ground arith in ap (λ k. k.memory_ranges) (sym last)
    ]

-- The types of memory that the cache keeps.
abbrev pub IsCached : MemAddrType → Type 0
IsCached t = (t ≡ dram) ⊎ (t ≡ cxl_cached) ⊎ (t ≡ cxl_cached_bi)

module _ {R : Type 0} (ops : RootComplexOps R) where
  load-load_cached :
      (addr size : ℕ) (hub : CxlMemoryHub R)
      → IsCached (addr_type hub addr)
      → load ops addr size hub ≡ load_cached addr size hub
  unfolding load
  load-load_cached addr size hub k = ground arith

  store-store_cached :
      (addr size value : ℕ) (hub : CxlMemoryHub R)
      → IsCached (addr_type hub addr)
      → store ops addr size value hub ≡ store_cached addr size value hub
  unfolding store
  store-store_cached addr size value hub k = ground arith

  -- A host's load of an address in cached memory returns what its last store there wrote, if the store
  -- returned and the cache controller was well formed.
  pub load-store :
      (addr size value : ℕ) (hub hub' : CxlMemoryHub R)
      → IsWellFormed hub.cache_controller
      → IsCached (addr_type hub addr)
      → store ops addr size value hub ≡ ok hub'
      → (hub'' : CxlMemoryHub R) × (load ops addr size hub' ≡ ok (value, hub''))
  unfolding store_cached load_cached send_mem_request processor_request processor_request_of
  load-store addr size value hub hub' wf k h =
      let cached : store_cached addr size value hub ≡ ok hub' =
        sym (store-store_cached addr size value hub k) ∙ h in
      elim (Result-cases (cache_coherent_store hub.cache_controller addr size value hub.fifos)) [
        | inr (x, e) ↦ absurd (ground arith)
        | inl ((c, w), e) ↦
            let u : CxlMemoryHub R = record hub { cache_controller = c; fifos = w } in
            let same : u ≡ hub' = ground arith in
            let ranges =
              cache_coherent_store-memory_ranges hub.cache_controller addr size value hub.fifos e in
            let kept = subst (λ rs. IsCached (get_mem_addr_type rs addr)) (sym ranges) k in
            let (c', read) =
              cache_coherent_load-store hub.cache_controller addr size value hub.fifos wf e w in
            let v : CxlMemoryHub R = record u { cache_controller = c' } in
            let loaded : load_cached addr size u ≡ ok (value, v) = ground arith in
            (
              v,
              subst (λ t. load ops addr size t ≡ ok (value, v)) same
                  (load-load_cached addr size u kept ∙ loaded),
            )
      ]
