-- ===== src/Mmio.antt =====
-- opencxl/pci/component/mmio_manager.py: `MmioManager`, which answers the memory requests of the
-- host from the registers behind the BARs of a device, or passes them on. A register
-- (`BitMaskedBitStructure`) is any type with a length, reads and writes: `RegisterOps`. No register
-- stands behind two BARs. Log messages are left out.
pub mod Laws
pub mod Register
use opencxl_core.Prelude.{
  ℕ, zero, suc, ◌+◌, ◌-◌, ◌*◌, ◌^◌, max, Bool, true, false, not, List, [], ◌∷◌, Option, none, some,
  if◌then◌else◌, ltb, leb, ◌==◌, ◌&&◌, ◌||◌, length, get_elem?, set, modify, Result, ok, err, ◌>>=◌,
  exception, index_error, attribute_error,
}
use opencxl_core.Number.{round_up_to_power_of_2, to_be16}

pub record RegisterOps (R : Type 0) : Type 0 where
  pub size : R → ℕ
  pub read_bytes : R → ℕ → ℕ → Result ℕ
  pub write_bytes : R → ℕ → ℕ → ℕ → Result R

pub data MemoryType : Type 0 where
  address_32bit address_64bit : MemoryType

pub record BarInfo : Type 0 where
  pub prefetchable : Bool
  pub memory_type : MemoryType

pub record BarEntry (R : Type 0) : Type 0 where
  pub register : Option R
  pub base_address : ℕ
  pub size_override : ℕ
  pub info : BarInfo

-- `bridge`: a downstream fifo is configured.
pub record MmioManager (R : Type 0) : Type 0 where
  pub bridge : Bool
  pub memory_base : ℕ
  pub memory_limit : ℕ
  pub prefetchable_memory_base : ℕ
  pub prefetchable_memory_limit : ℕ
  pub bar_entries : List (BarEntry R)

-- A `CxlIoMemReqPacket`; a packet that is neither a read nor a write is of another type.
pub data RequestType : Type 0 where
  mem_read : RequestType
  mem_write : ℕ → RequestType
  other_request : RequestType

pub record MemRequest : Type 0 where
  pub type : RequestType
  pub address : ℕ
  pub size : ℕ
  pub req_id : ℕ
  pub tag : ℕ
  pub ld_id : ℕ

-- What is put on the fifos: a completion with data, upstream, or the request itself, downstream.
pub data Output : Type 0 where
  completion : ℕ → ℕ → ℕ → ℕ → ℕ → Output
  forwarded : MemRequest → Output

module _ {R : Type 0} where
  unfoldable pub new_manager : Bool → MmioManager R
  new_manager bridge = record {
    bridge = bridge;
    memory_base = 0;
    memory_limit = 0;
    prefetchable_memory_base = 0;
    prefetchable_memory_limit = 0;
    bar_entries = [];
  }

  -- The change of a range, which only a bridge allows.
  abbrev if_bridge : MmioManager R → MmioManager R → Result (MmioManager R)
  if_bridge m m' = if m.bridge then ok m' else err exception

  unfoldable pub set_memory_base : MmioManager R → ℕ → Result (MmioManager R)
  set_memory_base m memory_base = if_bridge m (record m { memory_base = memory_base })

  unfoldable pub set_memory_limit : MmioManager R → ℕ → Result (MmioManager R)
  set_memory_limit m memory_limit = if_bridge m (record m { memory_limit = memory_limit })

  unfoldable pub set_prefetchable_memory_base : MmioManager R → ℕ → Result (MmioManager R)
  set_prefetchable_memory_base m memory_base =
      if_bridge m (record m { prefetchable_memory_base = memory_base })

  unfoldable pub set_prefetchable_memory_limit : MmioManager R → ℕ → Result (MmioManager R)
  set_prefetchable_memory_limit m memory_limit =
      if_bridge m (record m { prefetchable_memory_limit = memory_limit })

  unfoldable pub set_bar_entries : MmioManager R → List (BarEntry R) → MmioManager R
  set_bar_entries m bar_entries = record m { bar_entries = bar_entries }

  unfoldable pub get_bar_info : MmioManager R → ℕ → Option BarInfo
  get_bar_info m index = elim (get_elem? m.bar_entries index) [
    | none ↦ none
    | some entry ↦ some entry.info
  ]

  unfoldable pub set_bar : MmioManager R → ℕ → ℕ → MmioManager R
  set_bar m index base_address = record m {
    bar_entries =
        modify m.bar_entries index (λ entry. record entry { base_address = base_address });
  }

  unfoldable pub should_forward_packet : MmioManager R → ℕ → ℕ → Bool
  should_forward_packet m address size =
      m.bridge && (leb m.memory_base address && leb (address + size) (m.memory_limit + 1))

module _ {R : Type 0} (ops : RegisterOps R) where
  -- The register of an entry; to Python's `if`, one of length 0 is none.
  abbrev pub register_of : BarEntry R → Option R
  register_of entry = elim entry.register [
    | none ↦ none
    | some r ↦ if ops.size r == 0 then none else some r
  ]

  -- The size of a BAR before it is rounded up, or 0 where there is none.
  unfoldable pub bar_bytes : BarEntry R → ℕ
  bar_bytes entry = elim (register_of entry) [
    | none ↦ entry.size_override
    | some r ↦ if entry.size_override == 0 then ops.size r else entry.size_override
  ]

  unfoldable pub get_bar_size : MmioManager R → ℕ → ℕ
  unfolding bar_bytes
  get_bar_size m index = elim (get_elem? m.bar_entries index) [
    | none ↦ 0
    | some entry ↦
        let size = bar_bytes entry in
        if size == 0 then 0 else round_up_to_power_of_2 (max size 0x1000)
  ]

  -- The register of an entry, if it has all `size` bytes from the address on.
  unfoldable pub claims : BarEntry R → ℕ → ℕ → Option R
  claims entry address size = elim (register_of entry) [
    | none ↦ none
    | some r ↦
        if entry.base_address == 0
        then none
        else if ltb address entry.base_address
        then none
        else if ltb (entry.base_address + ops.size r) (address + size)
        then none
        else some r
  ]

  -- The loop of `_get_register_and_offset`, with the index of the entry, counted from `index`.
  unfoldable pub find_register : List (BarEntry R) → ℕ → ℕ → ℕ → Option (ℕ × R × ℕ)
  unfolding claims
  find_register [] index address size = none
  find_register (entry ∷ entries) index address size = elim (claims entry address size) [
    | none ↦ find_register entries (index + 1) address size
    | some r ↦ some (index, r, address - entry.base_address)
  ]

  unfoldable pub get_register_and_offset : MmioManager R → ℕ → ℕ → Option (ℕ × R × ℕ)
  get_register_and_offset m address size = find_register m.bar_entries 0 address size

  abbrev pub put_register : MmioManager R → ℕ → R → MmioManager R
  put_register m index r = record m {
    bar_entries = modify m.bar_entries index (λ entry. record entry { register = some r });
  }

  -- `_send_completion` with data.
  unfoldable pub send_completion : ℕ → ℕ → ℕ → ℕ → ℕ → Result (List Output)
  send_completion req_id tag value data_len ld_id =
      if leb (2 ^ (data_len * 8)) value
      then err exception
      else ok (completion req_id tag value data_len ld_id ∷ [])

  -- A request that no register claims.
  unfoldable pub process_unclaimed : Bool → MmioManager R → MemRequest → Result (List Output)
  process_unclaimed big m packet =
      if should_forward_packet m packet.address packet.size
      then ok (forwarded packet ∷ [])
      else elim packet.type [
        | mem_read ↦
            send_completion (to_be16 big packet.req_id) packet.tag 0 packet.size packet.ld_id
        | mem_write value ↦ ok []
        | other_request ↦ err exception
      ]

  -- `_process_mmio_packet`, for a size of at least 1. `big` says whether the machine is big-endian.
  unfoldable pub process_mmio_packet :
      Bool → MmioManager R → MemRequest → Result (MmioManager R × List Output)
  process_mmio_packet big m packet = elim (get_register_and_offset m packet.address packet.size) [
    | none ↦ do outputs ← process_unclaimed big m packet; ok (m, outputs)
    | some (index, r, offset) ↦
        let end_offset = offset + packet.size - 1 in
        elim packet.type [
          | mem_write value ↦ do
            r' ← ops.write_bytes r offset end_offset value
            ok (put_register m index r', [])
          | mem_read ↦ do
            value ← ops.read_bytes r offset end_offset
            outputs ←
                send_completion (to_be16 big packet.req_id) packet.tag value packet.size
                  packet.ld_id
            ok (m, outputs)
          | other_request ↦ err exception
        ]
  ]

  -- `read_mmio` and `write_mmio`; where no register claims the address, `None` has no `read_bytes`.
  unfoldable pub read_mmio : MmioManager R → ℕ → ℕ → ℕ → Result ℕ
  read_mmio m addr size bar_id = elim (get_elem? m.bar_entries bar_id) [
    | none ↦ err index_error
    | some entry ↦ elim (get_register_and_offset m (entry.base_address + addr) size) [
      | none ↦ err attribute_error
      | some (index, r, offset) ↦ ops.read_bytes r offset (offset + size - 1)
    ]
  ]

  unfoldable pub write_mmio : MmioManager R → ℕ → ℕ → ℕ → ℕ → Result (MmioManager R)
  write_mmio m addr size value bar_id = elim (get_elem? m.bar_entries bar_id) [
    | none ↦ err index_error
    | some entry ↦ elim (get_register_and_offset m (entry.base_address + addr) size) [
      | none ↦ err attribute_error
      | some (index, r, offset) ↦ do
        r' ← ops.write_bytes r offset (offset + size - 1) value
        ok (put_register m index r')
    ]
  ]
