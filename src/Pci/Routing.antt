-- ===== src/Pci/Routing.antt =====
-- opencxl/pci/component/routing_table.py: `PciRoutingTable`, by which a switch finds the port for a
-- configuration request or for a memory address. Log messages are left out.
pub mod Laws
use opencxl_core.Prelude.{
  ℕ, zero, suc, ◌+◌, Bool, true, false, List, [], ◌∷◌, Option, none, some, if◌then◌else◌, ltb, leb,
  ◌==◌, ◌&&◌, ◌||◌, length, get_elem?, set, modify, replicate, Result, ok, err, ◌>>=◌, ◌>>◌, guard,
  exception, index_error,
}
use opencxl_core.Pci.Bdf.{extract_device_from_bdf, extract_bus_from_bdf}

abbrev pub bridge_max_bars : ℕ
bridge_max_bars = 2

pub record BarEntry : Type 0 where
  pub base : ℕ
  pub limit : ℕ

pub record MmioEntry : Type 0 where
  pub bars : List BarEntry
  pub base : ℕ
  pub limit : ℕ

-- A row of `_config_space_table`: the entry and the flag that is beside it.
pub record ConfigSpaceEntry : Type 0 where
  pub secondary_bus : ℕ
  pub subordinate_bus : ℕ
  pub active : Bool

pub record PciRoutingTable : Type 0 where
  pub router_bus_number : Option ℕ
  pub table_size : ℕ
  pub mmio_table : List MmioEntry
  pub config_space_table : List ConfigSpaceEntry

abbrev pub new_mmio_entry : MmioEntry
new_mmio_entry = record {
  bars = replicate bridge_max_bars (record { base = 0; limit = 0 });
  base = 0;
  limit = 0;
}

unfoldable pub new_table : ℕ → PciRoutingTable
new_table table_size = record {
  router_bus_number = none;
  table_size = table_size;
  mmio_table = replicate table_size new_mmio_entry;
  config_space_table =
      replicate table_size (record { secondary_bus = 0; subordinate_bus = 0; active = true });
}

unfoldable pub set_router_bus_number : PciRoutingTable → ℕ → PciRoutingTable
set_router_bus_number t bus_number = record t { router_bus_number = some bus_number }

-- `_check_port_number`, before a change of the table.
abbrev checked : PciRoutingTable → ℕ → PciRoutingTable → Result PciRoutingTable
checked t port_number t' = do guard (ltb port_number t.table_size) exception; ok t'

abbrev modify_config : PciRoutingTable → ℕ → (ConfigSpaceEntry → ConfigSpaceEntry) → PciRoutingTable
modify_config t port f = record t { config_space_table = modify t.config_space_table port f }

abbrev modify_mmio : PciRoutingTable → ℕ → (MmioEntry → MmioEntry) → PciRoutingTable
modify_mmio t port f = record t { mmio_table = modify t.mmio_table port f }

unfoldable pub set_secondary_bus_number : PciRoutingTable → ℕ → ℕ → Result PciRoutingTable
set_secondary_bus_number t bus_number port_number =
    checked t port_number
      (modify_config t port_number (λ e. record e { secondary_bus = bus_number }))

unfoldable pub set_subordinate_bus_number : PciRoutingTable → ℕ → ℕ → Result PciRoutingTable
set_subordinate_bus_number t bus_number port_number =
    checked t port_number
      (modify_config t port_number (λ e. record e { subordinate_bus = bus_number }))

unfoldable pub set_memory_base : PciRoutingTable → ℕ → ℕ → Result PciRoutingTable
set_memory_base t base port_number =
    checked t port_number (modify_mmio t port_number (λ e. record e { base = base }))

unfoldable pub set_memory_limit : PciRoutingTable → ℕ → ℕ → Result PciRoutingTable
set_memory_limit t limit port_number =
    checked t port_number (modify_mmio t port_number (λ e. record e { limit = limit }))

-- `set_prefetchable_memory_base` and `set_prefetchable_memory_limit` only check the port.
unfoldable pub set_prefetchable_memory : PciRoutingTable → ℕ → ℕ → Result PciRoutingTable
set_prefetchable_memory t _ port_number = checked t port_number t

unfoldable pub set_bar : PciRoutingTable → ℕ → ℕ → ℕ → ℕ → Result PciRoutingTable
set_bar t bar_index base limit port_number = do
  guard (ltb port_number t.table_size) exception
  guard (ltb bar_index bridge_max_bars) exception
  let write = λ (e : MmioEntry). record e {
    bars = set e.bars bar_index (record { base = base; limit = limit });
  }
  ok (modify_mmio t port_number write)

unfoldable pub count_active : List ConfigSpaceEntry → ℕ
count_active [] = 0
count_active (e ∷ es) = let rest = count_active es in if e.active then rest + 1 else rest

abbrev pub covers_bus : ConfigSpaceEntry → ℕ → Bool
covers_bus e bus = e.active && (leb e.secondary_bus bus && leb bus e.subordinate_bus)

-- The loop over `enumerate(self._config_space_table)`.
unfoldable pub bus_port : List ConfigSpaceEntry → ℕ → ℕ → Option ℕ
bus_port [] port bus = none
bus_port (e ∷ es) port bus = if covers_bus e bus then some port else bus_port es (port + 1) bus

-- `bus_number == self._router_bus_number`; no number is equal to `None`.
abbrev pub is_router_bus : PciRoutingTable → ℕ → Bool
is_router_bus t bus = elim t.router_bus_number [ none ↦ false | some n ↦ bus == n ]

unfoldable pub get_config_space_target_port : PciRoutingTable → ℕ → Option ℕ
get_config_space_target_port t id =
    let bus_number = extract_bus_from_bdf id in
    let device_number = extract_device_from_bdf id in
    if is_router_bus t bus_number
    then (if ltb device_number (count_active t.config_space_table)
        then some device_number
        else none)
    else bus_port t.config_space_table 0 bus_number

unfoldable pub is_config_space_id_local : PciRoutingTable → ℕ → Result Bool
is_config_space_id_local t id = elim t.router_bus_number [
  | none ↦ err exception
  | some n ↦ ok (n == extract_bus_from_bdf id)
]

unfoldable pub any_bar : List BarEntry → ℕ → Bool
any_bar [] addr = false
any_bar (b ∷ bs) addr = leb b.base addr && leb addr b.limit || any_bar bs addr

abbrev pub covers_addr : MmioEntry → ℕ → Bool
covers_addr e addr = any_bar e.bars addr || leb e.base addr && leb addr e.limit

-- The loop over `enumerate(self._mmio_table)`.
unfoldable pub addr_port : List MmioEntry → ℕ → ℕ → Option ℕ
addr_port [] port addr = none
addr_port (e ∷ es) port addr =
    if covers_addr e addr then some port else addr_port es (port + 1) addr

unfoldable pub get_mmio_target_port : PciRoutingTable → ℕ → Option ℕ
get_mmio_target_port t addr = addr_port t.mmio_table 0 addr

unfoldable pub get_secondary_bus_number : PciRoutingTable → ℕ → Result ℕ
get_secondary_bus_number t port_number = elim (get_elem? t.config_space_table port_number) [
  | none ↦ err index_error
  | some e ↦ ok e.secondary_bus
]

-- `activate_vppb` and `deactivate_vppb`, which write the flag of a row.
unfoldable pub write_active : Bool → PciRoutingTable → ℕ → Result PciRoutingTable
write_active flag t vppb_number = elim (get_elem? t.config_space_table vppb_number) [
  | none ↦ err index_error
  | some e ↦ ok (record t {
    config_space_table = set t.config_space_table vppb_number (record e { active = flag });
  })
]

unfoldable pub activate_vppb : PciRoutingTable → ℕ → Result PciRoutingTable
unfolding write_active
activate_vppb = write_active true

unfoldable pub deactivate_vppb : PciRoutingTable → ℕ → Result PciRoutingTable
unfolding write_active
deactivate_vppb = write_active false
