-- ===== src/Tests/Pci.antt =====
-- opencxl/util/pci.py at one BDF, and opencxl/pci/component/routing_table.py at a table of two
-- ports.
use opencxl_core.Prelude.{◌≡◌, refl, arith, true, false, [], ◌∷◌, some, ◌↔◌, length, get_elem?, ok}
use opencxl_core.Pci.Bdf.{
  create_bdf, extract_bus_from_bdf, extract_device_from_bdf, extract_function_from_bdf,
  generate_bdfs_for_bus, extract-create_bdf, create_bdf-extract, generate_bdfs_for_bus_lem,
}
use opencxl_core.Pci.Routing.{
  PciRoutingTable, new_mmio_entry, new_table, get_config_space_target_port, deactivate_vppb,
  write_active, get_mmio_target_port, count_active,
}
use opencxl_core.Pci.Routing.Laws.{
  FirstCovers, get_config_space_target_port-remote, deactivate_vppb-local,
  get_mmio_target_port-new_table,
}

extract-create_bdf_test :
    (extract_bus_from_bdf (create_bdf 3 17 2) ≡ 3)
    × (extract_device_from_bdf (create_bdf 3 17 2) ≡ 17)
    × (extract_function_from_bdf (create_bdf 3 17 2) ≡ 2)
extract-create_bdf_test = extract-create_bdf 3 17 2 (omega arith) (omega arith) (omega arith)

create_bdf-extract_test :
    create_bdf
      (extract_bus_from_bdf 0x3ff)
      (extract_device_from_bdf 0x3ff)
      (extract_function_from_bdf 0x3ff)
    ≡ 0x3ff
create_bdf-extract_test = create_bdf-extract 0x3ff (omega arith)

generate_bdfs_for_bus_lem_test :
    (length (generate_bdfs_for_bus 1) ≡ 256)
    × (get_elem? (generate_bdfs_for_bus 1) 10 ≡ some (create_bdf 1 1 2))
generate_bdfs_for_bus_lem_test = generate_bdfs_for_bus_lem 1 10 (omega arith)

-- Port 0 leads to buses 2 and 3, port 1 to bus 4; the router is on bus 1.
abbrev table : PciRoutingTable
table = record {
  router_bus_number = some 1;
  table_size = 2;
  mmio_table = new_mmio_entry ∷ new_mmio_entry ∷ [];
  config_space_table =
      record { secondary_bus = 2; subordinate_bus = 3; active = true }
      ∷ record { secondary_bus = 4; subordinate_bus = 4; active = true }
      ∷ [];
}

abbrev half : PciRoutingTable
half = record table {
  config_space_table =
      record { secondary_bus = 2; subordinate_bus = 3; active = false }
      ∷ record { secondary_bus = 4; subordinate_bus = 4; active = true }
      ∷ [];
}

deactivated : deactivate_vppb table 0 ≡ ok half
unfolding deactivate_vppb write_active
deactivated = refl

get_config_space_target_port-remote_example :
    (get_config_space_target_port table 0x400 ≡ some 1) ↔ FirstCovers table.config_space_table 1 4
unfolding extract_bus_from_bdf
get_config_space_target_port-remote_example = get_config_space_target_port-remote table 0x400 1 refl

deactivate_vppb-local_example : get_config_space_target_port half 0x100 ≡ some 0
unfolding extract_bus_from_bdf extract_device_from_bdf count_active
deactivate_vppb-local_example = deactivate_vppb-local table 0 0x100 refl refl deactivated

get_mmio_target_port-new_table_test : get_mmio_target_port (new_table 2) 0 ≡ some 0
get_mmio_target_port-new_table_test = get_mmio_target_port-new_table 2 0
