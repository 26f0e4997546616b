-- ===== src/Tests/Mmio.antt =====
-- opencxl/pci/component/mmio_manager.py at a device with one BAR of sixteen bytes.
use opencxl_core.Prelude.{ℕ, ◌≡◌, refl, true, false, List, [], ◌∷◌, some, replicate, ok}
use opencxl_core.Bytes.{put_slice, slice, from_bytes, to_bytes}
use opencxl_core.Bytes
use opencxl_core.Number.{round_up_to_power_of_2}
use opencxl_core.Mmio.{
  address_32bit, MmioManager, mem_read, mem_write, MemRequest, Output, bar_bytes, get_bar_size,
  claims, find_register, get_register_and_offset, put_register, process_mmio_packet,
}
use opencxl_core.Mmio.Register.{
  MaskedBits, masked_bits, no_fields, byte_field, structure_field, MaskedRegister, masked_ops,
  write_masked, let_through,
}

-- Sixteen bytes that can be written, but for the four bits 4 to 7 of byte 4; bytes 4 to 7 are a structure with
-- the same mask.
abbrev mask : List ℕ
mask = 255 ∷ 255 ∷ 255 ∷ 255 ∷ 0x0f ∷ replicate 11 255

abbrev field_mask : List ℕ
field_mask = 0x0f ∷ 255 ∷ 255 ∷ 255 ∷ []

abbrev bits : MaskedBits
bits =
    masked_bits (record { buffer = mask; size = 16; offset = 0 }) false
      (byte_field 0 3 (
        structure_field 4 7
          (masked_bits (record { buffer = field_mask; size = 4; offset = 0 }) true no_fields)
          no_fields))

abbrev register : List ℕ → MaskedRegister
register bytes = record { bits = bits; bytes = record { buffer = bytes; size = 16; offset = 0 } }

abbrev zeros : MaskedRegister
zeros = register (replicate 16 0)

abbrev device : MmioManager MaskedRegister
device = record {
  bridge = false;
  memory_base = 0;
  memory_limit = 0;
  prefetchable_memory_base = 0;
  prefetchable_memory_limit = 0;
  bar_entries =
      record {
        register = some zeros;
        base_address = 0x1000;
        size_override = 0;
        info = record { prefetchable = false; memory_type = address_32bit };
      }
      ∷ [];
}

abbrev request : MemRequest
request = record {
  type = mem_read;
  address = 0x1004;
  size = 2;
  req_id = 0x1234;
  tag = 7;
  ld_id = 0;
}

abbrev after : MmioManager MaskedRegister
after = put_register masked_ops device 0 (register (0 ∷ 0 ∷ 0 ∷ 0 ∷ 0x0d ∷ 0xab ∷ replicate 10 0))

abbrev no_outputs : List Output
no_outputs = []

size_test : get_bar_size masked_ops device 0 ≡ 0x1000
unfolding get_bar_size bar_bytes round_up_to_power_of_2
size_test = refl

done_write :
    process_mmio_packet masked_ops false device (record request { type = mem_write 0xabcd })
    ≡ ok (after, [])
unfolding process_mmio_packet get_register_and_offset find_register claims write_masked
    Bytes.write_bytes Bytes.read_bytes put_slice slice from_bytes to_bytes
done_write = refl

kept_test : let_through bits 4 5 0 0xabcd ≡ 0xab0d
unfolding let_through Bytes.read_bytes slice from_bytes
kept_test = refl
