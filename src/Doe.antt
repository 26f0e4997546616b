-- ===== src/Doe.antt =====
-- opencxl/pci/component/doe_mailbox.py: the DOE mailbox, through which software sends a request as
-- double words and reads the response. Log messages are left out.
pub mod Laws
use Prim.Native.Nat.{bit_and, bit_or}
use opencxl_core.Prelude.{
  ℕ, zero, suc, ◌+◌, ◌*◌, ◌^◌, Bool, true, false, not, List, [], ◌∷◌, ◌++◌, Option, none, some,
  if◌then◌else◌, ltb, leb, ◌==◌, ◌||◌, length, get_elem?, map, Result, ok, err, ◌>>=◌,
}
use opencxl_core.Prelude.Bits.{shl, shr}
use opencxl_core.Bytes.{ShareableByteArray, new_array, reset, write_bytes, read_bytes, copy_from}

abbrev pub dword_bytes : ℕ
dword_bytes = 4

abbrev pub max_mailbox_size : ℕ
max_mailbox_size = shl 1 18 * dword_bytes

-- `DoeMailboxContext`, less the protocols, which no operation changes.
pub record DoeMailboxContext : Type 0 where
  pub read_mailbox_index : ℕ
  pub read_mailbox_len : ℕ
  pub write_mailbox_len : ℕ
  pub write_mailbox : ShareableByteArray
  pub read_mailbox : ShareableByteArray

pub record ProtocolIds : Type 0 where
  pub vendor_id : ℕ
  pub data_object_type : ℕ

-- A `DoeMailboxProtocolBase`. `process_request` is given the identities of all protocols beside the
-- rest of the context; it returns the new context beside its answer, or raises.
pub record DoeMailboxProtocol : Type 0 where
  pub ids : ProtocolIds
  pub process_request : List ProtocolIds → DoeMailboxContext → Result (DoeMailboxContext × Bool)

pub record DoeMailboxComponent : Type 0 where
  pub context : DoeMailboxContext
  pub protocols : List DoeMailboxProtocol
  pub doe_busy : ℕ
  pub doe_interrupt_status : ℕ
  pub doe_error : ℕ
  pub data_object_ready : ℕ

unfoldable pub get_protocol_id : ProtocolIds → ℕ
get_protocol_id p = bit_or (bit_and p.vendor_id 0xffff) (shl (bit_and p.data_object_type 0xff) 16)

-- The first protocol with the identity.
unfoldable pub get_protocol : List DoeMailboxProtocol → ℕ → Option DoeMailboxProtocol
get_protocol [] protocol_id = none
get_protocol (p ∷ ps) protocol_id =
    if get_protocol_id p.ids == protocol_id then some p else get_protocol ps protocol_id

-- The vendor, the type and the next index of a `DoeDiscoveryResponse` to an index.
unfoldable pub discovered : List ProtocolIds → ℕ → ℕ × ℕ × ℕ
discovered protocols index = elim (get_elem? protocols index) [
  | none ↦ (0xffff, 0xff, 0)
  | some p ↦
      (p.vendor_id, p.data_object_type, if index + 1 == length protocols then 0 else index + 1)
]

-- `DoeMailboxProtocolDoeDiscovery.process_request`. The index is byte 8 of the request. A field of
-- the response is set by a write of its bytes: in the header the vendor at 0 and 1, the type at 2
-- and the length in double words at 4 and 5; then the vendor at 8 and 9, the type at 10 and the next
-- index at 11.
unfoldable pub discovery_request :
    List ProtocolIds → DoeMailboxContext → Result (DoeMailboxContext × Bool)
discovery_request protocols c = if not (c.write_mailbox_len == 3) then ok (c, false) else (do
  let index = read_bytes c.write_mailbox 8 8
  let (vendor_id, data_object_type, next_index) = discovered protocols index
  r₁ ← write_bytes (new_array 12) 0 1 0x0001
  r₂ ← write_bytes r₁ 2 2 0x00
  r₃ ← write_bytes r₂ 4 5 3
  r₄ ← write_bytes r₃ 8 9 vendor_id
  r₅ ← write_bytes r₄ 0xa 0xa data_object_type
  r₆ ← write_bytes r₅ 0xb 0xb next_index
  read_mailbox ← copy_from c.read_mailbox r₆ 0
  ok (record c { read_mailbox = read_mailbox; read_mailbox_len = read_bytes r₆ 4 5 }, true))

unfoldable pub discovery : DoeMailboxProtocol
discovery = record {
  ids = record { vendor_id = 0x0001; data_object_type = 0x00 };
  process_request = discovery_request;
}

unfoldable pub new_component : List DoeMailboxProtocol → DoeMailboxComponent
new_component protocols = record {
  context = record {
    read_mailbox_index = 0;
    read_mailbox_len = 0;
    write_mailbox_len = 0;
    write_mailbox = new_array max_mailbox_size;
    read_mailbox = new_array max_mailbox_size;
  };
  protocols = discovery ∷ protocols;
  doe_busy = 0;
  doe_interrupt_status = 0;
  doe_error = 0;
  data_object_ready = 0;
}

unfoldable pub reset_mailbox : DoeMailboxContext → DoeMailboxContext
reset_mailbox c = record {
  read_mailbox_index = 0;
  read_mailbox_len = 0;
  write_mailbox_len = 0;
  write_mailbox = reset c.write_mailbox [];
  read_mailbox = reset c.read_mailbox [];
}

unfoldable pub abort : DoeMailboxComponent → DoeMailboxComponent
abort d = record d { context = reset_mailbox d.context; data_object_ready = 0; doe_error = 0 }

abbrev pub has_error : DoeMailboxComponent → Bool
has_error d = d.doe_error == 1

abbrev pub is_object_ready : DoeMailboxComponent → Bool
is_object_ready d = d.data_object_ready == 1

-- `go`. An exception of the protocol leaves the component as the protocol left it, which is not
-- modelled: the state is not returned then.
unfoldable pub go : DoeMailboxComponent → Result DoeMailboxComponent
go d =
    if has_error d
    then ok d
    else elim (get_protocol d.protocols (read_bytes d.context.write_mailbox 0 3)) [
      | none ↦ ok (record d { context = reset_mailbox d.context })
      | some p ↦ elim (p.process_request (map (λ q. q.ids) d.protocols) d.context) [
        | err e ↦ err e
        | ok (c, successful) ↦
            if not successful
            then ok (record d { context = reset_mailbox c })
            else ok (record d { context = c; data_object_ready = 1 })
      ]
    ]

unfoldable pub request_next_data : DoeMailboxComponent → DoeMailboxComponent
request_next_data d =
    if not (is_object_ready d)
    then record d { doe_error = 1 }
    else (let index = d.context.read_mailbox_index + 1 in
        let c = record (d.context) { read_mailbox_index = index } in
        if index == c.read_mailbox_len
        then record d { context = reset_mailbox c; data_object_ready = 0 }
        else if ltb c.read_mailbox_len index
        then record d { context = c; doe_error = 1 }
        else record d { context = c })

unfoldable pub read_next_data : DoeMailboxComponent → ℕ
read_next_data d =
    if has_error d || not (is_object_ready d)
    then 0
    else (let mailbox_start_offset = d.context.read_mailbox_index * dword_bytes in
        read_bytes d.context.read_mailbox mailbox_start_offset (mailbox_start_offset + 3))

unfoldable pub write_next_data : DoeMailboxComponent → ℕ → Result DoeMailboxComponent
write_next_data d value = do
  let mailbox_start_offset = d.context.write_mailbox_len * dword_bytes
  written ←
      write_bytes d.context.write_mailbox mailbox_start_offset (mailbox_start_offset + 3) value
  ok (record d {
    context = record (d.context) {
      write_mailbox = written;
      write_mailbox_len = d.context.write_mailbox_len + 1;
    };
  })
