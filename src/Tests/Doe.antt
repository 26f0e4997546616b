-- ===== src/Tests/Doe.antt =====
-- opencxl/pci/component/doe_mailbox.py at a mailbox of sixteen bytes.
use opencxl_core.Prelude.{◌≡◌, refl, arith, [], ◌∷◌, replicate, ok}
use opencxl_core.Bytes.{
  ShareableByteArray, new_array, get_item, set_item, slice, put_slice, from_bytes, to_bytes,
  to_bytes_of, write_bytes, read_bytes, copy_items, copy_from,
}
use opencxl_core.Doe.{
  DoeMailboxComponent, get_protocol_id, get_protocol, discovered, discovery_request, discovery, go,
  request_next_data, read_next_data, write_next_data,
}
use opencxl_core.Doe.Laws.{requests, requests-response, write_next_data_lem}

abbrev blank : ShareableByteArray
blank = record { buffer = replicate 16 0; size = 16; offset = 0 }

-- A discovery request for index 0, of which two double words are written.
abbrev asked : DoeMailboxComponent
asked = record {
  context = record {
    read_mailbox_index = 0;
    read_mailbox_len = 0;
    write_mailbox_len = 2;
    write_mailbox = record blank { buffer = 1 ∷ 0 ∷ 0 ∷ 0 ∷ 3 ∷ replicate 11 0 };
    read_mailbox = blank;
  };
  protocols = discovery ∷ [];
  doe_busy = 0;
  doe_interrupt_status = 0;
  doe_error = 0;
  data_object_ready = 0;
}

abbrev complete : DoeMailboxComponent
complete = record asked { context = record (asked.context) { write_mailbox_len = 3 } }

abbrev answered : DoeMailboxComponent
answered = record complete {
  context = record (complete.context) {
    read_mailbox_len = 3;
    read_mailbox = record blank {
      buffer = 1 ∷ 0 ∷ 0 ∷ 0 ∷ 3 ∷ 0 ∷ 0 ∷ 0 ∷ 1 ∷ 0 ∷ 0 ∷ 0 ∷ 0 ∷ 0 ∷ 0 ∷ 0 ∷ [];
    };
  };
  data_object_ready = 1;
}

go_test : go complete ≡ ok answered
unfolding go get_protocol get_protocol_id discovered discovery_request discovery new_array get_item
    set_item slice put_slice from_bytes to_bytes to_bytes_of write_bytes read_bytes copy_items
    copy_from
go_test = refl

read_test : read_next_data (request_next_data answered) ≡ 3
unfolding read_next_data request_next_data read_bytes slice from_bytes
read_test = refl

requests-response_example :
    ((requests 2 answered).data_object_ready ≡ 1)
    × ((requests 2 answered).context.read_mailbox_index ≡ 2)
    × ((request_next_data (requests 2 answered)).data_object_ready ≡ 0)
    × ((request_next_data (requests 2 answered)).context.write_mailbox_len ≡ 0)
    × ((request_next_data (requests 2 answered)).doe_error ≡ 0)
requests-response_example = requests-response 2 answered refl refl

write_next_data_lem_test :
    (d : DoeMailboxComponent) × (write_next_data asked 7 ≡ ok d)
    × (read_bytes d.context.write_mailbox 8 11 ≡ 7)
    × (read_bytes d.context.write_mailbox 4 7 ≡ read_bytes asked.context.write_mailbox 4 7)
    × (d.context.write_mailbox_len ≡ 3)
write_next_data_lem_test = write_next_data_lem asked 7 1 (omega arith) (omega arith) (omega arith)
