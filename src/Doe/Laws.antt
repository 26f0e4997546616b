-- ===== src/Doe/Laws.antt =====
-- opencxl/pci/component/doe_mailbox.py: how a request is written and a response is read.
use opencxl_core.Prelude.{
  ℕ, zero, suc, ◌+◌, ◌-◌, ◌*◌, ◌^◌, ◌<◌, ◌≡◌, refl, sym, subst, ◌∙◌, inl, arith, length, ok,
}
use opencxl_core.Bytes.{read_bytes}
use opencxl_core.Bytes.Laws.{read_bytes-write_bytes, read_bytes-write_bytes_disjoint}
use opencxl_core.Doe.{DoeMailboxComponent, reset_mailbox, request_next_data, write_next_data}

-- `request_next_data`, that many times.
abbrev pub requests : ℕ → DoeMailboxComponent → DoeMailboxComponent
requests zero d = d
requests (suc n) d = requests n (request_next_data d)

next_inside :
    (d : DoeMailboxComponent)
    → d.data_object_ready ≡ 1
    → d.context.read_mailbox_index + 1 < d.context.read_mailbox_len
    → request_next_data d ≡ record d {
      context = record (d.context) { read_mailbox_index = d.context.read_mailbox_index + 1 };
    }
unfolding request_next_data
next_inside d ready inside = ground arith

next_last :
    (d : DoeMailboxComponent)
    → d.data_object_ready ≡ 1
    → d.context.read_mailbox_index + 1 ≡ d.context.read_mailbox_len
    → ((request_next_data d).data_object_ready ≡ 0)
      × ((request_next_data d).context.write_mailbox_len ≡ 0)
      × ((request_next_data d).doe_error ≡ d.doe_error)
unfolding request_next_data reset_mailbox
next_last d ready last = ground arith

-- With a response of `k` double words beyond the current one, and one more, `k` requests move on by
-- `k` double words and keep the response ready; the next request ends it: the mailbox is empty, no
-- data is ready, and the error status is as it was.
pub requests-response :
    (k : ℕ) (d : DoeMailboxComponent)
    → d.data_object_ready ≡ 1
    → d.context.read_mailbox_index + k + 1 ≡ d.context.read_mailbox_len
    → ((requests k d).data_object_ready ≡ 1)
      × ((requests k d).context.read_mailbox_index ≡ d.context.read_mailbox_index + k)
      × ((request_next_data (requests k d)).data_object_ready ≡ 0)
      × ((request_next_data (requests k d)).context.write_mailbox_len ≡ 0)
      × ((request_next_data (requests k d)).doe_error ≡ d.doe_error)
requests-response zero d ready last =
    let (ended, emptied, same) = next_last d ready (omega arith) in
    (ready, omega arith, ended, emptied, same)
requests-response (suc k) d ready last =
    let index = d.context.read_mailbox_index + 1 in
    let d₁ = record d { context = record (d.context) { read_mailbox_index = index } } in
    let (still, place, ended, emptied, same) = requests-response k d₁ ready (omega arith) in
    subst
      (λ e.
        ((requests k e).data_object_ready ≡ 1)
        × ((requests k e).context.read_mailbox_index ≡ d.context.read_mailbox_index + suc k)
        × ((request_next_data (requests k e)).data_object_ready ≡ 0)
        × ((request_next_data (requests k e)).context.write_mailbox_len ≡ 0)
        × ((request_next_data (requests k e)).doe_error ≡ d.doe_error))
      (sym (next_inside d ready (omega arith))) (still, place ∙ omega arith, ended, emptied, same)

-- A double word that is written inside the write mailbox is there, the words that were written
-- before it are not changed, and one more word counts as written.
pub write_next_data_lem :
    (d : DoeMailboxComponent) (value i : ℕ)
    → value < 2 ^ 32
    → d.context.write_mailbox_len * 4 + 3 + d.context.write_mailbox.offset
      < length d.context.write_mailbox.buffer
    → i < d.context.write_mailbox_len
    → (d' : DoeMailboxComponent) × (write_next_data d value ≡ ok d')
      × (read_bytes d'.context.write_mailbox
            (d.context.write_mailbox_len * 4)
            (d.context.write_mailbox_len * 4 + 3)
          ≡ value)
      × (read_bytes d'.context.write_mailbox (i * 4) (i * 4 + 3)
          ≡ read_bytes d.context.write_mailbox (i * 4) (i * 4 + 3))
      × (d'.context.write_mailbox_len ≡ d.context.write_mailbox_len + 1)
unfolding write_next_data
write_next_data_lem d value i fits inside before =
    let at = d.context.write_mailbox_len * 4 in
    let width : at + 3 + 1 - at ≡ 4 = omega arith in
    let (a, written, there) =
      read_bytes-write_bytes d.context.write_mailbox at (at + 3) value (omega arith) inside
        (rw width fits) in
    let kept =
      read_bytes-write_bytes_disjoint d.context.write_mailbox at (at + 3) value (i * 4) (i * 4 + 3)
        (omega arith) inside (omega arith) (inl (omega arith)) written in
    (
      record d {
        context = record (d.context) {
          write_mailbox = a;
          write_mailbox_len = d.context.write_mailbox_len + 1;
        };
      },
      rw written refl,
      there,
      kept,
      refl,
    )
