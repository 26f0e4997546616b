-- ===== src/Tests/HomeAgent.antt =====
-- opencxl/cxl/component/root_complex/home_agent.py at an agent with one request and one snoop.
use mathlib.Core.Option
use opencxl_core.Prelude.{
  ℕ, ◌<◌, Option, none, ◌≡◌, ◌⊎◌, ◌*◌, ◌+◌, ◌^◌, refl, inl, arith, true, false, some, List, [], ◌∷◌,
  map, ok, err, ◌>>=◌, attribute_error, unbound_local,
}
use opencxl_core.Cache.Fifo.{CacheRequest, snp_data, snp_inv, rsp_s, rsp_miss}
use opencxl_core.CxlMem.{
  s2m_ndr_packet, s2m_drs_packet, M2sPacket, S2mBisnpPacket, S2mNdrPacket, S2mDrsPacket, m2s_req,
  m2s_rwd, bisnp_inv, bisnp_cur, birsp_i, birsp_s, cmp, cmp_s, cmp_m, mem_data, mem_rd, mem_wr,
  meta_any, meta_shared, meta0_state, meta_invalid, snp_type_no_op, snp_type_data, create_birsp,
  create_mem_rd, create_mem_wr, addr_field, get_address,
}
use opencxl_core.HomeAgent.{
  HomeAgent, new_home_agent, response, snoop_request, coh_state_init, coh_state_start,
  coh_state_wait, snoop_packet, complete, respond, respond_with, process_cxl_s2m_bisnp_packet,
  process_cxl_s2m_rsp_packet, process_cxl_s2m_drs_packet,
}
use opencxl_core.HomeAgent.Loop.{
  step, select, take_snoop, take_host, process_current, process_ndr, process_drs,
  process_upstream_host_to_target_packets, request_packet, is_write,
  process_downstream_target_to_host_packet, turn, here, next, Run,
}
use opencxl_core.HomeAgent.Fairness.{Waiting, NotTaken, Taken, Run-Waiting}
use opencxl_core.HomeAgent.Host.{
  exchange_host, exchange_host-served, served, shared, request_packet-packet_address,
  packet_address,
}
use opencxl_core.HomeAgent.Snoop.{exchange_snoop, exchange_snoop_lem, snoop_missed, birsp_of}
use opencxl_core.HomeAgent.Chunks.{
  write_cxl_mem, write_cxl_mem-joined, joined, chunk_addresses, read_cxl_mem,
  read_cxl_mem-from_chunks, from_chunks, read_chunks, data_packet,
}

abbrev request : CacheRequest
request = record { type = snp_data; addr = 128; size = 64; value = 0 }

abbrev snoop : S2mBisnpPacket
snoop = record { opcode = bisnp_inv; bi_id = 3; bi_tag = 7; addr = 2 }

abbrev both : HomeAgent
both = record new_home_agent {
  cache_requests = some request ∷ [];
  s2m_bisnp = snoop ∷ [];
  snoop_responses = response rsp_s 5 ∷ [];
}

abbrev device_turn : HomeAgent
device_turn = record both { fc_host_run = true }

abbrev snooping : HomeAgent
snooping = record device_turn {
  cur_state = record {
    state = coh_state_start;
    packet = snoop_packet snoop;
    cache_rsp = birsp_i;
    birsp_sched = false;
  };
  s2m_bisnp = [];
  fc_host_run = false;
}

Run-Waiting_example :
    (Waiting snoop snooping × NotTaken device_turn snooping)
    ⊎ ((u : HomeAgent) × Run device_turn u
        × Run u snooping
        × Taken snoop u
        × NotTaken device_turn u)
unfolding step select take_snoop
Run-Waiting_example =
    Run-Waiting snoop device_turn snooping (refl, [], refl) (next here (turn refl refl))

-- The device's shared copy, with its data.
abbrev completion : S2mNdrPacket
completion = record { opcode = cmp_s; meta_field = meta0_state; meta_value = meta_any }

abbrev line : S2mDrsPacket
line = record { opcode = mem_data; data_value = 99 }

abbrev asked_packet : M2sPacket
asked_packet = m2s_req (record {
  mem_opcode = mem_rd;
  meta_field = meta0_state;
  meta_value = meta_shared;
  snp_type = snp_type_data;
  addr = 2;
})

exchange_host-served_example :
    exchange_host (s2m_ndr_packet completion ∷ s2m_drs_packet line ∷ []) both
    ≡ ok (served both request [] asked_packet (response rsp_s 99))
unfolding request_packet create_mem_rd addr_field is_write
exchange_host-served_example =
    exchange_host-served both request [] asked_packet
      (s2m_ndr_packet completion ∷ s2m_drs_packet line ∷ []) (response rsp_s 99)
      (record {
        initial = refl;
        queued = refl;
        turn = inl refl;
        no_ndr = refl;
        no_drs = refl;
        not_sched = refl;
      })
      refl (shared completion line refl refl refl refl)

request_packet-packet_address_test :
    (packet : M2sPacket) × (request_packet request ≡ ok packet) × (packet_address packet ≡ some 128)
request_packet-packet_address_test =
    request_packet-packet_address request refl (omega arith) (omega arith)

abbrev missing : HomeAgent
missing = record device_turn { snoop_responses = response rsp_miss 0 ∷ [] }

abbrev asked_cache : CacheRequest
asked_cache = record { type = snp_inv; addr = 128; size = 0; value = 0 }

snoop_missed_example :
    (step missing >>= step)
    ≡ ok (record missing {
      cur_state = record {
        state = coh_state_init;
        packet = snoop_packet snoop;
        cache_rsp = birsp_i;
        birsp_sched = false;
      };
      s2m_bisnp = [];
      fc_host_run = false;
      snoop_responses = [];
      snoop_requests = asked_cache ∷ [];
      host_to_target = create_birsp birsp_i 3 7 ∷ [];
    })
unfolding snoop_request get_address
snoop_missed_example =
    snoop_missed missing snoop [] (response rsp_miss 0) [] asked_cache
      (record {
        initial = refl;
        queued = refl;
        turn = inl refl;
        answer = refl;
        no_ndr = refl;
        no_drs = refl;
      })
      refl refl

abbrev written_back : M2sPacket
written_back = m2s_rwd (record {
  mem_opcode = mem_wr;
  meta_field = meta0_state;
  meta_value = meta_invalid;
  snp_type = snp_type_no_op;
  addr = 2;
  data_value = 5;
})

exchange_snoop_lem_example :
    exchange_snoop (record completion { opcode = cmp }) device_turn
    ≡ ok (record device_turn {
      cur_state = record {
        state = coh_state_init;
        packet = snoop_packet snoop;
        cache_rsp = birsp_s;
        birsp_sched = false;
      };
      s2m_bisnp = [];
      fc_host_run = false;
      snoop_responses = [];
      snoop_requests = asked_cache ∷ [];
      host_to_target = written_back ∷ create_birsp birsp_s 3 7 ∷ [];
    })
unfolding snoop_request get_address create_mem_wr addr_field birsp_of
exchange_snoop_lem_example =
    exchange_snoop_lem device_turn snoop [] (response rsp_s 5) [] asked_cache written_back
      (record completion { opcode = cmp })
      (record {
        initial = refl;
        queued = refl;
        turn = inl refl;
        answer = refl;
        no_ndr = refl;
        no_drs = refl;
      })
      refl (λ e. ground arith) refl refl

-- A snoop of another opcode has no request of the cache.
bisnp_cur_test : snoop_request (record snoop { opcode = bisnp_cur }) ≡ err unbound_local
unfolding snoop_request
bisnp_cur_test = refl

-- A completion that announces a modified line leaves the status of the response unbound.
cmp_m_test :
    process_cxl_s2m_rsp_packet
      (record completion { opcode = cmp_m; meta_value = meta_invalid })
      both
    ≡ err unbound_local
unfolding process_cxl_s2m_rsp_packet respond respond_with
cmp_m_test = refl

-- Data that arrives while the response to a snoop is scheduled ends the exchange, and the response
-- stays scheduled: when the next request of the cache is completed, its packet has no tags.
abbrev waiting_snoop : HomeAgent
waiting_snoop = record snooping {
  cur_state = record (snooping.cur_state) { state = coh_state_wait; birsp_sched = true };
  s2m_drs = line ∷ [];
  cache_responses = [];
}

stale_response_test :
    (step waiting_snoop
      >>= step
      >>= step
      >>= process_downstream_target_to_host_packet
          (s2m_ndr_packet (record completion { opcode = cmp }))
      >>= step)
    ≡ err attribute_error
unfolding step select take_host process_current process_ndr process_drs
    process_upstream_host_to_target_packets process_cxl_s2m_bisnp_packet process_cxl_s2m_drs_packet
    process_cxl_s2m_rsp_packet process_downstream_target_to_host_packet request_packet create_mem_rd
    complete is_write
stale_response_test = refl

write_cxl_mem-joined_example :
    (ps : List M2sPacket) × (write_cxl_mem (λ i. true) 64 128 (3 + 5 * 2 ^ 512) ≡ ok ps)
    × (map packet_address ps ≡ chunk_addresses 2 64)
    × (joined ps ≡ 3 + 5 * 2 ^ 512)
write_cxl_mem-joined_example =
    write_cxl_mem-joined (λ i. true) 64 128 (3 + 5 * 2 ^ 512) (λ i. refl) refl refl (omega arith)
      (omega arith)

-- Every chunk is 9.
nines : (i value : ℕ) → ◌≡◌ {A = Option ℕ} (some 9) (some value) → value < 2 ^ 512
nines i value e = let nine : value ≡ 9 = ground arith in omega (arith, nine)

read_cxl_mem-from_chunks_example :
    read_cxl_mem (λ p. data_packet (some 9)) 64 128
    ≡ ok (Option.map (λ f. f * 2 ^ 512) (from_chunks 2 (λ i. some 9)))
read_cxl_mem-from_chunks_example =
    read_cxl_mem-from_chunks (λ p. data_packet (some 9)) (λ i. some 9) 64 refl (λ p i e. refl) nines
      128 refl (omega arith)

timed_out_test : read_cxl_mem (λ p. none) 64 128 ≡ ok none
unfolding read_cxl_mem read_chunks create_mem_rd
timed_out_test = refl
