-- ===== src/Tests/MemDcoh.antt =====
-- opencxl/cxl/component/cxl_mem_dcoh.py at a device whose decoders take every address unchanged.
use opencxl_core.Prelude.{
  ℕ, ◌≡◌, ◌++◌, refl, inl, arith, true, Option, some, List, [], ◌∷◌, ok, err, attribute_error,
}
use opencxl_core.Cache.Fifo.{CacheRequest, CacheResponse, snp_data, rsp_s}
use opencxl_core.CxlMem.{
  M2sPacket, M2sReqPacket, M2sRwdPacket, S2mPacket, s2m_ndr_packet, s2m_drs_packet, S2mNdrOpcode,
  cmp, mem_data, mem_rd, mem_wr, meta_no_op, meta0_state, meta_any, meta_shared, meta_invalid,
  snp_type_no_op, snp_type_data, create_cmp, get_address,
}
use opencxl_core.HomeAgent.{HomeAgent, new_home_agent, response, coh_state_start}
use opencxl_core.HomeAgent.Loop.{request_packet}
use opencxl_core.HomeAgent.Host.{exchange_host, served}
use opencxl_core.MemDcoh.{MemDcoh, new_mem_dcoh, snoop_type, is_data_read}
use opencxl_core.MemDcoh.Handlers.{
  step, process_host_to_target, read_cached, process_cxl_m2s_rwd_packet, process_cxl_m2s_req_packet,
  process_cache_to_dcoh,
}
use opencxl_core.MemDcoh.Reply.{packets}
use opencxl_core.MemDcoh.Exchange.{exchange-served}
use opencxl_core.MemDcoh.Filter.{entered, is_grant, read_cached-sf_host}
use opencxl_core.MemDcoh.Memory.{read_uncached-write_uncached}

abbrev decode : ℕ → Option ℕ
decode hpa = some hpa

abbrev request : CacheRequest
request = record { type = snp_data; addr = 128; size = 64; value = 0 }

abbrev host : HomeAgent
host = record new_home_agent { cache_requests = some request ∷ [] }

abbrev device : MemDcoh
device = record new_mem_dcoh {
  has_device = true;
  memory = λ dpa. 42;
  snoop_responses = response rsp_s 7 ∷ [];
}

exchange-served_example :
    (packet : M2sPacket) × (d' : MemDcoh) × (replies : List S2mPacket) × (c : CacheResponse)
    × (request_packet request ≡ ok packet)
    × (step decode (process_host_to_target packet device) ≡ ok d')
    × (d'.target_to_host ≡ device.target_to_host ++ replies)
    × (exchange_host replies host ≡ ok (served host request [] packet c))
exchange-served_example =
    exchange-served decode host request [] device (response rsp_s 7) []
      (record {
        initial = refl;
        queued = refl;
        turn = inl refl;
        no_ndr = refl;
        no_drs = refl;
        not_sched = refl;
      })
      (record {
        has_device = refl;
        initial = refl;
        no_requests = refl;
        no_req = refl;
        no_rwd = refl;
        answer = refl;
        answer_size = omega arith;
        line_size = λ a. omega arith;
      })
      refl (omega arith) (omega arith) tt

abbrev shared_read : M2sReqPacket
shared_read = record {
  mem_opcode = mem_rd;
  meta_field = meta0_state;
  meta_value = meta_shared;
  snp_type = snp_type_data;
  addr = 2;
}

read_cached-sf_host_example :
    (d' : MemDcoh) × (op : S2mNdrOpcode) × (value : ℕ) × (read_cached decode shared_read device
      ≡ ok d')
    × (d'.target_to_host ≡ [] ++ packets true op value)
    × ((a : Option ℕ) → d'.sf_host a ≡ entered (is_grant op) (some 128) device a)
unfolding get_address is_data_read snoop_type
read_cached-sf_host_example =
    read_cached-sf_host decode shared_read device (response rsp_s 7) [] snp_data refl refl
      (omega arith) (λ a. omega arith)

abbrev line_write : M2sRwdPacket
line_write = record {
  mem_opcode = mem_wr;
  meta_field = meta_no_op;
  meta_value = meta_any;
  snp_type = snp_type_no_op;
  addr = 2;
  data_value = 99;
}

abbrev line_read : M2sReqPacket
line_read = record {
  mem_opcode = mem_rd;
  meta_field = meta_no_op;
  meta_value = meta_any;
  snp_type = snp_type_no_op;
  addr = 2;
}

read_uncached-write_uncached_example :
    (d' : MemDcoh) × (process_cxl_m2s_rwd_packet decode line_write device ≡ ok d')
    × (d'' : MemDcoh) × (process_cxl_m2s_req_packet decode line_read d' ≡ ok d'')
    × (d''.target_to_host
        ≡ s2m_ndr_packet (create_cmp cmp meta_no_op meta_invalid)
          ∷ s2m_drs_packet (record { opcode = mem_data; data_value = 99 })
          ∷ [])
unfolding get_address
read_uncached-write_uncached_example =
    read_uncached-write_uncached decode line_write line_read device 128 refl refl refl refl refl
      (omega arith)

-- A request of the device's cache ends the loop.
process_cache_to_dcoh_test :
    process_cache_to_dcoh (record device { state = coh_state_start; packet = some request })
    ≡ err attribute_error
unfolding process_cache_to_dcoh
process_cache_to_dcoh_test = refl
