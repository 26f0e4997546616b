-- ===== src/HomeAgent/Chunks.antt =====
-- opencxl/cxl/component/root_complex/home_agent.py: `write_cxl_mem` and `read_cxl_mem`, which move
-- a number to and from the device in chunks of 64 bytes.
use Prim.Native.Nat.{bit_or}
use mathlib.Core.Option
use native.Mathlib.Nat.{pow-suc, add-mul, mul_assoc, mul_comm}
use opencxl_core.Prelude.{
  inl, inr, Option-cases, none, err, assertion_error, ap₂, sym, ◌∙◌, ℕ, zero, suc, ◌+◌, ◌*◌, ◌/◌,
  ◌≡◌, ◌%◌, ◌^◌, ◌<◌, ◌≤◌, refl, ap, arith, Bool, true, ◌||◌, not, Option, some, List, [], ◌∷◌, map,
  Result, ok, ◌>>=◌, ◌>>◌, guard, if◌then◌else◌, ◌==◌, exception, Result-cases,
}
use opencxl_core.Prelude.Bits.{shl, shr, bit_or-shl}
use opencxl_core.CxlMem.{
  M2sPacket, S2mPacket, s2m_drs_packet, mem_data, mem_data_nxm, m2s_req, m2s_rwd, m2s_birsp, mem_wr,
  mem_rd, meta_no_op, meta_any, snp_type_no_op, create_mem_wr, create_mem_rd,
}
use opencxl_core.HomeAgent.Host.{packet_address, get_address-addr_field}

-- One turn of the loop for each count of the first argument, from the chunk `chunk_count` on. What is
-- sent is returned; `answered i` tells that something came back for chunk `i` within the timeout.
unfoldable pub write_chunks : ℕ → (ℕ → Bool) → ℕ → ℕ → ℕ → Result (List M2sPacket)
write_chunks zero answered addr chunk_count value = ok []
write_chunks (suc n) answered addr chunk_count value = do
  let later = write_chunks n answered addr (chunk_count + 1) (shr value 512)
  packet ←
      create_mem_wr (addr + chunk_count * 64) (value % 2 ^ 512) mem_wr meta_no_op meta_any
        snp_type_no_op
  rest ← if answered chunk_count then later else ok []
  ok (packet ∷ rest)

abbrev is_aligned : ℕ → Bool
is_aligned n = (n % 64) == 0

-- `size` goes down by 64 in each turn, until it is 0.
unfoldable pub write_cxl_mem : (ℕ → Bool) → ℕ → ℕ → ℕ → Result (List M2sPacket)
unfolding write_chunks
write_cxl_mem answered addr size value =
    guard (not (not (is_aligned addr) || not (is_aligned size))) exception
    >> write_chunks (size / 64) answered addr 0 value

-- `is_cxl_mem_data`, asserted, and the data.
unfoldable pub mem_data_of : S2mPacket → Result ℕ
mem_data_of (s2m_drs_packet p) = elim p.opcode [
  | mem_data ↦ ok p.data_value
  | mem_data_nxm ↦ err assertion_error
]
mem_data_of _ = err assertion_error

-- The loop of `read_cxl_mem`. `answer` is what this loop takes from the fifo within the timeout, behind a
-- request; the agent's task that distributes the device's packets takes from the same fifo.
unfoldable pub read_chunks : ℕ → (M2sPacket → Option S2mPacket) → ℕ → ℕ → Result (Option ℕ)
unfolding mem_data_of
read_chunks zero answer addr result = ok (some result)
read_chunks (suc n) answer addr result =
    create_mem_rd (addr + n * 64) mem_rd meta_no_op meta_any snp_type_no_op >>= λ packet.
    elim (answer packet) [
      | none ↦ ok none
      | some p ↦
          mem_data_of p >>= λ value. read_chunks n answer addr (shl (bit_or result value) 512)
    ]

unfoldable pub read_cxl_mem : (M2sPacket → Option S2mPacket) → ℕ → ℕ → Result (Option ℕ)
unfolding read_chunks
read_cxl_mem answer addr size =
    guard (not (not (is_aligned addr) || not (is_aligned size))) exception
    >> read_chunks (size / 64) answer addr 0

-- The data of packets in the order of their addresses, as one number.
unfoldable pub joined : List M2sPacket → ℕ
joined [] = 0
joined (m2s_rwd p ∷ ps) = p.data_value + 2 ^ 512 * joined ps
joined (p ∷ ps) = 2 ^ 512 * joined ps

-- The addresses of `n` chunks that follow each other.
unfoldable pub chunk_addresses : ℕ → ℕ → List (Option ℕ)
chunk_addresses zero addr = []
chunk_addresses (suc n) addr = some addr ∷ chunk_addresses n (addr + 64)

create_mem_wr-eq :
    (a v : ℕ)
    → a % 64 ≡ 0
    → a < 2 ^ 52
    → (p : M2sPacket) × (create_mem_wr a (v % 2 ^ 512) mem_wr meta_no_op meta_any snp_type_no_op
        ≡ ok p)
      × (packet_address p ≡ some a)
      × ((ps : List M2sPacket) → joined (p ∷ ps) ≡ v % 2 ^ 512 + 2 ^ 512 * joined ps)
unfolding create_mem_wr packet_address joined
create_mem_wr-eq a v h b =
    elim (Result-cases (create_mem_wr a (v % 2 ^ 512) mem_wr meta_no_op meta_any snp_type_no_op)) [
      | inr (x, e) ↦ absurd (ground arith)
      | inl (m2s_rwd q, e) ↦
          (m2s_rwd q, e, ground (arith, get_address-addr_field a h b), λ ps. ground arith)
      | inl (m2s_req q, e) ↦ absurd (ground arith)
      | inl (m2s_birsp q, e) ↦ absurd (ground arith)
    ]

write_chunks_lem :
    (n : ℕ) (answered : ℕ → Bool) (addr c value : ℕ)
    → ((i : ℕ) → answered i ≡ true)
    → addr % 64 ≡ 0
    → addr + (c + n) * 64 ≤ 2 ^ 52
    → value < (2 ^ 512) ^ n
    → (ps : List M2sPacket) × (write_chunks n answered addr c value ≡ ok ps)
      × (map packet_address ps ≡ chunk_addresses n (addr + c * 64))
      × (joined ps ≡ value)
unfolding write_chunks chunk_addresses joined
write_chunks_lem zero answered addr c value all a b v = ([], refl, refl, omega arith)
write_chunks_lem (suc n) answered addr c value all a b v =
    let fits : value / 2 ^ 512 < (2 ^ 512) ^ n = omega (arith, pow-suc (2 ^ 512) n) in
    let (ps, e, q, j) =
      write_chunks_lem n answered addr (c + 1) (value / 2 ^ 512) all a (omega arith) fits in
    let (p, e', q', j') = create_mem_wr-eq (addr + c * 64) value (omega arith) (omega arith) in
    (
      p ∷ ps,
      rw (e', all c, e) refl,
      ap₂ (λ x y. x ∷ y) q' (q ∙ ap (chunk_addresses n) (omega arith)),
      omega (arith, j, j' ps),
    )

-- `write_cxl_mem` of a number that fits in `size` bytes, with address and size multiples of 64 below
-- 2 ^ 52, and every answer within its timeout: the packets write consecutive chunks from `addr` on, one for
-- each 64 bytes of `size`, and their data in this order is the number.
pub write_cxl_mem-joined :
    (answered : ℕ → Bool) (addr size value : ℕ)
    → ((i : ℕ) → answered i ≡ true)
    → addr % 64 ≡ 0
    → size % 64 ≡ 0
    → addr + size ≤ 2 ^ 52
    → value < (2 ^ 512) ^ (size / 64)
    → (ps : List M2sPacket) × (write_cxl_mem answered addr size value ≡ ok ps)
      × (map packet_address ps ≡ chunk_addresses (size / 64) addr)
      × (joined ps ≡ value)
unfolding write_cxl_mem
write_cxl_mem-joined answered addr size value all a s b v =
    let (ps, e, q, j) = write_chunks_lem (size / 64) answered addr 0 value all a (omega arith) v in
    (ps, ground arith, q ∙ ap (chunk_addresses (size / 64)) (omega arith), j)

-- The number that `n` chunks make, if all of them are there.
unfoldable pub from_chunks : ℕ → (ℕ → Option ℕ) → Option ℕ
from_chunks zero reply = some 0
from_chunks (suc n) reply = elim (reply n) [
  | none ↦ none
  | some value ↦ Option.map (λ lower. lower + value * (2 ^ 512) ^ n) (from_chunks n reply)
]

from_chunks-missing :
    (n : ℕ) (reply : ℕ → Option ℕ) → reply n ≡ none → from_chunks (suc n) reply ≡ none
unfolding from_chunks
from_chunks-missing n reply e = ground arith

from_chunks-there :
    (n : ℕ) (reply : ℕ → Option ℕ) (value : ℕ)
    → reply n ≡ some value
    → from_chunks (suc n) reply
      ≡ Option.map (λ lower. lower + value * (2 ^ 512) ^ n) (from_chunks n reply)
unfolding from_chunks
from_chunks-there n reply value e = ground arith

create_mem_rd-eq :
    (a : ℕ)
    → a % 64 ≡ 0
    → a < 2 ^ 52
    → (p : M2sPacket) × (create_mem_rd a mem_rd meta_no_op meta_any snp_type_no_op ≡ ok p)
      × (packet_address p ≡ some a)
unfolding create_mem_rd packet_address
create_mem_rd-eq a h b =
    elim (Result-cases (create_mem_rd a mem_rd meta_no_op meta_any snp_type_no_op)) [
      | inr (x, e) ↦ absurd (ground arith)
      | inl (q, e) ↦ (q, e, ground (arith, get_address-addr_field a h b))
    ]

-- Two turns of a number in base `b`.
regroup : (b n result c f : ℕ) → (result * b + c) * b ^ n + f ≡ result * b ^ suc n + (f + c * b ^ n)
regroup b n result c f = omega (
  arith,
  add-mul (result * b) c (b ^ n),
  mul_assoc result b (b ^ n),
  ap (λ t. result * t) (mul_comm b (b ^ n) ∙ sym (pow-suc b n)),
)

-- The packet with the data of a chunk, or nothing in time.
abbrev pub data_packet : Option ℕ → Option S2mPacket
data_packet none = none
data_packet (some value) = some (s2m_drs_packet (record { opcode = mem_data; data_value = value }))

-- `reply i` is what answers the read of the chunk at `addr + i * 64`.
abbrev pub Replies : (M2sPacket → Option S2mPacket) → (ℕ → Option ℕ) → ℕ → Type 0
Replies answer reply addr =
    (p : M2sPacket) (i : ℕ)
    → packet_address p ≡ some (addr + i * 64)
    → answer p ≡ data_packet (reply i)

module _ (answer : M2sPacket → Option S2mPacket) (reply : ℕ → Option ℕ) (addr : ℕ)
    (aligned : addr % 64 ≡ 0) (replies : Replies answer reply addr)
    (fits : (i value : ℕ) → reply i ≡ some value → value < 2 ^ 512) where
  read_chunks_lem :
      (n result : ℕ)
      → addr + n * 64 ≤ 2 ^ 52
      → read_chunks n answer addr (shl result 512)
        ≡ ok (Option.map (λ f. (result * (2 ^ 512) ^ n + f) * 2 ^ 512) (from_chunks n reply))
  unfolding read_chunks mem_data_of from_chunks
  read_chunks_lem zero result b = ap (λ t. ok (some t)) (omega arith)
  read_chunks_lem (suc n) result b =
      let (p, e, q) = create_mem_rd-eq (addr + n * 64) (omega arith) (omega arith) in
      let got = replies p n q in
      elim (Option-cases (reply n)) [
        | inl missing ↦ rw (e, got, missing, from_chunks-missing n reply missing) refl
        | inr (value, there) ↦
            let combined : bit_or (shl result 512) value ≡ result * 2 ^ 512 + value =
              bit_or-shl 512 result value (fits n value there) in
            let lower = read_chunks_lem n (result * 2 ^ 512 + value) (omega arith) in
            let above = from_chunks-there n reply value there in
            elim (Option-cases (from_chunks n reply)) [
              | inl none_lower ↦ rw (e, got, there, combined, lower, above, none_lower) refl
              | inr (f, some_lower) ↦
                  rw (e, got, there, combined, lower, above, some_lower)
                    (ap (λ t. ok (some (t * 2 ^ 512))) (regroup (2 ^ 512) n result value f))
            ]
      ]

  -- For an address and a size that are multiples of 64, below 2 ^ 52, where the read of the chunk at
  -- `addr + i * 64` gets, before any other packet, `reply i`: at most 64 bytes of data, or nothing in time. If
  -- all chunks are answered, `read_cxl_mem` returns the number that they make, times 2 ^ 512, since it shifts
  -- its result once more after the last chunk; if one is not, it returns `None`.
  pub read_cxl_mem-from_chunks :
      (size : ℕ)
      → size % 64 ≡ 0
      → addr + size ≤ 2 ^ 52
      → read_cxl_mem answer addr size
        ≡ ok (Option.map (λ f. f * 2 ^ 512) (from_chunks (size / 64) reply))
  unfolding read_cxl_mem
  read_cxl_mem-from_chunks size s b =
      let loop = read_chunks_lem (size / 64) 0 (omega arith) in ground arith
