-- ===== src/CxlIo/Mreq/Laws.antt =====
-- opencxl/cxl/transport/transaction.py: what is read from the header of a memory request.
use mathlib.Core.List.{reverse}
use Prim.Native.Nat.{bit_and, bit_or}
use native.Mathlib.Nat.{pow-suc}
use opencxl_core.Prelude.{
  inl, inr, ℕ, zero, suc, ◌+◌, ◌*◌, ◌/◌, ◌%◌, ◌^◌, ◌<◌, ◌≡◌, refl, ap, ap₂, ◌∙◌, arith, List, [],
  ◌∷◌, ok, Result-cases,
}
use opencxl_core.Prelude.Bits.{
  shl, shr, bit_and-low_mask, bit_or-shl, bit_or-zero, bit_or_comm, bit_and-field,
}
use opencxl_core.Bytes.{from_bytes, to_bytes}
use opencxl_core.Bytes.Laws.{from_bytes-to_bytes}
use opencxl_core.CxlIo.{field}
use opencxl_core.CxlIo.Mreq.{
  CxlIoMreqHeader, swap_bytes, length_dword, fill, fill_length, get_address, get_data_size,
}

abbrev AreBytes : ℕ → List ℕ → Type 0
AreBytes zero [] = Unit
AreBytes (suc n) (b ∷ bs) = (b < 256) × AreBytes n bs
AreBytes _ _ = ⊥

to_bytes-from_bytes : (n : ℕ) (bs : List ℕ) → AreBytes n bs → to_bytes n (from_bytes bs) ≡ bs
unfolding to_bytes from_bytes
to_bytes-from_bytes zero [] h = refl
to_bytes-from_bytes zero (b ∷ bs) h = absurd h
to_bytes-from_bytes (suc n) [] h = absurd h
to_bytes-from_bytes (suc n) (b ∷ bs) (h, hs) =
    let lowest : (b + 256 * from_bytes bs) % 256 ≡ b = omega arith in
    let above : (b + 256 * from_bytes bs) / 256 ≡ from_bytes bs = omega arith in
    ap₂ (λ x y. x ∷ y) lowest (ap (to_bytes n) above ∙ to_bytes-from_bytes n bs hs)

from_bytes-lt : (n : ℕ) (bs : List ℕ) → AreBytes n bs → from_bytes bs < 256 ^ n
unfolding from_bytes
from_bytes-lt zero [] h = omega arith
from_bytes-lt zero (b ∷ bs) h = absurd h
from_bytes-lt (suc n) [] h = absurd h
from_bytes-lt (suc n) (b ∷ bs) (h, hs) = omega (arith, from_bytes-lt n bs hs, pow-suc 256 n)

swapped-AreBytes : (x : ℕ) → AreBytes 7 (reverse (to_bytes 7 x))
unfolding to_bytes
swapped-AreBytes x = ground arith

swap_bytes-lt : (x : ℕ) → swap_bytes x < 2 ^ 56
unfolding swap_bytes
swap_bytes-lt x = from_bytes-lt 7 (reverse (to_bytes 7 x)) (swapped-AreBytes x)

-- Swapping twice.
swap_bytes-swap_bytes : (x : ℕ) → x < 2 ^ 56 → swap_bytes (swap_bytes x) ≡ x
unfolding swap_bytes to_bytes
swap_bytes-swap_bytes x h =
    ap (λ l. from_bytes (reverse l))
      (to_bytes-from_bytes 7 (reverse (to_bytes 7 x)) (swapped-AreBytes x))
    ∙ from_bytes-to_bytes 7 x h

zero_left : (y : ℕ) → bit_or 0 y ≡ y
zero_left y = bit_or_comm 0 y ∙ bit_or-zero y

upper_part : (addr : ℕ) → addr < 2 ^ 64 → swap_bytes (swap_bytes (shr addr 8) % 2 ^ 56) ≡ addr / 256
upper_part addr h =
    ap swap_bytes (omega (arith, swap_bytes-lt (shr addr 8)))
    ∙ swap_bytes-swap_bytes (shr addr 8) (omega arith)

lower_part : (addr : ℕ) → shr (bit_and addr 0xff) 2 % 2 ^ 6 ≡ addr % 256 / 4
lower_part addr = ap (λ t. shr t 2 % 2 ^ 6) (bit_and-low_mask 8 addr) ∙ omega arith

parts-joined :
    (addr : ℕ) → bit_or (bit_or 0 (shl (addr / 256) 8)) (shl (addr % 256 / 4) 2) ≡ addr / 4 * 4
parts-joined addr =
    ap (λ t. bit_or t (shl (addr % 256 / 4) 2)) (zero_left (shl (addr / 256) 8))
    ∙ bit_or-shl 8 (addr / 256) (shl (addr % 256 / 4) 2) (omega arith)
    ∙ omega arith

-- The address read from a request is the address of the double word in which it starts, for every
-- address below 2 ^ 64, length, requester and tag.
pub get_address-fill :
    (addr length req_id tag : ℕ)
    → addr < 2 ^ 64
    → (h : CxlIoMreqHeader) × (fill addr length req_id tag ≡ ok h) × (get_address h ≡ addr / 4 * 4)
unfolding fill get_address field
get_address-fill addr length req_id tag h = elim (Result-cases (fill addr length req_id tag)) [
  | inr (x, e) ↦ absurd (ground arith)
  | inl (header, e) ↦
      let parts : get_address header
          ≡ bit_or (bit_or 0 (shl (swap_bytes (swap_bytes (shr addr 8) % 2 ^ 56)) 8))
              (shl (shr (bit_and addr 0xff) 2 % 2 ^ 6) 2) =
        ground arith in
      (header, e, parts ∙ rw (upper_part addr h, lower_part addr) (parts-joined addr))
]

-- The size read from a request counts its double words modulo 256: the upper bits of the length
-- are not moved to the lowest bits of their field, and are always cut off.
pub get_data_size-fill_length :
    (addr length payload_length ld_id fmt_type : ℕ)
    → get_data_size (fill_length addr length payload_length ld_id fmt_type)
      ≡ length_dword addr length % 256 * 4
unfolding get_data_size fill_length field
get_data_size-fill_length addr length payload_length ld_id fmt_type =
    let n = length_dword addr length in
    let upper : bit_and n 0x300 % 2 ^ 2 ≡ 0 =
      ap (λ t. t % 2 ^ 2) (bit_and-field 8 2 n) ∙ omega arith in
    let lower : bit_and (bit_and n 0xff % 2 ^ 8) 0xff ≡ n % 256 =
      bit_and-low_mask 8 (bit_and n 0xff % 2 ^ 8)
      ∙ ap (λ t. t % 2 ^ 8 % 2 ^ 8) (bit_and-low_mask 8 n)
      ∙ omega arith in
    rw (upper, lower) (ap (λ t. t * 4) (zero_left (n % 256)))
