-- ===== src/Hdm/Manager.antt =====
-- opencxl/cxl/component/hdm_decoder.py: `HdmDecoderManagerBase`, `DeviceHdmDecoderManager` and
-- `SwitchHdmDecoderManager`. A method returns the new manager beside its result; a `commit` that
-- raises leaves what it has written so far. Log messages are left out.
use opencxl_core.Prelude.{
  ℕ, zero, suc, ◌+◌, Bool, true, false, List, [], ◌∷◌, Option, none, some, if◌then◌else◌, ltb, ◌==◌,
  length, get_elem?, set, Result, ok, err, ◌>>=◌, index_error,
}
use opencxl_core.Hdm.Decoder.{
  HdmDecoderCount, InterleaveGranularity, InterleaveWays, size_256b, way_1, count_value,
  granularity_of, ways_of, get_decoder_count, HdmDecoderBase, is_hpa_in_range, DeviceHdmDecoder,
  SwitchHdmDecoder, InterleaveWays-discrete,
}
use opencxl_core.Hdm.Decoder
use mathlib.Core.Logic.{ite}

-- What the managers read of `HdmDecoderCapabilities`.
pub record HdmDecoderCapabilities : Type 0 where
  pub decoder_count : HdmDecoderCount
  pub uio_capable : ℕ
  pub bi_capable : Bool

-- `DecoderInfo`; `ig` and `iw` come from registers, as plain values.
pub record DecoderInfo : Type 0 where
  pub size : ℕ
  pub base : ℕ
  pub dpa_skip : ℕ
  pub ig : ℕ
  pub iw : ℕ
  pub target_ports : List ℕ

pub record HdmDecoderManager (D : Type 0) : Type 0 where
  pub capabilities : HdmDecoderCapabilities
  pub decoders : List D

-- The loop of `get_decoder_from_hpa`, over the decoders of either class.
unfoldable pub first_in_range : {D : Type 0} → (D → HdmDecoderBase) → List D → ℕ → Option D
first_in_range view [] hpa = none
first_in_range view (d ∷ ds) hpa =
    if is_hpa_in_range (view d) hpa then some d else first_in_range view ds hpa

unfoldable pub get_decoder_from_hpa :
    {D : Type 0} → (D → HdmDecoderBase) → HdmDecoderManager D → ℕ → Option D
get_decoder_from_hpa view m hpa = first_in_range view m.decoders hpa

-- No decoder of the list is `None`, so the loop of `get_decoder_for_dpa` returns the first one.
unfoldable pub get_decoder_for_dpa : {D : Type 0} → HdmDecoderManager D → Option D
get_decoder_for_dpa m = get_elem? m.decoders 0

unfoldable pub is_uio_capable : {D : Type 0} → HdmDecoderManager D → Bool
is_uio_capable m = m.capabilities.uio_capable == 1

abbrev empty_decoder : ℕ → HdmDecoderBase
empty_decoder i = record { index = i; size = 0; base = 0; ig = size_256b; iw = way_1 }

-- The loop of the constructors: `for decoder_index in range(decoder_count): append(...)`.
unfoldable pub new_decoders : {D : Type 0} → (HdmDecoderBase → D) → ℕ → ℕ → List D
new_decoders make start zero = []
new_decoders make start (suc n) = make (empty_decoder start) ∷ new_decoders make (start + 1) n

unfoldable pub new_manager :
    {D : Type 0} → (HdmDecoderBase → D) → HdmDecoderCapabilities → Result (HdmDecoderManager D)
new_manager make caps = do
  decoder_count ← get_decoder_count (count_value caps.decoder_count)
  ok (record { capabilities = caps; decoders = new_decoders make 0 decoder_count })

-- `__init__` of the two managers.
unfoldable pub new_device_manager :
    HdmDecoderCapabilities → Result (HdmDecoderManager DeviceHdmDecoder)
unfolding new_manager
new_device_manager = new_manager (λ d. record { decoder = d; dpa_base = 0; dpa_skip = 0 })

unfoldable pub new_switch_manager :
    HdmDecoderCapabilities → Result (HdmDecoderManager SwitchHdmDecoder)
unfolding new_manager
new_switch_manager = new_manager (λ d. record { decoder = d; target_ports = [] })

-- The end of both commits: `decoder.ig = INTERLEAVE_GRANULARITY(info.ig)` and the same for `iw`.
-- The first value that its enumeration lacks ends the commit with what was written before it.
unfoldable pub write_interleave : HdmDecoderBase → DecoderInfo → HdmDecoderBase × Result Bool
write_interleave d info = elim (granularity_of info.ig) [
  | err e ↦ (d, err e)
  | ok ig ↦ elim (ways_of info.iw) [
    | err e ↦ (record d { ig = ig }, err e)
    | ok iw ↦ (record d { ig = ig; iw = iw }, ok true)
  ]
]

abbrev write_range : HdmDecoderBase → DecoderInfo → HdmDecoderBase
write_range d info = record d { base = info.base; size = info.size }

-- `DeviceHdmDecoderManager.commit`.
unfoldable pub commit_device :
    HdmDecoderManager DeviceHdmDecoder
    → ℕ
    → DecoderInfo
    → HdmDecoderManager DeviceHdmDecoder × Result Bool
commit_device m index info = elim (get_elem? m.decoders index) [
  | none ↦ (m, err index_error)
  | some d ↦
      let (decoder, result) = write_interleave (write_range d.decoder info) info in
      let d' : DeviceHdmDecoder = record {
        decoder = decoder;
        dpa_base = 0;
        dpa_skip = info.dpa_skip;
      } in
      (record m { decoders = set m.decoders index d' }, result)
]

-- `SwitchHdmDecoderManager.commit`. The ports are written last, if nothing was raised before.
unfoldable pub commit_switch :
    HdmDecoderManager SwitchHdmDecoder
    → ℕ
    → DecoderInfo
    → HdmDecoderManager SwitchHdmDecoder × Result Bool
commit_switch m index info =
    if ltb (length m.decoders) index then (m, ok false) else elim (get_elem? m.decoders index) [
      | none ↦ (m, err index_error)
      | some d ↦
          let (decoder, result) = write_interleave (write_range d.decoder info) info in
          let ports : List ℕ = elim result [ ok _ ↦ info.target_ports | err _ ↦ d.target_ports ] in
          let d' : SwitchHdmDecoder = record { decoder = decoder; target_ports = ports } in
          (record m { decoders = set m.decoders index d' }, result)
    ]

-- `DeviceHdmDecoderManager.get_dpa` and `get_hpa`.
unfoldable pub get_dpa : HdmDecoderManager DeviceHdmDecoder → ℕ → Option ℕ
unfolding get_decoder_from_hpa
get_dpa m hpa = elim (get_decoder_from_hpa (λ d. d.decoder) m hpa) [
  | none ↦ none
  | some d ↦ some (Decoder.get_dpa d hpa)
]

unfoldable pub get_hpa : HdmDecoderManager DeviceHdmDecoder → ℕ → Option ℕ
unfolding get_decoder_for_dpa
get_hpa m dpa = elim (get_decoder_for_dpa m) [
  | none ↦ none
  | some d ↦ ite (InterleaveWays-discrete d.decoder.iw way_1) (some (Decoder.get_hpa d dpa)) none
]

-- `SwitchHdmDecoderManager.get_target`.
unfoldable pub get_target : HdmDecoderManager SwitchHdmDecoder → ℕ → Result (Option ℕ)
unfolding get_decoder_from_hpa
get_target m hpa = elim (get_decoder_from_hpa (λ d. d.decoder) m hpa) [
  | none ↦ ok none
  | some d ↦ do port ← Decoder.get_target d hpa; ok (some port)
]
