-- ===== src/Hdm/Translate.antt =====
-- opencxl/cxl/component/hdm_decoder.py: what the managers answer after they are made and after a
-- commit.
use native.Mathlib.Nat.{div-add-mod, mul-one, mul_comm, add-zero}
use opencxl_core.Prelude.{
  ℕ, zero, suc, ◌+◌, ◌-◌, ◌^◌, ◌≤◌, ◌<◌, ◌≡◌, refl, ap, ◌∙◌, ◌↔◌, arith, true, false, List, [], ◌∷◌,
  none, some, if◌then◌else◌, ◌==◌, length, get_elem?, set, take, get_elem?-set_self,
  get_elem?_of_lt, get_elem?_of_le, ok, err, index_error, exception,
}
use opencxl_core.Hdm.Decoder
use opencxl_core.Hdm.Decoder.{
  HdmDecoderCount, InterleaveGranularity, InterleaveWays, size_256b, way_1, count_value,
  count_to_num, granularity_value, ways_value, iw_to_ways, granularity_of, ways_of,
  get_decoder_count, HdmDecoderBase, is_hpa_in_range, DeviceHdmDecoder, SwitchHdmDecoder,
  target_index, InterleaveWays-discrete,
}
use opencxl_core.Hdm.Manager.{
  HdmDecoderCapabilities, DecoderInfo, HdmDecoderManager, first_in_range, new_decoders,
  new_device_manager, write_interleave, commit_device, commit_switch, get_dpa, get_hpa,
}
use opencxl_core.Hdm.Interleave.{granule, interleaved, get_dpa-interleaved}

-- The register's encoding of a count and the name of its member say the same number, and the
-- encodings with no member are exactly those that raise.
pub get_decoder_count-count_to_num :
    ((c : HdmDecoderCount) → get_decoder_count (count_value c) ≡ ok (count_to_num c))
    × ((v : ℕ) → (get_decoder_count v ≡ err exception) ↔ (0xc < v))
unfolding get_decoder_count count_to_num
get_decoder_count-count_to_num = (λ c. ground arith, λ v. (λ h. ground arith, λ h. ground arith))

length-new_decoders :
    {D : Type 0} (make : HdmDecoderBase → D) (start n : ℕ) → length (new_decoders make start n) ≡ n
unfolding new_decoders
length-new_decoders make start zero = refl
length-new_decoders make start (suc n) = ap suc (length-new_decoders make (start + 1) n)

empty_out_of_range :
    (d : HdmDecoderBase) (hpa : ℕ) → d.size ≡ 0 → d.base ≡ 0 → is_hpa_in_range d hpa ≡ false
unfolding is_hpa_in_range
empty_out_of_range d hpa p q = ground arith

module _ {D : Type 0} (view : D → HdmDecoderBase) (make : HdmDecoderBase → D) where
  first-new_decoders :
      ((d : HdmDecoderBase) → view (make d) ≡ d)
      → (start n hpa : ℕ) → first_in_range view (new_decoders make start n) hpa ≡ none
  unfolding new_decoders first_in_range
  first-new_decoders e start zero hpa = refl
  first-new_decoders e start (suc n) hpa =
      let empty : HdmDecoderBase = record {
        index = start;
        size = 0;
        base = 0;
        ig = size_256b;
        iw = way_1;
      } in
      rw (e empty, empty_out_of_range empty hpa refl refl) (first-new_decoders e (start + 1) n hpa)

-- A new device manager has as many decoders as its capability says, and translates no address.
pub new_device_manager_lem :
    (caps : HdmDecoderCapabilities)
    → (m : HdmDecoderManager DeviceHdmDecoder) × (new_device_manager caps ≡ ok m)
      × (length m.decoders ≡ count_to_num caps.decoder_count)
      × ((hpa : ℕ) → get_dpa m hpa ≡ none)
unfolding new_device_manager get_dpa
new_device_manager_lem caps =
    let make : HdmDecoderBase → DeviceHdmDecoder =
      λ d. record { decoder = d; dpa_base = 0; dpa_skip = 0 } in
    let count = count_to_num caps.decoder_count in
    (
      record { capabilities = caps; decoders = new_decoders make 0 count },
      rw (get_decoder_count-count_to_num.0 caps.decoder_count) refl,
      length-new_decoders make 0 count,
      λ hpa. rw (first-new_decoders (λ d. d.decoder) make (λ d. refl) 0 count hpa, get_dpa) refl,
    )

-- A commit to a switch beyond its decoders changes nothing. It answers `False`, but for the index
-- one past the last decoder, which the guard lets through to the subscript.
pub commit_switch_out_of_range :
    (m : HdmDecoderManager SwitchHdmDecoder) (index : ℕ) (info : DecoderInfo)
    → length m.decoders ≤ index
    → commit_switch m index info
      ≡ (m, if index == length m.decoders then err index_error else ok false)
unfolding commit_switch
commit_switch_out_of_range m index info h = ground (arith, get_elem?_of_le m.decoders index h)

granularity_of-value : (ig : InterleaveGranularity) → granularity_of (granularity_value ig) ≡ ok ig
unfolding granularity_of
granularity_of-value ig = ground arith

ways_of-value : (iw : InterleaveWays) → ways_of (ways_value iw) ≡ ok iw
unfolding ways_of
ways_of-value iw = ground arith

-- The values of `ig` and `iw` that a commit accepts.
pub write_interleave_valid :
    (d : HdmDecoderBase) (info : DecoderInfo) (ig : InterleaveGranularity) (iw : InterleaveWays)
    → info.ig ≡ granularity_value ig
    → info.iw ≡ ways_value iw
    → write_interleave d info ≡ (record d { ig = ig; iw = iw }, ok true)
unfolding write_interleave
write_interleave_valid d info ig iw p q =
    let ig_ok = ap granularity_of p ∙ granularity_of-value ig in
    let iw_ok = ap ways_of q ∙ ways_of-value iw in rw (ig_ok, iw_ok, write_interleave) refl

module _ {D : Type 0} (view : D → HdmDecoderBase) where
  first-set :
      (ds : List D) (i : ℕ) (d : D) (hpa : ℕ)
      → i < length ds
      → is_hpa_in_range (view d) hpa ≡ true
      → first_in_range view (take i ds) hpa ≡ none
      → first_in_range view (set ds i d) hpa ≡ some d
  unfolding first_in_range
  first-set [] i d hpa h r e = absurd (omega arith)
  first-set (c ∷ ds) zero d hpa h r e = rw r
  first-set (c ∷ ds) (suc i) d hpa h r e = ground (arith, first-set ds i d hpa)

interleaved_one_way : (ig : InterleaveGranularity) (n : ℕ) → interleaved ig way_1 n ≡ n
unfolding iw_to_ways
interleaved_one_way ig n = rw (mul-one, mul_comm) (div-add-mod n (granule ig))

module _ (m : HdmDecoderManager DeviceHdmDecoder) (index : ℕ) (info : DecoderInfo)
    (ig : InterleaveGranularity) (iw : InterleaveWays) (hpa : ℕ)
    (exists : index < length m.decoders) (ig_fits : info.ig ≡ granularity_value ig)
    (iw_fits : info.iw ≡ ways_value iw) (low : info.base ≤ hpa)
    (high : hpa < info.base + info.size) where
  committed : HdmDecoderBase → DeviceHdmDecoder
  committed d = record {
    decoder = record d { base = info.base; size = info.size; ig = ig; iw = iw };
    dpa_base = 0;
    dpa_skip = info.dpa_skip;
  }

  commit_device_at :
      (d : DeviceHdmDecoder)
      → get_elem? m.decoders index ≡ some d
      → commit_device m index info
        ≡ (record m { decoders = set m.decoders index (committed d.decoder) }, ok true)
  unfolding commit_device committed
  commit_device_at d found =
      let ranged = record (d.decoder) { base = info.base; size = info.size } in
      ground (arith, write_interleave_valid ranged info ig iw)

  committed_in_range : (d : HdmDecoderBase) → is_hpa_in_range (committed d).decoder hpa ≡ true
  unfolding committed is_hpa_in_range
  committed_in_range d = ground arith

  -- After a commit with valid values, an address of the committed range that no earlier decoder
  -- claims is translated by the interleave rule, and the commit answers `True`.
  pub get_dpa-commit_device :
      first_in_range (λ d. d.decoder) (take index m.decoders) hpa ≡ none
      → info.size ≤ 2 ^ 52
      → ((commit_device m index info).1 ≡ ok true)
        × (get_dpa (commit_device m index info).0 hpa ≡ some (interleaved ig iw (hpa - info.base)))
  unfolding get_dpa committed
  get_dpa-commit_device free small =
      let (c, found) = get_elem?_of_lt m.decoders index exists in
      let d = c.decoder in
      let done = commit_device_at c found in
      let inside : is_hpa_in_range (committed d).decoder hpa ≡ true = committed_in_range d in
      let first =
        first-set (λ d. d.decoder) m.decoders index (committed d) hpa exists inside free in
      let translated = get_dpa-interleaved (committed d) hpa low (omega arith) in
      rw done (refl, rw (first, get_dpa) (ap some (translated ∙ add-zero _)))

get_hpa_first :
    (m : HdmDecoderManager DeviceHdmDecoder) (d : DeviceHdmDecoder) (dpa : ℕ)
    → get_elem? m.decoders 0 ≡ some d
    → d.decoder.iw ≡ way_1
    → get_hpa m dpa ≡ some (dpa + d.decoder.base)
unfolding get_hpa Decoder.get_hpa
get_hpa_first m d dpa h e = ground arith

-- Without interleaving, with the range committed to the first decoder, `get_hpa` takes a device
-- address back to the host address that it came from.
pub get_hpa-get_dpa :
    (m : HdmDecoderManager DeviceHdmDecoder) (info : DecoderInfo) (ig : InterleaveGranularity)
    (hpa : ℕ)
    → 0 < length m.decoders
    → info.ig ≡ granularity_value ig
    → info.iw ≡ 0
    → info.base ≤ hpa
    → hpa < info.base + info.size
    → info.size ≤ 2 ^ 52
    → (dpa : ℕ) × (get_dpa (commit_device m 0 info).0 hpa ≡ some dpa)
      × (get_hpa (commit_device m 0 info).0 dpa ≡ some hpa)
unfolding committed first_in_range
get_hpa-get_dpa m info ig hpa exists p q low high small =
    let (c, found) = get_elem?_of_lt m.decoders 0 exists in
    let n = hpa - info.base in
    let translated = get_dpa-commit_device m 0 info ig way_1 hpa exists p q low high refl small in
    let done = commit_device_at m 0 info ig way_1 hpa exists p q low high c found in
    let d = committed m 0 info ig way_1 hpa exists p q low high c.decoder in
    let m' = record m { decoders = set m.decoders 0 d } in
    let first : get_elem? (set m.decoders 0 d) 0 ≡ some d =
      get_elem?-set_self m.decoders 0 d exists in
    (
      n,
      translated.1 ∙ ap some (interleaved_one_way ig n),
      ap (λ r. get_hpa r.0 n) done ∙ get_hpa_first m' d n first refl ∙ ap some (omega arith),
    )
