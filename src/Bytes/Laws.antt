-- ===== src/Bytes/Laws.antt =====
-- opencxl/util/unaligned_bit_structure.py: what is written to a `ShareableByteArray` is what is read.
use native.Mathlib.Nat.{pow-suc, one-le-pow}
use opencxl_core.Prelude.{
  ℕ, zero, suc, ◌+◌, ◌-◌, ◌/◌, ◌^◌, ◌≤◌, ◌<◌, ◌≡◌, refl, sym, ap, ◌∙◌, ◌⊎◌, inl, inr, arith, List,
  [], ◌∷◌, ◌++◌, length, length-append, length-take, length-drop, subst, take, drop, ok, err,
  overflow_error, ◌↔◌,
}
use opencxl_core.Bytes.{
  ShareableByteArray, slice, put_slice, from_bytes, to_bytes, write_bytes, read_bytes,
}

length-to_bytes : (n value : ℕ) → length (to_bytes n value) ≡ n
unfolding to_bytes
length-to_bytes zero value = refl
length-to_bytes (suc n) value = ap suc (length-to_bytes n (value / 256))

pub from_bytes-to_bytes : (n value : ℕ) → value < 256 ^ n → from_bytes (to_bytes n value) ≡ value
unfolding from_bytes to_bytes
from_bytes-to_bytes zero value h = omega arith
from_bytes-to_bytes (suc n) value h =
    let fits : value / 256 < 256 ^ n = omega (arith, pow-suc 256 n) in
    omega (arith, from_bytes-to_bytes n (value / 256) fits)

take-append : (vs rest : List ℕ) → take (length vs) (vs ++ rest) ≡ vs
take-append [] rest = refl
take-append (v ∷ vs) rest = ap (λ l. v ∷ l) (take-append vs rest)

-- What is put at `start` stands there.
drop-put : (xs ys : List ℕ) (start : ℕ) → start ≤ length xs → drop start (take start xs ++ ys) ≡ ys
drop-put xs ys zero h = refl
drop-put [] ys (suc start) h = absurd (omega arith)
drop-put (x ∷ xs) ys (suc start) h = drop-put xs ys start (omega arith)

-- What ends before `start` is not changed.
slice_before :
    (xs ys : List ℕ) (p n start : ℕ)
    → p + n ≤ start
    → start ≤ length xs
    → take n (drop p (take start xs ++ ys)) ≡ take n (drop p xs)
slice_before xs ys p zero start h q = refl
slice_before xs ys p (suc n) zero h q = absurd (omega arith)
slice_before [] ys p (suc n) (suc start) h q = absurd (omega arith)
slice_before (x ∷ xs) ys zero (suc n) (suc start) h q =
    ap (λ l. x ∷ l) (slice_before xs ys zero n start (omega arith) (omega arith))
slice_before (x ∷ xs) ys (suc p) (suc n) (suc start) h q =
    slice_before xs ys p (suc n) start (omega arith) (omega arith)

-- What starts at the end `m` of the write, or after it, is not changed.
drop_after :
    (xs vs : List ℕ) (start m p : ℕ)
    → m ≡ start + length vs
    → m ≤ p
    → m ≤ length xs
    → drop p (take start xs ++ (vs ++ drop m xs)) ≡ drop p xs
drop_after xs [] zero zero p e h q = refl
drop_after xs [] zero (suc m) p e h q = absurd (omega arith)
drop_after xs (v ∷ vs) zero zero p e h q = absurd (omega arith)
drop_after xs (v ∷ vs) zero (suc m) zero e h q = absurd (omega arith)
drop_after [] (v ∷ vs) zero (suc m) (suc p) e h q = absurd (omega arith)
drop_after (x ∷ xs) (v ∷ vs) zero (suc m) (suc p) e h q =
    drop_after xs vs zero m p (omega arith) (omega arith) (omega arith)
drop_after xs vs (suc start) zero p e h q = absurd (omega arith)
drop_after xs vs (suc start) (suc m) zero e h q = absurd (omega arith)
drop_after [] vs (suc start) (suc m) (suc p) e h q = absurd (omega arith)
drop_after (x ∷ xs) vs (suc start) (suc m) (suc p) e h q =
    drop_after xs vs start m p (omega arith) (omega arith) (omega arith)

-- A write of a number that fits, inside the buffer.
pub write_bytes_fits :
    (a : ShareableByteArray) (start end value : ℕ)
    → start ≤ end
    → value < 256 ^ (end + 1 - start)
    → write_bytes a start end value
      ≡ ok (record a {
        buffer =
            put_slice a.buffer
              (start + a.offset)
              (end + a.offset + 1)
              (to_bytes (end + 1 - start) value);
      })
unfolding write_bytes
write_bytes_fits a start end value order fits = ground arith

-- A number that fits into a range of bytes inside the buffer is written there and read back.
pub read_bytes-write_bytes :
    (a : ShareableByteArray) (start end value : ℕ)
    → start ≤ end
    → end + a.offset < length a.buffer
    → value < 256 ^ (end + 1 - start)
    → (a' : ShareableByteArray) × (write_bytes a start end value ≡ ok a')
      × (read_bytes a' start end ≡ value)
unfolding read_bytes slice put_slice
read_bytes-write_bytes a start end value order inside fits =
    let n = end + 1 - start in
    let vs = to_bytes n value in
    let first = start + a.offset in
    let last = end + a.offset + 1 in
    let rest = drop (first + (last - first)) a.buffer in
    let width : last - first ≡ length vs = omega (arith, length-to_bytes n value) in
    (
      _,
      write_bytes_fits a start end value order fits,
      ap (λ l. from_bytes (take (last - first) l))
            (drop-put a.buffer (vs ++ rest) first (omega arith))
          ∙ ap (λ k. from_bytes (take k (vs ++ rest))) width
          ∙ ap from_bytes (take-append vs rest)
          ∙ from_bytes-to_bytes n value fits,
    )

-- A write inside the buffer changes no number that is read from a range of bytes before it or after
-- it.
pub read_bytes-write_bytes_disjoint :
    (a : ShareableByteArray) (start end value start' end' : ℕ) {a' : ShareableByteArray}
    → start ≤ end
    → end + a.offset < length a.buffer
    → start' ≤ end'
    → (end' < start) ⊎ (end < start')
    → write_bytes a start end value ≡ ok a'
    → read_bytes a' start' end' ≡ read_bytes a start' end'
unfolding write_bytes read_bytes slice put_slice
read_bytes-write_bytes_disjoint a start end value start' end' {a'} order inside order' apart h =
    let n = end + 1 - start in
    let vs = to_bytes n value in
    let first = start + a.offset in
    let last = end + a.offset + 1 in
    let m = first + (last - first) in
    let first' = start' + a.offset in
    let count = end' + a.offset + 1 - first' in
    let whole : m ≡ first + length vs = omega (arith, length-to_bytes n value) in
    let last_state : record a { buffer = take first a.buffer ++ (vs ++ drop m a.buffer) } ≡ a' =
      ground arith in
    let unchanged : take count (drop first' (take first a.buffer ++ (vs ++ drop m a.buffer)))
        ≡ take count (drop first' a.buffer) =
      elim apart [
        | inl before ↦
            slice_before a.buffer (vs ++ drop m a.buffer) first' count first (omega arith)
              (omega arith)
        | inr after ↦
            ap (take count)
              (drop_after a.buffer vs first m first' whole (omega arith) (omega arith))
      ] in
    sym (ap (λ b. read_bytes b start' end') last_state) ∙ ap from_bytes unchanged

-- A number that needs more bytes than the range has raises `OverflowError`.
pub write_bytes_overflow :
    (a : ShareableByteArray) (start end value : ℕ)
    → start ≤ end
    → (write_bytes a start end value ≡ err overflow_error) ↔ (256 ^ (end + 1 - start) ≤ value)
unfolding write_bytes
write_bytes_overflow a start end value order = (λ h. ground arith, λ h. ground arith)

length-put :
    (xs vs : List ℕ) (start m : ℕ)
    → m ≡ start + length vs
    → m ≤ length xs
    → length (take start xs ++ (vs ++ drop m xs)) ≡ length xs
length-put xs vs start m e h = omega (
  arith,
  length-append (take start xs) (vs ++ drop m xs),
  length-append vs (drop m xs),
  length-take start xs,
  length-drop m xs,
)

-- A write inside the buffer was of a number that fits; it keeps the length and the window, and is
-- read back.
pub written_bytes :
    (a : ShareableByteArray) (start end value : ℕ) {a' : ShareableByteArray}
    → start ≤ end
    → end + a.offset < length a.buffer
    → write_bytes a start end value ≡ ok a'
    → (read_bytes a' start end ≡ value)
      × (length a'.buffer ≡ length a.buffer)
      × (a'.size ≡ a.size)
      × (value < 256 ^ (end + 1 - start))
unfolding write_bytes put_slice
written_bytes a start end value {a'} order inside h =
    let n = end + 1 - start in
    let vs = to_bytes n value in
    let first = start + a.offset in
    let last = end + a.offset + 1 in
    let fits : value < 256 ^ n = ground arith in
    let m = first + (last - first) in
    let whole : m ≡ first + length vs = omega (arith, length-to_bytes n value) in
    let (b, done, reads) = read_bytes-write_bytes a start end value order inside fits in
    let last_state : record a { buffer = take first a.buffer ++ (vs ++ drop m a.buffer) } ≡ a' =
      ground arith in
    let same : b ≡ a' = ground arith in
    (
      subst (λ c. read_bytes c start end ≡ value) same reads,
      sym (ap (λ c. length c.buffer) last_state)
          ∙ length-put a.buffer vs first m whole (omega arith),
      sym (ap (λ c. c.size) last_state),
      fits,
    )

-- The numbers of a buffer are bytes.
abbrev pub AreBytes : List ℕ → Type 0
AreBytes [] = Unit
AreBytes (b ∷ bs) = (b < 256) × AreBytes bs

AreBytes-drop : (n : ℕ) (bs : List ℕ) → AreBytes bs → AreBytes (drop n bs)
AreBytes-drop zero bs h = h
AreBytes-drop (suc n) [] h = h
AreBytes-drop (suc n) (b ∷ bs) h = AreBytes-drop n bs h.1

from_bytes-take : (n : ℕ) (bs : List ℕ) → AreBytes bs → from_bytes (take n bs) < 256 ^ n
unfolding from_bytes
from_bytes-take zero bs h = omega arith
from_bytes-take (suc n) [] h = one-le-pow (suc n) 256 (omega arith)
from_bytes-take (suc n) (b ∷ bs) h = omega (arith, h.0, pow-suc 256 n, from_bytes-take n bs h.1)

-- What is read fits into its bytes.
pub read_bytes-lt :
    (a : ShareableByteArray) (start end : ℕ)
    → start ≤ end
    → AreBytes a.buffer
    → read_bytes a start end < 256 ^ (end + 1 - start)
unfolding read_bytes slice
read_bytes-lt a start end order bytes =
    let width : end + a.offset + 1 - (start + a.offset) ≡ end + 1 - start = omega arith in
    subst (λ n. from_bytes (take n (drop (start + a.offset) a.buffer)) < 256 ^ (end + 1 - start))
      (sym width)
      (from_bytes-take (end + 1 - start) (drop (start + a.offset) a.buffer)
        (AreBytes-drop (start + a.offset) a.buffer bytes))
