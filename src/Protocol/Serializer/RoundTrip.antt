-- ===== src/Protocol/Serializer/RoundTrip.antt =====
-- serializer.hpp: `deserialize` on what `serialize_at` wrote, and the digits of numbers.
use emlabcpp.Prelude.{
  ℕ, zero, suc, ◌+◌, ◌*◌, ◌/◌, ◌%◌, ◌^◌, ◌≤◌, ◌<◌, ◌≡◌, refl, sym, ap, ap₂, ◌∙◌, arith, Bool, true,
  false, List, [], ◌∷◌, ◌++◌, length, length-take, take, take-length, get_or, All, All-take,
}
use emlabcpp.Protocol.Serializer.{Endian, big, little, serialize_at, deserialize}
use emlabcpp.Protocol.Serializer.{serialize_bool_at, deserialize_bool}
use emlabcpp.Protocol.Serializer.Bytes.{
  IsByte, be_bytes, le_bytes, from_be, from_le, bytes, number, length-bytes, bytes-IsByte,
  serialize_at-bytes, deserialize-number, take-get, get_or-IsByte,
}
use native.Mathlib.Nat.{pow-suc, pow-succ', mul-le-mul_right}

from_be-append :
    (acc : ℕ) (xs : List ℕ) (b : ℕ) → from_be acc (xs ++ (b ∷ [])) ≡ from_be acc xs * 256 + b
unfolding from_be
from_be-append acc [] b = refl
from_be-append acc (x ∷ xs) b = from_be-append (acc * 256 + x) xs b

pub number-bytes : (e : Endian) (w n : ℕ) → n < 256 ^ w → number e (bytes e w n) ≡ n
unfolding be_bytes le_bytes from_be from_le
number-bytes big zero n h = omega arith
number-bytes big (suc w) n h =
    from_be-append 0 (be_bytes w (n / 256)) (n % 256)
    ∙ omega (arith, number-bytes big w (n / 256) (omega (arith, pow-suc 256 w)))
number-bytes little zero n h = omega arith
number-bytes little (suc w) n h =
    omega (arith, number-bytes little w (n / 256) (omega (arith, pow-suc 256 w)))

be_bytes-from_be :
    (w : ℕ) (xs : List ℕ) → length xs ≡ w → All IsByte xs → be_bytes w (from_be 0 xs) ≡ xs
unfolding be_bytes from_be
be_bytes-from_be zero [] h bs = refl
be_bytes-from_be zero (x ∷ xs) h bs = absurd (omega arith)
be_bytes-from_be (suc w) xs h bs =
    let init = take w xs in
    let last = get_or xs w 0 in
    let byte : last < 256 = get_or-IsByte xs w bs in
    let whole : xs ≡ init ++ (last ∷ []) =
      sym (ap (λ (k : ℕ). take k xs) (sym h) ∙ take-length xs) ∙ take-get w xs 0 (omega arith) in
    let value : from_be 0 xs ≡ from_be 0 init * 256 + last =
      ap (from_be 0) whole ∙ from_be-append 0 init last in
    let high : from_be 0 xs / 256 ≡ from_be 0 init = omega (arith, value) in
    let low : from_be 0 xs % 256 ≡ last = omega (arith, value) in
    let front : be_bytes w (from_be 0 init) ≡ init =
      be_bytes-from_be w init (omega (arith, length-take w xs)) (All-take IsByte w xs bs) in
    ap₂ (λ (m n : ℕ). be_bytes w m ++ (n ∷ [])) high low
    ∙ ap (λ (t : List ℕ). t ++ (last ∷ [])) front
    ∙ sym whole

le_bytes-from_le : (xs : List ℕ) → All IsByte xs → le_bytes (length xs) (from_le xs) ≡ xs
unfolding le_bytes from_le
le_bytes-from_le [] bs = refl
le_bytes-from_le (x ∷ xs) bs =
    let high : (x + 256 * from_le xs) / 256 ≡ from_le xs = omega (arith, bs.0) in
    let low : (x + 256 * from_le xs) % 256 ≡ x = omega (arith, bs.0) in
    ap₂ (λ (m n : ℕ). n ∷ le_bytes (length xs) m) high low
    ∙ ap (λ (t : List ℕ). x ∷ t) (le_bytes-from_le xs bs.1)

pub bytes-number :
    (e : Endian) (xs : List ℕ) → All IsByte xs → bytes e (length xs) (number e xs) ≡ xs
bytes-number big xs bs = be_bytes-from_be (length xs) xs refl bs
bytes-number little xs bs = le_bytes-from_le xs bs

-- An item below `256 ^ w` that is serialized into a span of `w` elements is read back as it was
-- written, in either byte order, whatever the span held before.
pub deserialize-serialize_at :
    (e : Endian) (w item : ℕ) (buffer : List ℕ)
    → length buffer ≡ w
    → item < 256 ^ w
    → deserialize e w (serialize_at e w buffer item) ≡ item
deserialize-serialize_at e w item buffer h fits =
    ap (deserialize e w) (serialize_at-bytes e w item buffer h)
    ∙ deserialize-number e w (bytes e w item) (length-bytes e w item) (bytes-IsByte e w item)
    ∙ number-bytes e w item fits

from_be-lt : (acc : ℕ) (bs : List ℕ) → All IsByte bs → from_be acc bs < (acc + 1) * 256 ^ length bs
unfolding from_be
from_be-lt acc [] h = omega arith
from_be-lt acc (b ∷ bs) h =
    let wide : (acc * 256 + b + 1) * 256 ^ length bs ≤ (acc + 1) * 256 * 256 ^ length bs =
      mul-le-mul_right (256 ^ length bs) (omega arith) in
    omega (
      arith,
      from_be-lt (acc * 256 + b) bs h.1,
      wide,
      ap (λ (t : ℕ). (acc + 1) * t) (pow-succ' 256 (length bs)),
    )

-- What a span of bytes holds fits an integer type of its length.
pub number-lt : (e : Endian) (bs : List ℕ) → All IsByte bs → number e bs < 256 ^ length bs
unfolding from_le
number-lt big bs h = omega (arith, from_be-lt 0 bs h)
number-lt little [] h = omega arith
number-lt little (b ∷ bs) h = omega (arith, number-lt little bs h.1, pow-succ' 256 (length bs))

-- A flag is read back as it was written.
pub deserialize_bool-serialize_bool_at :
    (v : Bool) (b : ℕ) (rest : List ℕ) → deserialize_bool (serialize_bool_at v (b ∷ rest)) ≡ v
unfolding deserialize_bool serialize_bool_at
deserialize_bool-serialize_bool_at true b rest = refl
deserialize_bool-serialize_bool_at false b rest = refl
