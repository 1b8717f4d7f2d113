-- ===== src/Protocol/Serializer/Bytes.antt =====
-- What the loops of serializer.hpp compute: the digits of a number in base 256.
use emlabcpp.Prelude.{
  ℕ, zero, suc, ◌+◌, ◌-◌, ◌*◌, ◌/◌, ◌%◌, ◌^◌, ◌≤◌, ◌<◌, ◌≡◌, refl, sym, ap, ◌∙◌, arith, List, [],
  ◌∷◌, ◌++◌, append-nil, append_assoc, length, length-append, length-set, set, get_or, take, drop,
  take-length, length-take, All, All-append,
}
use native.Mathlib.Nat.{pow-suc, pow-succ', pow-le-pow_right, mod-eq_of_lt}
use emlabcpp.Protocol.Serializer.{Endian, big, little}
use emlabcpp.Protocol.Serializer.{serialize_loop, serialize_at, deserialize_loop, deserialize}

abbrev pub IsByte : ℕ → Type 0
IsByte b = b < 256

-- the `w` bytes of a number, highest first and lowest first
unfoldable pub be_bytes : ℕ → ℕ → List ℕ
be_bytes zero n = []
be_bytes (suc w) n = be_bytes w (n / 256) ++ (n % 256 ∷ [])

unfoldable pub le_bytes : ℕ → ℕ → List ℕ
le_bytes zero n = []
le_bytes (suc w) n = n % 256 ∷ le_bytes w (n / 256)

unfoldable pub from_be : ℕ → List ℕ → ℕ
from_be acc [] = acc
from_be acc (b ∷ bs) = from_be (acc * 256 + b) bs

unfoldable pub from_le : List ℕ → ℕ
from_le [] = 0
from_le (b ∷ bs) = b + 256 * from_le bs

abbrev pub bytes : Endian → ℕ → ℕ → List ℕ
bytes big = be_bytes
bytes little = le_bytes

abbrev pub number : Endian → List ℕ → ℕ
number big = from_be 0
number little = from_le

take_all {ℓ} : {A : Type ℓ} (n : ℕ) (xs : List A) → n ≡ length xs → take n xs ≡ xs
take_all n xs h = rw h (take-length xs)

drop_all {ℓ} : {A : Type ℓ} (n : ℕ) (xs : List A) → n ≡ length xs → drop n xs ≡ []
drop_all zero [] h = refl
drop_all zero (x ∷ xs) h = absurd (omega arith)
drop_all (suc n) [] h = refl
drop_all (suc n) (x ∷ xs) h = drop_all n xs (omega arith)

pub length-bytes : (e : Endian) (w n : ℕ) → length (bytes e w n) ≡ w
unfolding be_bytes le_bytes
length-bytes big zero n = refl
length-bytes big (suc w) n =
    omega (arith, length-append (be_bytes w (n / 256)) (n % 256 ∷ []), length-bytes big w (n / 256))
length-bytes little zero n = refl
length-bytes little (suc w) n = ap suc (length-bytes little w (n / 256))

pub bytes-IsByte : (e : Endian) (w n : ℕ) → All IsByte (bytes e w n)
unfolding be_bytes le_bytes
bytes-IsByte big zero n = tt
bytes-IsByte big (suc w) n =
    All-append IsByte (be_bytes w (n / 256)) (n % 256 ∷ []) (bytes-IsByte big w (n / 256))
      (omega arith)
bytes-IsByte little zero n = tt
bytes-IsByte little (suc w) n = (omega arith, bytes-IsByte little w (n / 256))

drop-set {ℓ} :
    {A : Type ℓ} (k : ℕ) (xs : List A) (v : A)
    → k < length xs
    → drop k (set xs k v) ≡ v ∷ drop (suc k) xs
drop-set zero [] v h = absurd (omega arith)
drop-set zero (x ∷ xs) v h = refl
drop-set (suc k) [] v h = absurd (omega arith)
drop-set (suc k) (x ∷ xs) v h = drop-set k xs v (omega arith)

take-set {ℓ} :
    {A : Type ℓ} (k : ℕ) (xs : List A) (v : A)
    → k < length xs
    → take (suc k) (set xs k v) ≡ take k xs ++ (v ∷ [])
take-set zero [] v h = absurd (omega arith)
take-set zero (x ∷ xs) v h = refl
take-set (suc k) [] v h = absurd (omega arith)
take-set (suc k) (x ∷ xs) v h = ap (λ t. x ∷ t) (take-set k xs v (omega arith))

serialize_loop-big :
    (w k item : ℕ) (buffer : List ℕ)
    → k ≤ length buffer
    → serialize_loop big w k item buffer ≡ be_bytes k item ++ drop k buffer
unfolding serialize_loop be_bytes
serialize_loop-big w zero item buffer h = refl
serialize_loop-big w (suc k) item buffer h =
    serialize_loop-big w k (item / 256) (set buffer k (item % 256))
      (omega (arith, length-set buffer k (item % 256)))
    ∙ ap (λ t. be_bytes k (item / 256) ++ t) (drop-set k buffer (item % 256) h)
    ∙ sym (append_assoc (be_bytes k (item / 256)) (item % 256 ∷ []) (drop (suc k) buffer))

serialize_loop-little :
    (w k item j : ℕ) (buffer : List ℕ)
    → j + k ≡ w
    → w ≡ length buffer
    → serialize_loop little w k item buffer ≡ take j buffer ++ le_bytes k item
unfolding serialize_loop le_bytes
serialize_loop-little w zero item j buffer hj h =
    sym (append-nil (take j buffer) ∙ take_all j buffer (omega arith))
serialize_loop-little w (suc k) item j buffer hj h =
    ap (λ p. serialize_loop little w k (item / 256) (set buffer p (item % 256))) {x = w - 1 - k}
      {y = j} (omega arith)
    ∙ serialize_loop-little w k (item / 256) (suc j) (set buffer j (item % 256)) (omega arith)
        (omega (arith, length-set buffer j (item % 256)))
    ∙ ap (λ t. t ++ le_bytes k (item / 256)) (take-set j buffer (item % 256) (omega arith))
    ∙ append_assoc (take j buffer) (item % 256 ∷ []) (le_bytes k (item / 256))

-- Into a span of `w` bytes, `serialize_at` writes the digits of the item and nothing else is left.
pub serialize_at-bytes :
    (e : Endian) (w item : ℕ) (buffer : List ℕ)
    → length buffer ≡ w
    → serialize_at e w buffer item ≡ bytes e w item
unfolding serialize_at
serialize_at-bytes big w item buffer h =
    serialize_loop-big w w item buffer (omega arith)
    ∙ ap (λ t. be_bytes w item ++ t) (drop_all w buffer (omega arith))
    ∙ append-nil (be_bytes w item)
serialize_at-bytes little w item buffer h =
    serialize_loop-little w w item 0 buffer (omega arith) (omega arith)

drop-get {ℓ} :
    {A : Type ℓ} (j : ℕ) (xs : List A) (d : A)
    → j < length xs
    → drop j xs ≡ get_or xs j d ∷ drop (suc j) xs
drop-get zero [] d h = absurd (omega arith)
drop-get zero (x ∷ xs) d h = refl
drop-get (suc j) [] d h = absurd (omega arith)
drop-get (suc j) (x ∷ xs) d h = drop-get j xs d (omega arith)

pub take-get {ℓ} :
    {A : Type ℓ} (k : ℕ) (xs : List A) (d : A)
    → k < length xs
    → take (suc k) xs ≡ take k xs ++ (get_or xs k d ∷ [])
take-get zero [] d h = absurd (omega arith)
take-get zero (x ∷ xs) d h = refl
take-get (suc k) [] d h = absurd (omega arith)
take-get (suc k) (x ∷ xs) d h = ap (λ t. x ∷ t) (take-get k xs d (omega arith))

pub get_or-IsByte : (xs : List ℕ) (j : ℕ) → All IsByte xs → get_or xs j 0 < 256
get_or-IsByte [] j h = omega arith
get_or-IsByte (x ∷ xs) zero h = h.0
get_or-IsByte (x ∷ xs) (suc j) h = get_or-IsByte xs j h.1

-- The shift by one byte does not overflow while there is a byte left to read.
shift_fits : (j w res : ℕ) → suc j ≤ w → res < 256 ^ j → res * 256 % 256 ^ w ≡ res * 256
shift_fits j w res h r =
    let wide : 256 ^ suc j ≤ 256 ^ w = pow-le-pow_right (omega arith) h in
    mod-eq_of_lt (omega (arith, wide, pow-suc 256 j))

deserialize_loop-big :
    (w k res j : ℕ) (buffer : List ℕ)
    → j + k ≡ w
    → w ≡ length buffer
    → All IsByte buffer
    → res < 256 ^ j
    → deserialize_loop big w k res buffer ≡ from_be res (drop j buffer)
unfolding deserialize_loop from_be
deserialize_loop-big w zero res j buffer hj h bs r =
    sym (ap (from_be res) (drop_all j buffer (omega arith)))
deserialize_loop-big w (suc k) res j buffer hj h bs r =
    let b = get_or buffer j 0 in
    let p : w - suc k ≡ j = omega arith in
    ap (λ (x : ℕ). deserialize_loop big w k (x + get_or buffer (w - suc k) 0) buffer)
      (shift_fits j w res (omega arith) r)
    ∙ ap (λ (x : ℕ). deserialize_loop big w k (res * 256 + get_or buffer x 0) buffer) p
    ∙ deserialize_loop-big w k (res * 256 + b) (suc j) buffer (omega arith) h bs
        (omega (arith, get_or-IsByte buffer j bs, pow-suc 256 j))
    ∙ sym (ap (from_be res) (drop-get j buffer 0 (omega arith)))

from_le-append : (xs : List ℕ) (b : ℕ) → from_le (xs ++ (b ∷ [])) ≡ from_le xs + 256 ^ length xs * b
unfolding from_le
from_le-append [] b = omega arith
from_le-append (x ∷ xs) b =
    omega (arith, from_le-append xs b, ap (λ (t : ℕ). t * b) (pow-succ' 256 (length xs)))

next_digit :
    (k : ℕ) (buffer : List ℕ) (res : ℕ)
    → k < length buffer
    → from_le (take k buffer) + 256 ^ k * (res * 256 + get_or buffer k 0)
      ≡ from_le (take (suc k) buffer) + 256 ^ suc k * res
next_digit k buffer res h =
    let b = get_or buffer k 0 in
    let n : length (take k buffer) ≡ k = omega (arith, length-take k buffer) in
    let split : from_le (take (suc k) buffer) ≡ from_le (take k buffer) + 256 ^ k * b =
      ap from_le (take-get k buffer 0 h)
      ∙ from_le-append (take k buffer) b
      ∙ ap (λ (m : ℕ). from_le (take k buffer) + 256 ^ m * b) n in
    omega (arith, split, ap (λ (t : ℕ). t * res) (pow-suc 256 k))

-- With `k` rounds left the `k` lowest bytes are to be read, the highest of them first.
deserialize_loop-little :
    (w k res : ℕ) (buffer : List ℕ) (j : ℕ)
    → j + k ≡ w
    → w ≡ length buffer
    → All IsByte buffer
    → res < 256 ^ j
    → deserialize_loop little w k res buffer ≡ from_le (take k buffer) + 256 ^ k * res
unfolding deserialize_loop from_le
deserialize_loop-little w zero res buffer j hj h bs r = omega arith
deserialize_loop-little w (suc k) res buffer j hj h bs r =
    let b = get_or buffer k 0 in
    let p : w - 1 - (w - suc k) ≡ k = omega arith in
    ap (λ (x : ℕ). deserialize_loop little w k (x + get_or buffer (w - 1 - (w - suc k)) 0) buffer)
      (shift_fits j w res (omega arith) r)
    ∙ ap (λ (x : ℕ). deserialize_loop little w k (res * 256 + get_or buffer x 0) buffer) p
    ∙ deserialize_loop-little w k (res * 256 + b) buffer (suc j) (omega arith) h bs
        (omega (arith, get_or-IsByte buffer k bs, pow-suc 256 j))
    ∙ next_digit k buffer res (omega arith)

-- `deserialize` reads the number that the bytes of its span are the digits of.
pub deserialize-number :
    (e : Endian) (w : ℕ) (buffer : List ℕ)
    → length buffer ≡ w
    → All IsByte buffer
    → deserialize e w buffer ≡ number e buffer
unfolding deserialize
deserialize-number big w buffer h bs =
    deserialize_loop-big w w 0 0 buffer (omega arith) (sym h) bs (omega arith)
deserialize-number little w buffer h bs =
    deserialize_loop-little w w 0 buffer 0 (omega arith) (sym h) bs (omega arith)
    ∙ omega (arith, ap from_le (take_all w buffer (sym h)))
