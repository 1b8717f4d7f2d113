-- ===== src/Protocol/Converter/Scalar/Laws.antt =====
-- converter.hpp: the contract for the converters that wrap another one.
use emlabcpp.Prelude.{
  ℕ, ◌+◌, ◌-◌, ◌%◌, ◌^◌, ◌≤◌, ◌<◌, ◌≡◌, refl, ap, ◌∙◌, arith, List, [], ◌∷◌, ◌++◌, length, All,
  Bool, true, false, ltb, ltb→lt, ltb→le, subst, Bool-cases, inl, inr,
}
use emlabcpp.Protocol.Serializer.{serialize_bool_at, deserialize_bool}
use emlabcpp.Protocol.Serializer.Bytes.{IsByte}
use emlabcpp.Protocol.Converter.{done, used, map_value, Converter, IsConverter, Anything}
use emlabcpp.Protocol.Converter.Outcome.{map_value-done, used-map_value, >>=-eq-done, used->>=}
use emlabcpp.Protocol.Converter.Scalar.{
  deserialize_flag, flag, monostate, value_offset, deserialize_bounded, bounded, deserialize_tag,
  tag, quantity, decomposed,
}
use native.Mathlib.Nat.{mod-lt, mod-eq_of_lt, mod-eq-sub-mod}

abbrev pub Always : {A : Type 0} → A → Type 0
Always v = Unit {0}

flag-round_trip :
    (v : Bool) (rest : List ℕ)
    → deserialize_flag (serialize_bool_at v (0 ∷ []) ++ rest)
      ≡ done (length (serialize_bool_at v (0 ∷ []))) v
unfolding deserialize_flag serialize_bool_at deserialize_bool
flag-round_trip true rest = ground arith
flag-round_trip false rest = ground arith

flag-in_bounds : (buffer : List ℕ) → used (deserialize_flag buffer) ≤ length buffer
unfolding deserialize_flag
flag-in_bounds buffer = ground arith

flag-bytes : (v : Bool) → All IsByte (serialize_bool_at v (0 ∷ []))
unfolding serialize_bool_at
flag-bytes true = omega arith
flag-bytes false = omega arith

pub flag-IsConverter : IsConverter flag Always Anything
unfolding serialize_bool_at
flag-IsConverter = record {
  fits = λ v _. omega arith;
  bytes = λ v _. flag-bytes v;
  round_trip = λ v rest _ _. flag-round_trip v rest;
  in_bounds = flag-in_bounds;
  sound = λ buffer n v bs e. tt;
}

pub monostate-IsConverter : IsConverter monostate Always Anything
monostate-IsConverter = record {
  fits = λ v _. omega arith;
  bytes = λ v _. tt;
  round_trip = λ v rest _ _. refl;
  in_bounds = λ buffer. omega arith;
  sound = λ buffer n v bs e. tt;
}

-- A structure whose members are converted lawfully is converted lawfully, if taking it apart and
-- putting it together again gives it back.
pub decomposed-IsConverter :
    {A T : Type 0} (decompose : T → A) (compose : A → T) {sub : Converter A} {V : A → Type 0}
    (W : T → Type 0) {R : List ℕ → Type 0}
    → IsConverter sub V R
    → ((item : T) → W item → V (decompose item) × (compose (decompose item) ≡ item))
    → ((val : A) → V val → W (compose val))
    → IsConverter (decomposed decompose compose sub) W R
decomposed-IsConverter decompose compose {sub} W law back good = record {
  fits = λ item h. law.fits (decompose item) (back item h).0;
  bytes = λ item h. law.bytes (decompose item) (back item h).0;
  round_trip = λ item rest h r.
      let n = length (sub.serialize_at (decompose item)) in
      ap (map_value compose) (law.round_trip (decompose item) rest (back item h).0 r)
      ∙ ap (done n) (back item h).1;
  in_bounds = λ buffer. rw used-map_value (law.in_bounds buffer);
  sound = λ buffer n item bs e.
      let (val, d, c) = map_value-done compose (sub.deserialize buffer) e in
      subst W c (good val (law.sound buffer n val bs d));
}

pub quantity-IsConverter :
    {A : Type 0} {sub : Converter A} {V : A → Type 0} {R : List ℕ → Type 0}
    → IsConverter sub V R
    → IsConverter (quantity sub) (λ item. V item.value) R
quantity-IsConverter {V} law =
    decomposed-IsConverter (λ item. item.value) (λ val. record { value = val })
      (λ item. V item.value) law (λ item h. (h, refl)) (λ val h. h)

unwrap_offset : (m offset v : ℕ) → offset < m → v < m → ((v + offset) % m + m - offset) % m ≡ v
unwrap_offset m offset v ho hv = elim (Bool-cases (ltb (v + offset) m)) [
  | inl small ↦ rw (mod-eq_of_lt (ltb→lt (v + offset) m small)) (
      omega (
        arith,
        mod-eq-sub-mod {n = v + offset + m - offset} {m = m} (omega arith),
        mod-eq_of_lt {n = v + offset + m - offset - m} {m = m} (omega arith),
      ))
  | inr large ↦
      let past : m ≤ v + offset = ltb→le (v + offset) m large in
      rw (mod-eq-sub-mod past, mod-eq_of_lt {n = v + offset - m} {m = m} (omega arith))
        (omega (arith, mod-eq_of_lt {n = v + offset - m + m - offset} {m = m} (omega arith)))
]

-- If the inner converter fulfils the contract for all values of `w` bytes and the offset fits `w`
-- bytes, the converter with the offset fulfils it for the same values, also where the sum wraps.
pub value_offset-IsConverter :
    (w offset : ℕ) {sub : Converter ℕ} {R : List ℕ → Type 0}
    → offset < 256 ^ w
    → IsConverter sub (λ v. v < 256 ^ w) R
    → IsConverter (value_offset w offset sub) (λ v. v < 256 ^ w) R
value_offset-IsConverter w offset ho law =
    let m = 256 ^ w in
    let below : (x : ℕ) → x % m < m = λ x. mod-lt x (omega arith) in
    decomposed-IsConverter (λ item. (item + offset) % m) (λ value. (value + m - offset) % m)
      (λ v. v < m) law (λ v h. (below (v + offset), unwrap_offset m offset v ho h))
      (λ a h. below (a + m - offset))

abbrev pub Within : ℕ → ℕ → (ℕ → Type 0) → ℕ → Type 0
Within lo hi V v = V v × (lo ≤ v) × (v ≤ hi)

module _ (lo hi : ℕ) {sub : Converter ℕ} {V : ℕ → Type 0} {R : List ℕ → Type 0}
    (law : IsConverter sub V R) where
  bounded_sound :
      (buffer : List ℕ) (n v : ℕ)
      → All IsByte buffer
      → deserialize_bounded lo hi sub buffer ≡ done n v
      → Within lo hi V v
  unfolding deserialize_bounded
  bounded_sound buffer n v bs e =
      let (u, val, d, c) = >>=-eq-done (sub.deserialize buffer) _ e in
      let checked : (val ≡ v) × (lo ≤ v) × (v ≤ hi) = ground arith in
      (subst V checked.0 (law.sound buffer u val bs d), checked.1, checked.2)

  bounded-in_bounds :
      (buffer : List ℕ) → used (deserialize_bounded lo hi sub buffer) ≤ length buffer
  unfolding deserialize_bounded
  bounded-in_bounds buffer =
      used->>= (sub.deserialize buffer) _ (law.in_bounds buffer)
        (λ u val d. let here : u ≤ length buffer = (rw d at (law.in_bounds buffer)) in ground arith)

  -- If the inner type fulfils the contract of a converter, the converter of the bounded type
  -- fulfils it for the valid values between the bounds: no value outside of the bounds is ever
  -- read.
  pub bounded-IsConverter : IsConverter (bounded lo hi sub) (Within lo hi V) R
  unfolding deserialize_bounded
  bounded-IsConverter = record {
    fits = λ v h. law.fits v h.0;
    bytes = λ v h. law.bytes v h.0;
    round_trip = λ v rest h r. ground (arith, law.round_trip v rest h.0 r);
    in_bounds = bounded-in_bounds;
    sound = bounded_sound;
  }

module _ (v : ℕ) {sub : Converter ℕ} {V : ℕ → Type 0} {R : List ℕ → Type 0}
    (law : IsConverter sub V R) where
  tag-in_bounds : (buffer : List ℕ) → used (deserialize_tag v sub buffer) ≤ length buffer
  unfolding deserialize_tag
  tag-in_bounds buffer =
      used->>= (sub.deserialize buffer) _ (law.in_bounds buffer)
        (λ u val d. let here : u ≤ length buffer = (rw d at (law.in_bounds buffer)) in ground arith)

  -- If the inner type fulfils the contract of a converter and the tag is a valid value of it, the
  -- converter of the tag fulfils the contract.
  pub tag-IsConverter : V v → IsConverter (tag v sub) Always R
  unfolding deserialize_tag
  tag-IsConverter h = record {
    fits = λ _ _. law.fits v h;
    bytes = λ _ _. law.bytes v h;
    round_trip = λ _ rest _ r. rw (law.round_trip v rest h r) (ground arith);
    in_bounds = tag-in_bounds;
    sound = λ buffer n _ bs e. tt;
  }
