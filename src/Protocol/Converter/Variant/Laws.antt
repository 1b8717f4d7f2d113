-- ===== src/Protocol/Converter/Variant/Laws.antt =====
-- converter.hpp: the contract for `std::variant`, from that for its alternatives.
use emlabcpp.Prelude.{
  ℕ, suc, ◌+◌, ◌%◌, ◌≤◌, ◌<◌, ◌≡◌, ap, arith, List, ◌++◌, append_assoc, length, length-append,
  length-drop, drop, drop-append, All, All-append, All-drop, ◌==◌, ==_iff, false, Bool-cases, ◌⊎◌,
  inl, inr, subst,
}
use native.Mathlib.Nat.{mod-eq_of_lt}
use emlabcpp.Protocol.Serializer.{Endian}
use emlabcpp.Protocol.Serializer.Bytes.{IsByte}
use emlabcpp.Protocol.Converter.{done, used, add_used, Converter, IsConverter}
use emlabcpp.Protocol.Converter.Outcome.{
  >>=-eq-done, used->>=, map_value-done, used-map_value, add_used-done, used-add_used,
}
use emlabcpp.Protocol.Converter.Integer.{
  integer, integer-IsConverter, length-serialize_at, integer-done,
}
use emlabcpp.Protocol.Converter.Variant.{
  Alternatives, only, or_else, least_size, greatest_size, index, serialize_content, deserialize_nth,
  serialize_variant_at, deserialize_variant, variant,
}

abbrev pub Either : {A B : Type 0} → (A → Type 0) → (B → Type 0) → A ⊎ B → Type 0
Either V W (inl a) = V a
Either V W (inr b) = W b

-- The alternatives are lawful for the values in the predicate.
pub data AreAlternatives (R : List ℕ → Type 0)
    : (T : Type 0) → Alternatives T → (T → Type 0) → Type 1 where
  sole :
      {A : Type 0} {id : ℕ} {c : Converter A} {V : A → Type 0}
      → IsConverter c V R
      → AreAlternatives R A (only id c) V
  more :
      {A B : Type 0} {id : ℕ} {c : Converter A} {alts : Alternatives B} {V : A → Type 0}
      {W : B → Type 0}
      → IsConverter c V R
      → AreAlternatives R B alts W
      → AreAlternatives R (A ⊎ B) (or_else id c alts) (Either V W)

unfoldable pub count : {T : Type 0} → Alternatives T → ℕ
count (only id c) = 1
count (or_else id c alts) = suc (count alts)

pub index-lt : {T : Type 0} (alts : Alternatives T) (item : T) → index alts item < count alts
unfolding index count
index-lt (only id c) item = omega arith
index-lt (or_else id c alts) (inl item) = omega arith
index-lt (or_else id c alts) (inr item) = omega (arith, index-lt alts item)

module _ {R : List ℕ → Type 0} where
  pub content-fits :
      {T : Type 0} {alts : Alternatives T} {V : T → Type 0}
      → AreAlternatives R T alts V
      → (v : T) → V v
      → (least_size alts ≤ length (serialize_content alts v))
        × (length (serialize_content alts v) ≤ greatest_size alts)
  unfolding least_size greatest_size serialize_content
  content-fits (sole law) v h = law.fits v h
  content-fits (more law laws) (inl v) h = omega (arith, law.fits v h)
  content-fits (more law laws) (inr v) h = omega (arith, content-fits laws v h)

  pub content-bytes :
      {T : Type 0} {alts : Alternatives T} {V : T → Type 0}
      → AreAlternatives R T alts V
      → (v : T) → V v
      → All IsByte (serialize_content alts v)
  unfolding serialize_content
  content-bytes (sole law) v h = law.bytes v h
  content-bytes (more law laws) (inl v) h = law.bytes v h
  content-bytes (more law laws) (inr v) h = content-bytes laws v h

  nth-round_trip :
      {T : Type 0} {alts : Alternatives T} {V : T → Type 0}
      → AreAlternatives R T alts V
      → (i id u : ℕ) (v : T) (rest : List ℕ) → V v
      → R rest
      → id ≡ i + index alts v
      → deserialize_nth alts i id u (serialize_content alts v ++ rest)
        ≡ done (length (serialize_content alts v) + u) v
  unfolding serialize_content deserialize_nth index
  nth-round_trip (sole law) i id u v rest h r e =
      rw ((==_iff id i).1 (omega arith), deserialize_nth, law.round_trip v rest h r)
  nth-round_trip (more law laws) i id u (inl v) rest h r e =
      rw ((==_iff id i).1 (omega arith), deserialize_nth, law.round_trip v rest h r)
  nth-round_trip (more {alts} law laws) i id u (inr v) rest h r e =
      let other : (id == i) ≡ false = ground arith in
      rw (other, deserialize_nth, nth-round_trip laws (suc i) id u v rest h r (omega arith))

  nth-in_bounds :
      {T : Type 0} {alts : Alternatives T} {V : T → Type 0}
      → AreAlternatives R T alts V
      → (i id u : ℕ) (buffer : List ℕ)
      → used (deserialize_nth alts i id u buffer) ≤ length buffer + u
  unfolding deserialize_nth
  nth-in_bounds (sole {c} law) i id u buffer =
      ground (arith, used-add_used u (c.deserialize buffer), law.in_bounds buffer)
  nth-in_bounds (more {A} {B} {c} {alts} law laws) i id u buffer = ground (
    arith,
    nth-in_bounds laws (suc i) id u buffer,
    used-add_used u (c.deserialize buffer),
    law.in_bounds buffer,
    used-map_value {B = A ⊎ B} inl (add_used u (c.deserialize buffer)),
    used-map_value {B = A ⊎ B} inr (deserialize_nth alts (suc i) id u buffer),
  )

  nth_sound :
      {T : Type 0} {alts : Alternatives T} {V : T → Type 0}
      → AreAlternatives R T alts V
      → (i id u n : ℕ) (buffer : List ℕ) (v : T) → All IsByte buffer
      → deserialize_nth alts i id u buffer ≡ done n v
      → V v
  unfolding deserialize_nth
  nth_sound (sole {c} law) i id u n buffer v bs e = elim (Bool-cases (id == i)) [
    | inl same ↦
        let (k, d) = add_used-done u (c.deserialize buffer) (rw (same, deserialize_nth) at e) in
        law.sound buffer k v bs d
    | inr other ↦ cc (rw (other, deserialize_nth) at e)
  ]
  nth_sound (more {A} {B} {c} {alts} {V} {W} law laws) i id u n buffer v bs e =
      elim (Bool-cases (id == i)) [
        | inl same ↦
            let (a, d, p) =
              map_value-done {B = A ⊎ B} inl (add_used u (c.deserialize buffer))
                (rw (same, deserialize_nth) at e) in
            let (k, d2) = add_used-done u (c.deserialize buffer) d in
            subst (Either V W) p (law.sound buffer k a bs d2)
        | inr other ↦
            let (b, d, p) =
              map_value-done {B = A ⊎ B} inr (deserialize_nth alts (suc i) id u buffer)
                (rw (other, deserialize_nth) at e) in
            subst (Either V W) p (nth_sound laws (suc i) id u n buffer b bs d)
      ]

module _ (e : Endian) {T : Type 0} {alts : Alternatives T} {V : T → Type 0} {R : List ℕ → Type 0}
    (laws : AreAlternatives R T alts V) where
  variant_round_trip :
      (v : T) (rest : List ℕ)
      → count alts < 256
      → V v
      → R rest
      → deserialize_variant e alts (serialize_variant_at e alts v ++ rest)
        ≡ done (length (serialize_variant_at e alts v)) v
  unfolding serialize_variant_at deserialize_variant
  variant_round_trip v rest hc h r =
      let small : index alts v < 256 = omega (arith, index-lt alts v) in
      let head = (integer e 1).serialize_at (index alts v) in
      let content = serialize_content alts v in
      let wide : length head ≡ 1 = length-serialize_at e 1 (index alts v) in
      let read = (integer-IsConverter e 1).round_trip (index alts v) (content ++ rest) small tt in
      let inner : drop 1 (head ++ (content ++ rest)) ≡ content ++ rest =
        (rw wide at (drop-append head (content ++ rest))) in
      rw
        (
          mod-eq_of_lt {n = index alts v} {m = 256} small,
          append_assoc,
          read,
          inner,
          wide,
          nth-round_trip laws 0 (index alts v) 1 v rest h r (omega arith),
        )
        (ap (λ n. done n v) (omega (arith, length-append head content)))

  variant_in_bounds : (buffer : List ℕ) → used (deserialize_variant e alts buffer) ≤ length buffer
  unfolding deserialize_variant
  variant_in_bounds buffer =
      used->>= ((integer e 1).deserialize buffer) _ ((integer-IsConverter e 1).in_bounds buffer)
        (λ u id d. omega (
          arith,
          integer-done e 1 buffer d,
          nth-in_bounds laws 0 id u (drop 1 buffer),
          length-drop 1 buffer,
        ))

  -- If all alternatives of a variant fulfil the contract of a converter and there are fewer than
  -- 256 of them, the converter of the variant fulfils it for the values of each alternative.
  pub variant-IsConverter : count alts < 256 → IsConverter (variant e alts) V R
  unfolding serialize_variant_at deserialize_variant
  variant-IsConverter hc =
      let head : T → List ℕ = λ v. (integer e 1).serialize_at (index alts v % 256) in
      record {
        fits = λ v h. omega (
          arith,
          content-fits laws v h,
          length-append (head v) (serialize_content alts v),
          length-serialize_at e 1 (index alts v % 256),
        );
        bytes = λ v h.
            All-append IsByte (head v) _
              ((integer-IsConverter e 1).bytes (index alts v % 256) (omega arith))
              (content-bytes laws v h);
        round_trip = λ v rest h r. variant_round_trip v rest hc h r;
        in_bounds = variant_in_bounds;
        sound = λ buffer n v bs d.
            let (u, id, read, d2) = >>=-eq-done ((integer e 1).deserialize buffer) _ d in
            nth_sound laws 0 id u n (drop 1 buffer) v (All-drop IsByte 1 buffer bs) d2;
      }
