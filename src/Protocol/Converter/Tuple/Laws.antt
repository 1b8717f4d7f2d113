-- ===== src/Protocol/Converter/Tuple/Laws.antt =====
-- converter.hpp: the contract for `std::tuple`. Only the last element may take all that is left.
use emlabcpp.Prelude.{
  ℕ, ◌+◌, ◌≤◌, ◌≡◌, refl, sym, ap, ◌∙◌, arith, List, ◌++◌, append_assoc, length, length-append,
  length-drop, drop, drop-drop, drop-append, All, All-append, All-drop, le→ltb, subst,
}
use emlabcpp.Protocol.Serializer.Bytes.{IsByte}
use emlabcpp.Protocol.Converter.{
  Conversion, done, used, add_used, map_value, ◌>>=◌, Converter, IsConverter,
}
use emlabcpp.Protocol.Converter.Outcome.{
  >>=-eq-done, used->>=, map_value-done, used-map_value, add_used-done, used-add_used,
}
use emlabcpp.Protocol.Converter.Tuple.{
  Fields, nil, cons, tuple_min_size, tuple_max_size, serialize_tuple, deserialize_tuple, tuple,
}

-- The elements are lawful for the values in the predicate. Each allows what is written behind it:
-- the later elements and what follows the tuple.
pub data AreFields (R : List ℕ → Type 0) : (T : Type 0) → Fields T → (T → Type 0) → Type 1 where
  empty : AreFields R (Unit {0}) nil (λ _. Unit {0})
  field :
      {A B : Type 0} {c : Converter A} {fs : Fields B} {V : A → Type 0} {W : B → Type 0}
      {Q : List ℕ → Type 0}
      → IsConverter c V Q
      → ((w : B) (rest : List ℕ) → W w → R rest → Q (serialize_tuple fs w ++ rest))
      → AreFields R B fs W
      → AreFields R (A × B) (cons c fs) (λ t. V t.0 × W t.1)

module _ {A B : Type 0} (c : Converter A) (fs : Fields B) (buffer : List ℕ) (offset : ℕ) where
  element : Conversion A
  element = add_used offset (c.deserialize (drop offset buffer))

  -- within the buffer the first element is read, and then the others from where it ended
  tuple_step :
      offset ≤ length buffer
      → deserialize_tuple (cons c fs) buffer offset
        ≡ (element >>= λ (u, v). map_value (λ vs. (v, vs)) (deserialize_tuple fs buffer u))
  unfolding deserialize_tuple element
  tuple_step h = rw (le→ltb (length buffer) offset h, deserialize_tuple)

  tuple_next :
      {u : ℕ} {v : A}
      → offset ≤ length buffer
      → c.deserialize (drop offset buffer) ≡ done u v
      → deserialize_tuple (cons c fs) buffer offset
        ≡ map_value (λ vs. (v, vs)) (deserialize_tuple fs buffer (u + offset))
  unfolding element
  tuple_next h e = tuple_step h ∙ rw e

  element-in_bounds :
      {V : A → Type 0} {R : List ℕ → Type 0}
      → IsConverter c V R
      → offset ≤ length buffer
      → used element ≤ length buffer
  unfolding element
  element-in_bounds law h = omega (
    arith,
    used-add_used offset (c.deserialize (drop offset buffer)),
    law.in_bounds (drop offset buffer),
    length-drop offset buffer,
  )

  element_sound :
      {V : A → Type 0} {R : List ℕ → Type 0} {u : ℕ} {v : A}
      → IsConverter c V R
      → All IsByte buffer
      → element ≡ done u v
      → V v
  unfolding element
  element_sound {v} law bs e =
      let (k, d) = add_used-done offset (c.deserialize (drop offset buffer)) e in
      law.sound (drop offset buffer) k v (All-drop IsByte offset buffer bs) d

module _ {R : List ℕ → Type 0} where
  tuple-fits :
      {T : Type 0} {fs : Fields T} {V : T → Type 0}
      → AreFields R T fs V
      → (v : T) → V v
      → (tuple_min_size fs ≤ length (serialize_tuple fs v))
        × (length (serialize_tuple fs v) ≤ tuple_max_size fs)
  unfolding tuple_min_size tuple_max_size serialize_tuple
  tuple-fits empty v h = omega arith
  tuple-fits (field {c} {fs} law follows laws) (v, w) h = omega (
    arith,
    law.fits v h.0,
    tuple-fits laws w h.1,
    length-append (c.serialize_at v) (serialize_tuple fs w),
  )

  tuple-bytes :
      {T : Type 0} {fs : Fields T} {V : T → Type 0}
      → AreFields R T fs V
      → (v : T) → V v
      → All IsByte (serialize_tuple fs v)
  unfolding serialize_tuple
  tuple-bytes empty v h = tt
  tuple-bytes (field law follows laws) (v, w) h =
      All-append IsByte _ _ (law.bytes v h.0) (tuple-bytes laws w h.1)

  tuple-round_trip :
      {T : Type 0} {fs : Fields T} {V : T → Type 0}
      → AreFields R T fs V
      → (v : T) (rest buffer : List ℕ) (offset : ℕ) → V v
      → R rest
      → offset ≤ length buffer
      → drop offset buffer ≡ serialize_tuple fs v ++ rest
      → deserialize_tuple fs buffer offset ≡ done (offset + length (serialize_tuple fs v)) v
  unfolding serialize_tuple
  tuple-round_trip empty v rest buffer offset h r here e =
      unfold deserialize_tuple in (ap (λ n. done n tt) (omega arith))
  tuple-round_trip (field {c} {fs} law follows laws) (v, w) rest buffer offset h r here e =
      let front = c.serialize_at v in
      let later = serialize_tuple fs w in
      let e' : drop offset buffer ≡ front ++ (later ++ rest) = e ∙ append_assoc front later rest in
      let size : length buffer ≡ length front + offset + length (later ++ rest) =
        omega
          (arith, length-drop offset buffer, ap length e', length-append front (later ++ rest)) in
      let there : drop (length front + offset) buffer ≡ later ++ rest =
        ap (λ n. drop n buffer) {y = offset + length front} (omega arith)
        ∙ sym (drop-drop offset (length front) buffer)
        ∙ ap (drop (length front)) e'
        ∙ drop-append front (later ++ rest) in
      tuple_next c fs buffer offset here
        (ap c.deserialize e' ∙ law.round_trip v (later ++ rest) h.0 (follows w rest h.1 r))
      ∙ ap (map_value (λ ws. (v, ws)))
          (tuple-round_trip laws w rest buffer (length front + offset) h.1 r (omega arith) there)
      ∙ ap (λ n. done n (v, w)) (omega (arith, length-append front later))

  tuple-in_bounds :
      {T : Type 0} {fs : Fields T} {V : T → Type 0}
      → AreFields R T fs V
      → (buffer : List ℕ) (offset : ℕ) → offset ≤ length buffer
      → used (deserialize_tuple fs buffer offset) ≤ length buffer
  tuple-in_bounds empty buffer offset h = unfold deserialize_tuple in h
  tuple-in_bounds (field {c} {fs} law follows laws) buffer offset h =
      let bound = element-in_bounds c fs buffer offset law h in
      rw (tuple_step c fs buffer offset h) (
        used->>= (element c fs buffer offset) _ bound
          (λ u v d. rw used-map_value (tuple-in_bounds laws buffer u (rw d at bound))))

  tuple_sound :
      {T : Type 0} {fs : Fields T} {V : T → Type 0}
      → AreFields R T fs V
      → (buffer : List ℕ) (offset n : ℕ) (v : T) → offset ≤ length buffer
      → All IsByte buffer
      → deserialize_tuple fs buffer offset ≡ done n v
      → V v
  tuple_sound empty buffer offset n v h bs e = tt
  tuple_sound (field {c} {fs} {V} {W} law follows laws) buffer offset n v h bs e =
      let bound = element-in_bounds c fs buffer offset law h in
      let (u, a, d, e1) =
        >>=-eq-done (element c fs buffer offset) _ (sym (tuple_step c fs buffer offset h) ∙ e) in
      let (b, d2, same) = map_value-done (λ vs. (a, vs)) (deserialize_tuple fs buffer u) e1 in
      subst (λ t. V t.0 × W t.1) same
        (
          element_sound c fs buffer offset law bs d,
          tuple_sound laws buffer u n b (rw d at bound) bs d2,
        )

  -- If each element of a tuple fulfils the contract of a converter before what the elements behind
  -- it write, the converter of the tuple fulfils it: sizes in bounds, bytes only, what is written
  -- is read back, no more is used than the buffer has, and only valid values are read.
  pub tuple-IsConverter :
      {T : Type 0} {fs : Fields T} {V : T → Type 0}
      → AreFields R T fs V
      → IsConverter (tuple fs) V R
  tuple-IsConverter {fs} laws = record {
    fits = tuple-fits laws;
    bytes = tuple-bytes laws;
    round_trip = λ v rest h r.
        tuple-round_trip laws v rest (serialize_tuple fs v ++ rest) 0 h r (omega arith) refl
        ∙ ap (λ n. done n v) (omega arith);
    in_bounds = λ buffer. tuple-in_bounds laws buffer 0 (omega arith);
    sound = λ buffer n v bs e. tuple_sound laws buffer 0 n v (omega arith) bs e;
  }
