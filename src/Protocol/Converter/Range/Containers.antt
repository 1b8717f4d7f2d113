-- ===== src/Protocol/Converter/Range/Containers.antt =====
-- converter.hpp: the contract for `std::array` and `static_vector`.
use emlabcpp.Prelude.{
  ℕ, ◌≤◌, ◌<◌, ◌≡◌, refl, ap, ◌∙◌, arith, List, ◌++◌, append_assoc, length, length-append,
  length-drop, min, drop, drop-append, All, All-append, All-drop,
}
use native.Mathlib.Nat.{mul-le-mul_left}
use emlabcpp.Protocol.Serializer.{Endian}
use emlabcpp.Protocol.Serializer.Bytes.{IsByte}
use emlabcpp.Protocol.Converter.{
  Conversion, done, used, add_used, ◌>>=◌, Converter, IsConverter, Anything,
}
use emlabcpp.Protocol.Converter.Outcome.{add_used-done, used-add_used, >>=-eq-done, used->>=}
use emlabcpp.Protocol.Converter.Integer.{
  integer, integer-IsConverter, length-serialize_at, integer-done,
}
use emlabcpp.Protocol.Converter.Range.{
  serialize_range, deserialize_range, array, serialize_vector_at, deserialize_vector, vector,
}
use emlabcpp.Protocol.Converter.Range.Laws.{
  range-fits, range-bytes, range-round_trip, range-in_bounds, range_sound,
}

abbrev pub IsArray : {A : Type 0} → (A → Type 0) → ℕ → List A → Type 0
IsArray V n vs = (length vs ≡ n) × All V vs

abbrev pub IsVector : {A : Type 0} → (A → Type 0) → ℕ → List A → Type 0
IsVector V n vs = (length vs ≤ n) × All V vs

module _ {A : Type 0} {sub : Converter A} {V : A → Type 0} (law : IsConverter sub V Anything) where
  array_round_trip :
      (n : ℕ) (vs : List A) (rest : List ℕ)
      → IsArray V n vs
      → deserialize_range sub (serialize_range sub vs ++ rest) n 0
        ≡ done (length (serialize_range sub vs)) vs
  array_round_trip n vs rest h = rw (← h.0) (
      range-round_trip law vs rest (serialize_range sub vs ++ rest) 0 (omega arith) refl h.1
      ∙ ap (λ k. done k vs) (omega arith))

  -- If the items fulfil the contract of a converter before anything, the converter of an array of
  -- `n` items fulfils it before anything, for the lists of `n` valid items.
  pub array-IsConverter : (n : ℕ) → IsConverter (array sub n) (IsArray V n) Anything
  array-IsConverter n = record {
    fits = λ vs h. rw (← h.0) (range-fits law vs h.1);
    bytes = λ vs h. range-bytes law vs h.1;
    round_trip = λ vs rest h _. array_round_trip n vs rest h;
    in_bounds = λ buffer. range-in_bounds law n 0 buffer (omega arith);
    sound = λ buffer k vs bs e. range_sound law n 0 k buffer vs (omega arith) bs e;
  }

  module _ (e : Endian) where
    vector-round_trip :
        (n : ℕ) (vs : List A) (rest : List ℕ)
        → n < 65536
        → IsVector V n vs
        → deserialize_vector e sub n (serialize_vector_at e sub vs ++ rest)
          ≡ done (length (serialize_vector_at e sub vs)) vs
    unfolding serialize_vector_at deserialize_vector
    vector-round_trip n vs rest hn h =
        let count = (integer e 2).serialize_at (length vs) in
        let items = serialize_range sub vs in
        let buffer = count ++ (items ++ rest) in
        let later : ℕ × ℕ → Conversion (List A) =
          λ (u, k). add_used 2 (deserialize_range sub (drop 2 buffer) (min k n) 0) in
        let small : length vs < 65536 = omega arith in
        let read = (integer-IsConverter e 2).round_trip (length vs) (items ++ rest) small tt in
        let two : length count ≡ 2 = length-serialize_at e 2 (length vs) in
        let past : drop 2 (count ++ (items ++ rest)) ≡ items ++ rest =
          (rw two at (drop-append count (items ++ rest))) in
        let all : min (length vs) n ≡ length vs = omega arith in
        ap (deserialize_vector e sub n) (append_assoc count items rest)
        ∙ ap (λ r. r >>= later) read
        ∙ ap (add_used 2) (
            ap (λ k. deserialize_range sub (drop 2 (count ++ (items ++ rest))) k 0) all
            ∙ range-round_trip law vs rest (drop 2 (count ++ (items ++ rest))) 0 (omega arith) past
                h.1)
        ∙ ap (λ k. done k vs) (omega (arith, length-append count items))

    vector-in_bounds :
        (n : ℕ) (buffer : List ℕ) → used (deserialize_vector e sub n buffer) ≤ length buffer
    unfolding deserialize_vector
    vector-in_bounds n buffer =
        used->>= ((integer e 2).deserialize buffer) _ ((integer-IsConverter e 2).in_bounds buffer)
          (λ u count d.
            let items = drop 2 buffer in
            let range = deserialize_range sub items (min count n) 0 in
            omega (
              arith,
              integer-done e 2 buffer d,
              used-add_used 2 range,
              range-in_bounds law (min count n) 0 items (omega arith),
              length-drop 2 buffer,
            ))

    deserialize_vector-IsVector :
        (n k : ℕ) (buffer : List ℕ) (vs : List A)
        → All IsByte buffer
        → deserialize_vector e sub n buffer ≡ done k vs
        → IsVector V n vs
    unfolding deserialize_vector
    deserialize_vector-IsVector n k buffer vs bs d =
        let (u, count, read, e1) = >>=-eq-done ((integer e 2).deserialize buffer) _ d in
        let (k', e2) = add_used-done 2 (deserialize_range sub (drop 2 buffer) (min count n) 0) e1 in
        let (size, each) =
          range_sound law (min count n) 0 k' (drop 2 buffer) vs (omega arith)
            (All-drop IsByte 2 buffer bs) e2 in
        (omega arith, each)

    -- If the items fulfil the contract of a converter before anything and the capacity is below
    -- 65536, the converter of a `static_vector` fulfils it for the lists of valid items of at most
    -- the capacity.
    pub vector-IsConverter :
        (n : ℕ) → n < 65536 → IsConverter (vector e sub n) (IsVector V n) Anything
    unfolding serialize_vector_at
    vector-IsConverter n hn = record {
      fits = λ vs h. omega (
        arith,
        range-fits law vs h.1,
        length-serialize_at e 2 (length vs),
        length-append ((integer e 2).serialize_at (length vs)) (serialize_range sub vs),
        mul-le-mul_left sub.max_size h.0,
      );
      bytes = λ vs h.
          All-append IsByte _ _ ((integer-IsConverter e 2).bytes (length vs) (omega arith))
            (range-bytes law vs h.1);
      round_trip = λ vs rest h _. vector-round_trip n vs rest hn h;
      in_bounds = vector-in_bounds n;
      sound = λ buffer k vs bs d. deserialize_vector-IsVector n k buffer vs bs d;
    }
