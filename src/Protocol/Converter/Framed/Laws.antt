-- ===== src/Protocol/Converter/Framed/Laws.antt =====
-- converter.hpp: the contract for `sized_buffer`, `message` and `sizeless_message`. A sized buffer
-- asks less of its content than its own contract: the content may take all that is left.
use emlabcpp.Prelude.{
  ℕ, ◌+◌, ◌%◌, ◌^◌, ◌≤◌, ◌<◌, ◌≡◌, refl, sym, ap, ◌∙◌, arith, List, [], ◌++◌, append-nil,
  append_assoc, length, length-append, length-take, length-drop, take, drop, take-append,
  drop-append, All, All-append, All-take, All-drop, ltb, ltb→le, le→ltb,
}
use emlabcpp.Protocol.Serializer.{Endian}
use emlabcpp.Protocol.Serializer.Bytes.{IsByte}
use emlabcpp.Protocol.Converter.{
  Conversion, done, used, add_used, Converter, IsConverter, Anything, Nothing,
}
use emlabcpp.Protocol.Converter.Outcome.{
  >>=-eq-done, used->>=, done-injective, add_used-done, used-add_used, guard_passed,
}
use emlabcpp.Protocol.Converter.Integer.{
  integer, integer-IsConverter, length-serialize_at, integer-done,
}
use emlabcpp.Protocol.Converter.Framed.{
  serialize_sized_at, deserialize_sized, sized_buffer, serialize_message_at, deserialize_message,
  message, deserialize_sizeless, sizeless_message,
}
use native.Mathlib.Nat.{mod-lt, mod-eq_of_lt}

module _ (e : Endian) (w : ℕ) {A : Type 0} {sub : Converter A} {V : A → Type 0}
    (law : IsConverter sub V Nothing) where
  -- the frame: counter, content, and what follows
  sized_read :
      (content rest : List ℕ) (r : Conversion A)
      → length content < 256 ^ w
      → sub.deserialize content ≡ r
      → deserialize_sized e w sub
          ((integer e w).serialize_at (length content % 256 ^ w) ++ (content ++ rest))
        ≡ add_used w r
  unfolding deserialize_sized
  sized_read content rest r h d =
      let counter = (integer e w).serialize_at (length content) in
      let buffer = counter ++ (content ++ rest) in
      let wide : length counter ≡ w = length-serialize_at e w (length content) in
      let read = (integer-IsConverter e w).round_trip (length content) (content ++ rest) h tt in
      let inner : take (length content) (drop w buffer) ≡ content =
        ap (take (length content)) (rw wide at (drop-append counter (content ++ rest)))
        ∙ take-append content rest in
      let enough : w + length content ≤ length buffer =
        omega (arith, length-append counter (content ++ rest), length-append content rest) in
      rw (mod-eq_of_lt h, read, wide, le→ltb (length buffer) (w + length content) enough, inner, d)

  sized-in_bounds : (buffer : List ℕ) → used (deserialize_sized e w sub buffer) ≤ length buffer
  unfolding deserialize_sized
  sized-in_bounds buffer =
      used->>= ((integer e w).deserialize buffer) _ ((integer-IsConverter e w).in_bounds buffer)
        (λ u size d.
          let inner = take size (drop w buffer) in
          ground (
            arith,
            integer-done e w buffer d,
            used-add_used u (sub.deserialize inner),
            law.in_bounds inner,
            length-take size (drop w buffer),
            length-drop w buffer,
          ))

  sized_sound :
      (buffer : List ℕ) (n : ℕ) (v : A)
      → All IsByte buffer
      → deserialize_sized e w sub buffer ≡ done n v
      → V v
  unfolding deserialize_sized
  sized_sound buffer n v bs h =
      let (u, size, d, c) = >>=-eq-done ((integer e w).deserialize buffer) _ h in
      let inner = take size (drop w buffer) in
      let (_, c') =
        guard_passed (ltb (length buffer) (u + size)) _ _ (add_used u (sub.deserialize inner)) c in
      let (k, read) = add_used-done u (sub.deserialize inner) c' in
      law.sound inner k v (All-take IsByte size _ (All-drop IsByte w buffer bs)) read

  -- If the content fulfils the contract of a converter with nothing behind it and the counter of
  -- `w` bytes can hold its greatest size, the converter of the sized buffer fulfils it before
  -- anything.
  pub sized-IsConverter : sub.max_size < 256 ^ w → IsConverter (sized_buffer e w sub) V Anything
  unfolding serialize_sized_at
  sized-IsConverter hw =
      let size : A → ℕ = λ v. length (sub.serialize_at v) in
      let small : (v : A) → V v → size v < 256 ^ w = λ v h. omega (arith, law.fits v h) in
      let head : A → List ℕ = λ v. (integer e w).serialize_at (size v % 256 ^ w) in
      let total : (v : A) → length (head v ++ sub.serialize_at v) ≡ w + size v = λ v. omega (
        arith,
        length-append (head v) (sub.serialize_at v),
        length-serialize_at e w (size v % 256 ^ w),
      ) in
      record {
        fits = λ v h. omega (arith, total v, law.fits v h);
        bytes = λ v h.
            All-append IsByte (head v) _
              ((integer-IsConverter e w).bytes (size v % 256 ^ w)
                (mod-lt _ (omega (arith, small v h))))
              (law.bytes v h);
        round_trip = λ v rest h _.
            ap (deserialize_sized e w sub) (append_assoc (head v) (sub.serialize_at v) rest)
            ∙ sized_read (sub.serialize_at v) rest (done (size v) v) (small v h) (
                ap sub.deserialize (sym (append-nil (sub.serialize_at v)))
                ∙ law.round_trip v [] h refl)
            ∙ ap (λ n. done n v) (omega (arith, total v));
        in_bounds = sized-in_bounds;
        sound = sized_sound;
      }

-- A message of at most `n` bytes
abbrev pub IsMessage : ℕ → List ℕ → Type 0
IsMessage n msg = (length msg ≤ n) × All IsByte msg

-- The converter of a sizeless message fulfils the contract of a converter for the messages of at
-- most `n` bytes, if nothing stands behind the message.
pub sizeless-IsConverter : (n : ℕ) → IsConverter (sizeless_message n) (IsMessage n) Nothing
unfolding deserialize_sizeless
sizeless-IsConverter n = record {
  fits = λ v h. omega arith;
  bytes = λ v h. h.1;
  round_trip = λ v rest h r. rw (r, append-nil, le→ltb n (length v) h.0);
  in_bounds = λ buffer. ground arith;
  sound = λ buffer k v bs h.
      let (small, d) = guard_passed (ltb n (length buffer)) _ _ (done (length buffer) buffer) h in
      rw (← done-injective d) (ltb→le n (length buffer) small, bs);
}

module _ (e : Endian) (n : ℕ) where
  message_round_trip :
      (msg rest : List ℕ)
      → n < 65536
      → IsMessage n msg
      → deserialize_message e n (serialize_message_at e n msg ++ rest)
        ≡ done (length (serialize_message_at e n msg)) msg
  unfolding deserialize_message serialize_message_at
  message_round_trip msg rest hn h =
      let small : length msg < 65536 = omega arith in
      let counter = (integer e 2).serialize_at (length msg) in
      let buffer = counter ++ (msg ++ rest) in
      let wide : length counter ≡ 2 = length-serialize_at e 2 (length msg) in
      let read = (integer-IsConverter e 2).round_trip (length msg) (msg ++ rest) small tt in
      let inner : take (length msg) (drop 2 buffer) ≡ msg =
        ap (take (length msg)) (rw wide at (drop-append counter (msg ++ rest)))
        ∙ take-append msg rest in
      let enough : 2 + length msg ≤ length buffer =
        omega (arith, length-append counter (msg ++ rest), length-append msg rest) in
      rw
        (
          mod-eq_of_lt {n = length msg} {m = 65536} small,
          append_assoc,
          read,
          wide,
          le→ltb (length buffer) (2 + length msg) enough,
          le→ltb n (length msg) h.0,
          inner,
        )
        (ap (λ k. done k msg) (omega (arith, length-append counter msg)))

  message_sound :
      (buffer : List ℕ) (k : ℕ) (msg : List ℕ)
      → All IsByte buffer
      → deserialize_message e n buffer ≡ done k msg
      → IsMessage n msg
  unfolding deserialize_message
  message_sound buffer k msg bs h =
      let (u, size, d, c) = >>=-eq-done ((integer e 2).deserialize buffer) _ h in
      let inner = take size (drop u buffer) in
      let (_, c1) = guard_passed (ltb (length buffer) (u + size)) _ _ _ c in
      let (small, c2) = guard_passed (ltb n size) _ _ (done (u + size) inner) c1 in
      rw (← done-injective c2) (
        omega (arith, length-take size (drop u buffer), ltb→le n size small),
        All-take IsByte size _ (All-drop IsByte u buffer bs),
      )

  message_in_bounds : (buffer : List ℕ) → used (deserialize_message e n buffer) ≤ length buffer
  unfolding deserialize_message
  message_in_bounds buffer =
      used->>= ((integer e 2).deserialize buffer) _ ((integer-IsConverter e 2).in_bounds buffer)
        (λ u size d. ground (arith, integer-done e 2 buffer d))

  -- If the capacity `n` is below 65536, the converter of a message fulfils the contract before
  -- anything, for the messages of at most `n` bytes.
  pub message-IsConverter : n < 65536 → IsConverter (message e n) (IsMessage n) Anything
  unfolding serialize_message_at
  message-IsConverter hn = record {
    fits = λ v h. omega (
      arith,
      length-append ((integer e 2).serialize_at (length v % 256 ^ 2)) v,
      length-serialize_at e 2 (length v % 256 ^ 2),
    );
    bytes = λ v h.
        All-append IsByte _ v ((integer-IsConverter e 2).bytes (length v % 256 ^ 2) (omega arith))
          h.1;
    round_trip = λ v rest h _. message_round_trip v rest hn h;
    in_bounds = message_in_bounds;
    sound = message_sound;
  }
