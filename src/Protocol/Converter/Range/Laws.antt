-- ===== src/Protocol/Converter/Range/Laws.antt =====
-- converter.hpp: `serialize_range` and `deserialize_range`, clause by clause of the contract.
use emlabcpp.Prelude.{
  ℕ, zero, suc, ◌+◌, ◌*◌, ◌≤◌, ◌≡◌, refl, sym, ap, ◌∙◌, arith, List, [], ◌∷◌, ◌++◌, append_assoc,
  length, length-append, length-drop, drop, drop-drop, drop-append, All, All-append, All-drop,
  le→ltb, inl, inr,
}
use emlabcpp.Protocol.Serializer.Bytes.{IsByte}
use emlabcpp.Protocol.Converter.{
  Mark, done, fail, used, map_value, Converter, IsConverter, Anything,
}
use emlabcpp.Protocol.Converter.Outcome.{
  Conversion-cases, done-injective, map_value-done, used-map_value,
}
use emlabcpp.Protocol.Converter.Range.{serialize_range, deserialize_range}

module _ {A : Type 0} (sub : Converter A) (buffer : List ℕ) (k offset : ℕ) where
  range_next :
      {u : ℕ} {v : A}
      → offset ≤ length buffer
      → sub.deserialize (drop offset buffer) ≡ done u v
      → deserialize_range sub buffer (suc k) offset
        ≡ map_value (λ vs. v ∷ vs) (deserialize_range sub buffer k (offset + u))
  unfolding deserialize_range
  range_next h e = rw (le→ltb (length buffer) offset h, deserialize_range, e)

  range_stop :
      {u : ℕ} {m : Mark}
      → offset ≤ length buffer
      → sub.deserialize (drop offset buffer) ≡ fail u m
      → deserialize_range sub buffer (suc k) offset ≡ fail (u + offset) m
  unfolding deserialize_range
  range_stop h e = ground arith

module _ {A : Type 0} {sub : Converter A} {V : A → Type 0} (law : IsConverter sub V Anything) where
  pub range-fits :
      (vs : List A)
      → All V vs
      → (sub.min_size * length vs ≤ length (serialize_range sub vs))
        × (length (serialize_range sub vs) ≤ sub.max_size * length vs)
  unfolding serialize_range
  range-fits [] h = omega arith
  range-fits (v ∷ vs) h = omega (
    arith,
    law.fits v h.0,
    range-fits vs h.1,
    length-append (sub.serialize_at v) (serialize_range sub vs),
  )

  pub range-bytes : (vs : List A) → All V vs → All IsByte (serialize_range sub vs)
  unfolding serialize_range
  range-bytes [] h = tt
  range-bytes (v ∷ vs) h = All-append IsByte _ _ (law.bytes v h.0) (range-bytes vs h.1)

  pub range-round_trip :
      (vs : List A) (rest buffer : List ℕ) (offset : ℕ)
      → offset ≤ length buffer
      → drop offset buffer ≡ serialize_range sub vs ++ rest
      → All V vs
      → deserialize_range sub buffer (length vs) offset
        ≡ done (offset + length (serialize_range sub vs)) vs
  unfolding serialize_range deserialize_range
  range-round_trip [] rest buffer offset here e h = ap (λ n. done n []) (omega arith)
  range-round_trip (v ∷ vs) rest buffer offset here e h =
      let front = sub.serialize_at v in
      let later = serialize_range sub vs in
      let e' : drop offset buffer ≡ front ++ (later ++ rest) = e ∙ append_assoc front later rest in
      let size : length buffer ≡ offset + (length front + length (later ++ rest)) =
        omega
          (arith, length-drop offset buffer, ap length e', length-append front (later ++ rest)) in
      let there : drop (offset + length front) buffer ≡ later ++ rest =
        sym (drop-drop offset (length front) buffer)
        ∙ ap (drop (length front)) e'
        ∙ drop-append front (later ++ rest) in
      range_next sub buffer (length vs) offset here
        (ap sub.deserialize e' ∙ law.round_trip v (later ++ rest) h.0 tt)
      ∙ ap (map_value (λ ws. v ∷ ws))
          (range-round_trip vs rest buffer (offset + length front) (omega arith) there h.1)
      ∙ ap (λ n. done n (v ∷ vs)) (omega (arith, length-append front later))

  pub range-in_bounds :
      (k offset : ℕ) (buffer : List ℕ)
      → offset ≤ length buffer
      → used (deserialize_range sub buffer k offset) ≤ length buffer
  unfolding deserialize_range
  range-in_bounds zero offset buffer h = h
  range-in_bounds (suc k) offset buffer h =
      let here = drop offset buffer in
      let bound = law.in_bounds here in
      elim (Conversion-cases (sub.deserialize here)) [
        | inl (u, v, e) ↦
            let u_le : u ≤ length here = rw e at bound in
            rw (range_next sub buffer k offset h e, used-map_value)
              (range-in_bounds k (offset + u) buffer (omega (arith, length-drop offset buffer)))
        | inr (u, m, e) ↦
            let u_le : u ≤ length here = rw e at bound in
            rw (range_stop sub buffer k offset h e) (omega (arith, length-drop offset buffer))
      ]

  pub range_sound :
      (k offset n : ℕ) (buffer : List ℕ) (vs : List A)
      → offset ≤ length buffer
      → All IsByte buffer
      → deserialize_range sub buffer k offset ≡ done n vs
      → (length vs ≡ k) × All V vs
  unfolding deserialize_range
  range_sound zero offset n buffer vs h bs e = rw (← done-injective e) (refl, tt)
  range_sound (suc k) offset n buffer vs h bs e =
      let here = drop offset buffer in
      let bound = law.in_bounds here in
      elim (Conversion-cases (sub.deserialize here)) [
        | inl (u, v, d) ↦
            let u_le : u ≤ length here = rw d at bound in
            let (ws, r, c) =
              map_value-done (λ ws. v ∷ ws) (deserialize_range sub buffer k (offset + u))
                (sym (range_next sub buffer k offset h d) ∙ e) in
            let ih =
              range_sound k (offset + u) n buffer ws (omega (arith, length-drop offset buffer)) bs
                r in
            rw (← c) (ap suc ih.0, (law.sound here u v (All-drop IsByte offset buffer bs) d, ih.1))
        | inr (u, m, d) ↦ cc (range_stop sub buffer k offset h d)
      ]
