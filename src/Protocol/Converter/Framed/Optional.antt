-- ===== src/Protocol/Converter/Framed/Optional.antt =====
-- converter.hpp: the converter of `std::optional`, on what it wrote.
use emlabcpp.Prelude.{
  ℕ, ◌≤◌, ◌≡◌, sym, ap, ◌∙◌, arith, List, [], ◌∷◌, ◌++◌, append-nil, append_assoc, length,
  length-append, take, drop, take-append, drop-append, Option, none, some, ◌==◌, if◌then◌else◌,
}
use emlabcpp.Protocol.Serializer.{Endian}
use emlabcpp.Protocol.Converter.{done, add_used, map_value, Converter, IsConverter, Anything}
use emlabcpp.Protocol.Converter.Integer.{integer, integer-IsConverter, length-serialize_at}
use emlabcpp.Protocol.Converter.Scalar.{bounded}
use emlabcpp.Protocol.Converter.Scalar.Laws.{bounded-IsConverter}
use emlabcpp.Protocol.Converter.Framed.{serialize_optional_at, deserialize_optional, optional}

abbrev pub IsOptional : {A : Type 0} → (A → Type 0) → Option A → Type 0
IsOptional V none = Unit {0}
IsOptional V (some val) = V val

-- what a reference that held `initial` holds after the value was read into it
abbrev pub kept : {A : Type 0} → Option A → Option A → Option A
kept initial none = initial
kept initial (some val) = some val

module _ (e : Endian) (past : ℕ) where
  presence : ℕ → List ℕ
  presence = (bounded 0 1 (integer e 1)).serialize_at

  length-presence : (p : ℕ) → length (presence p) ≡ 1
  unfolding presence
  length-presence p = length-serialize_at e 1 p

  -- the presence byte is found where it was written
  presence_read :
      (p : ℕ) (tail : List ℕ)
      → p ≤ 1
      → (bounded 0 1 (integer e 1)).deserialize (take 1 ((presence p ++ tail) ++ (past ∷ [])))
        ≡ done 1 p
  unfolding presence
  presence_read p tail h =
      let byte = (integer e 1).serialize_at p in
      let wide : length byte ≡ 1 = length-serialize_at e 1 p in
      let front : take 1 (byte ++ (tail ++ (past ∷ []))) ≡ byte =
        (rw wide at (take-append byte (tail ++ (past ∷ [])))) in
      let law = bounded-IsConverter 0 1 (integer-IsConverter e 1) in
      ap (bounded 0 1 (integer e 1)).deserialize
        (ap (take 1) (append_assoc byte tail (past ∷ [])) ∙ front ∙ sym (append-nil byte))
      ∙ law.round_trip p [] (omega arith, omega arith, h) tt
      ∙ ap (λ n. done n p) wide

  module _ {A : Type 0} (sub : Converter A) (initial : Option A) where
    optional_read :
        (p : ℕ) (tail : List ℕ)
        → p ≤ 1
        → deserialize_optional e past sub initial (presence p ++ tail)
          ≡ (if p == 0 then done 1 initial else add_used 1 (map_value some (sub.deserialize tail)))
    unfolding deserialize_optional
    optional_read p tail h =
        let wide = length-presence p in
        let inner : drop 1 (presence p ++ tail) ≡ tail =
          (rw wide at (drop-append (presence p) tail)) in
        rw (presence_read p tail h, inner)

  module _ {A : Type 0} {sub : Converter A} {V : A → Type 0}
      (law : IsConverter sub V Anything) where
    -- If the inner converter fulfils the contract before anything, a value that was written as
    -- present is read back, whatever the reference held and whatever follows it in the message; of
    -- an absent one the byte is read, but the reference keeps what it held.
    pub optional-kept :
        (initial v : Option A) (rest : List ℕ)
        → IsOptional V v
        → (optional e past sub initial).deserialize
            ((optional e past sub initial).serialize_at v ++ rest)
          ≡ done (length ((optional e past sub initial).serialize_at v)) (kept initial v)
    unfolding serialize_optional_at presence
    optional-kept initial none rest h =
        optional_read sub initial 0 rest (omega arith)
        ∙ ap (λ n. done n initial) (sym (length-presence 0))
    optional-kept initial (some val) rest h =
        let content = sub.serialize_at val in
        ap (deserialize_optional e past sub initial) (append_assoc (presence 1) content rest)
        ∙ optional_read sub initial 1 (content ++ rest) (omega arith)
        ∙ ap (λ r. add_used 1 (map_value some r)) (law.round_trip val rest h tt)
        ∙ ap (λ n. done n (some val))
            (omega (arith, length-append (presence 1) content, length-presence 1))
