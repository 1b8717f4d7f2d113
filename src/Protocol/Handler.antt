-- ===== src/Protocol/Handler.antt =====
-- include/emlabcpp/protocol/handler.hpp: a value to a message and back, with a record for errors.
use emlabcpp.Prelude.{
  ℕ, ◌≤◌, ◌≡◌, sym, ap, ◌∙◌, List, [], ◌++◌, append-nil, length, All, inl, inr, replicate, take,
  drop, take-append,
}
use emlabcpp.Protocol.Serializer.Bytes.{IsByte}
use emlabcpp.Protocol.Converter.{Mark, done, fail, Converter, IsConverter}
use emlabcpp.Protocol.Converter.Outcome.{Conversion-cases}

-- `error_record`
pub record ErrorRecord : Type 0 where
  pub error_mark : Mark
  pub offset : ℕ

-- `std::variant< value_type, error_record >`
pub data Extracted (A : Type 0) : Type 0 where
  value : A → Extracted A
  error : ErrorRecord → Extracted A

module _ {A : Type 0} (def : Converter A) where
  -- The converter writes over the start of a message of `max_size` zeros, which is then resized to
  -- what was used of it. The assertion that this is at most `max_size` is a bound of the type of
  -- the number, and of the contract of a converter.
  unfoldable pub serialize : A → List ℕ
  serialize val =
      let written = def.serialize_at val in
      let used = length written in
      let res = written ++ drop used (replicate def.max_size 0) in take used res

  unfoldable pub extract : List ℕ → Extracted A
  extract msg = elim (def.deserialize msg) [
    | fail u m ↦ error (record { error_mark = m; offset = u })
    | done u val ↦ value val
  ]

  -- The message is what the converter writes.
  pub serialize-serialize_at : (val : A) → serialize val ≡ def.serialize_at val
  unfolding serialize
  serialize-serialize_at val =
      take-append (def.serialize_at val)
        (drop (length (def.serialize_at val)) (replicate def.max_size 0))

abbrev pub IsExtracted : {A : Type 0} → (A → Type 0) → List ℕ → Extracted A → Type 0
IsExtracted V msg (value val) = V val
IsExtracted V msg (error rec) = rec.offset ≤ length msg

module _ {A : Type 0} {def : Converter A} {V : A → Type 0} {R : List ℕ → Type 0}
    (law : IsConverter def V R) where
  -- For a converter that fulfils its contract, the message of a valid value has a size between the
  -- minimum and the maximum of its definition, holds bytes only, and is extracted to that value.
  pub extract-serialize :
      (val : A)
      → V val
      → R []
      → (def.min_size ≤ length (serialize def val))
        × (length (serialize def val) ≤ def.max_size)
        × All IsByte (serialize def val)
        × (extract def (serialize def val) ≡ value val)
  unfolding extract
  extract-serialize val h r =
      let msg = def.serialize_at val in
      let read : def.deserialize msg ≡ done (length msg) val =
        ap def.deserialize (sym (append-nil msg)) ∙ law.round_trip val [] h r in
      rw (serialize-serialize_at def val)
        ((law.fits val h).0, (law.fits val h).1, law.bytes val h, rw (read, extract))

  -- For a converter that fulfils its contract, extraction from any message of bytes gives a value
  -- that is valid for the definition, or an error whose offset does not pass the end of the
  -- message.
  pub extract-IsExtracted : (msg : List ℕ) → All IsByte msg → IsExtracted V msg (extract def msg)
  unfolding extract
  extract-IsExtracted msg bs = elim (Conversion-cases (def.deserialize msg)) [
    | inl (u, val, d) ↦ rw (d, IsExtracted) (law.sound msg u val bs d)
    | inr (u, m, d) ↦ rw (d, IsExtracted) (rw d at (law.in_bounds msg))
  ]
