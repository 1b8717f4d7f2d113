-- ===== src/Protocol/Converter.antt =====
-- include/emlabcpp/protocol/converter.hpp, traits.hpp, base.hpp and error.hpp: what a converter is.
-- Each child models the specializations of `converter` for one kind of definition, as a function
-- from the converters of the parts.
pub mod Outcome
pub mod Integer
pub mod Range
pub mod Scalar
pub mod Framed
pub mod Tuple
pub mod Variant
pub mod Text
use emlabcpp.Prelude.{ℕ, ◌+◌, ◌≤◌, ◌≡◌, List, [], ◌++◌, length, All}
use emlabcpp.Protocol.Serializer.Bytes.{IsByte}

-- `mark`: the error marks of error.hpp
pub data Mark : Type 0 where
  size_err lowsize_err bigsize_err bounds_err undefvar_err badval_err group_err checksum_err : Mark

-- `conversion_result` with the value that `deserialize` writes through its reference. The number is
-- the field `used`. What a failed conversion leaves in the reference is not modelled: `handler`
-- drops it.
pub data Conversion (A : Type 0) : Type 0 where
  done : ℕ → A → Conversion A
  fail : ℕ → Mark → Conversion A

abbrev pub used : {A : Type 0} → Conversion A → ℕ
used (done n v) = n
used (fail n m) = n

-- `res.used += n`
abbrev pub add_used : {A : Type 0} → ℕ → Conversion A → Conversion A
add_used n (done u v) = done (u + n) v
add_used n (fail u m) = fail (u + n) m

abbrev pub map_value : {A B : Type 0} → (A → B) → Conversion A → Conversion B
map_value f (done u v) = done u (f v)
map_value f (fail u m) = fail u m

-- `if ( res.has_error() ) return res;` and what follows
infixl 5 ◌>>=◌
abbrev pub ◌>>=◌ : {A B : Type 0} → Conversion A → (ℕ × A → Conversion B) → Conversion B
done n v >>= f = f (n, v)
fail n m >>= f = fail n m

-- The members of `converter< D, E >` and `traits_for< D >`. `serialize_at` gives the bytes that it
-- writes at the start of its span; their number is the `size_type` that it returns.
pub record Converter (A : Type 0) : Type 0 where
  pub min_size : ℕ
  pub max_size : ℕ
  pub serialize_at : A → List ℕ
  pub deserialize : List ℕ → Conversion A

-- What may follow a value in the buffer: anything, or nothing.
abbrev pub Anything : List ℕ → Type 0
Anything rest = Unit {0}

abbrev pub Nothing : List ℕ → Type 0
Nothing rest = rest ≡ []

-- The contract of a converter for the values in `Valid`, before what `Rest` allows.
pub record IsConverter {A : Type 0} (c : Converter A) (Valid : A → Type 0) (Rest : List ℕ → Type 0)
    : Type 0 where
  pub fits :
      (v : A)
      → Valid v
      → (c.min_size ≤ length (c.serialize_at v)) × (length (c.serialize_at v) ≤ c.max_size)
  pub bytes : (v : A) → Valid v → All IsByte (c.serialize_at v)
  pub round_trip :
      (v : A) (rest : List ℕ)
      → Valid v
      → Rest rest
      → c.deserialize (c.serialize_at v ++ rest) ≡ done (length (c.serialize_at v)) v
  pub in_bounds : (buffer : List ℕ) → used (c.deserialize buffer) ≤ length buffer
  pub sound :
      (buffer : List ℕ) (n : ℕ) (v : A)
      → All IsByte buffer
      → c.deserialize buffer ≡ done n v
      → Valid v
