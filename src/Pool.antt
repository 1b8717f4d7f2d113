-- ===== src/Pool.antt =====
-- include/emlabcpp/pmr/pool_resource.hpp and util.hpp: blocks of one size, of which the free ones are
-- in a static_vector. An address is a number. `base` is the address of the pools, `size_range` the
-- number of values of `std::size_t` and `std::uintptr_t`, in which sums and differences wrap.
pub mod Laws
pub mod Start
pub mod Blocks
mod Tests
use emlabcpp.Prelude.{
  ℕ, zero, suc, ◌+◌, ◌-◌, ◌*◌, ◌/◌, ◌%◌, Bool, true, false, Option, none, some, List, ltb, leb,
  if◌then◌else◌,
}
use emlabcpp.StaticVector.{Vector, new, push_back, pop_back, back, is_empty}

-- For an alignment that is a power of two, as it has to be, the mask is a division without rest.
unfoldable pub align_addr : ℕ → ℕ → ℕ → ℕ
align_addr size_range addr alignment = (addr + (alignment - 1)) % size_range / alignment * alignment

unfoldable pub align : ℕ → ℕ → ℕ → ℕ
unfolding align_addr
align size_range ptr alignment =
    (ptr + (align_addr size_range ptr alignment + (size_range - ptr)) % size_range) % size_range

-- The loop of the constructor, with `n` pools left from pool `i` on.
unfoldable pub fill_loop : ℕ → ℕ → Vector ℕ → Vector ℕ
unfolding push_back
fill_loop zero i free = free
fill_loop (suc n) i free = fill_loop n (i + 1) (push_back (i % 65536) free)

unfoldable pub pool_resource : ℕ → Vector ℕ
unfolding fill_loop new
pool_resource pool_count = fill_loop pool_count 0 (new pool_count)

module _ (base pool_size pool_count size_range : ℕ) where
  -- the address, or none for a null pointer, and the free pools after the call
  unfoldable pub allocate : ℕ → ℕ → Vector ℕ → Option ℕ × Vector ℕ
  allocate bytes alignment free = if is_empty free then (none, free) else elim (back free) [
    | none ↦ (none, free)
    | some i ↦
        let pool_p = base + i * pool_size in
        let p = align size_range pool_p alignment in
        let used = (bytes + (p + (size_range - pool_p)) % size_range) % size_range in
        if ltb pool_size used then (none, free) else (some p, pop_back free)
  ]

  unfoldable pub deallocate : ℕ → Vector ℕ → Bool × Vector ℕ
  deallocate ptr free =
      let spot_i = (ptr + (size_range - base)) % size_range / pool_size in
      if leb pool_count spot_i then (false, free) else (true, push_back (spot_i % 65536) free)
