-- ===== src/Cfg/Store/Bounds.antt =====
-- handler.hpp: addresses only go down while cells are read.
use emlabcpp.Prelude.{
  length, length-append, length-take, length-drop, take, drop, ◌++◌, ℕ, zero, suc, ◌+◌, ◌≤◌, ◌≡◌,
  arith, Bool, true, false, Option, List,
}
use emlabcpp.Protocol.Serializer.{Endian}
use emlabcpp.Cfg.{World, Exit, returns, undefined, unfinished}
use emlabcpp.Cfg.Cell.{DeserRes}
use emlabcpp.Cfg.Store.{copy_to, decr_addr, manifest_loop, manifest_value}

unfoldable pub ends : {A : Type 0} → Exit A → Bool
ends (returns r) = true
ends undefined = true
ends unfinished = false

unfoldable pub returned : {A : Type 0} → Exit A → Bool
returned (returns r) = true
returned undefined = false
returned unfinished = false

pub decr_addr_le : (addr n start_addr : ℕ) → (decr_addr addr n start_addr).1 ≤ addr
unfolding decr_addr
decr_addr_le addr n start_addr = ground arith

pub decr_addr_lt :
    (addr start_addr : ℕ)
    → (decr_addr addr 1 start_addr).0 ≡ true
    → (decr_addr addr 1 start_addr).1 + 8 ≡ addr
unfolding decr_addr
decr_addr_lt addr start_addr h = ground (arith, h)

module _ {S : Type 0} (read : ℕ → S → Option (List ℕ) × S) where
  manifest_loop_le :
      (n cell_val start_addr addr : ℕ) (w : World S)
      → (manifest_loop read n cell_val start_addr addr w).addr ≤ addr
  unfolding manifest_loop
  manifest_loop_le zero cell_val start_addr addr w = omega arith
  manifest_loop_le (suc n) cell_val start_addr addr w =
      grind (arith, manifest_loop_le n cell_val start_addr, decr_addr_le)

  pub manifest_value_le :
      (e : Endian) (c : DeserRes) (start_addr addr : ℕ) (w : World S)
      → (manifest_value read e c start_addr addr w).addr ≤ addr
  unfolding manifest_value
  manifest_value_le e c start_addr addr w =
      ground (arith, manifest_loop_le c.val c.val start_addr addr w)

pub length-copy_to :
    (buffer : List ℕ) (offset : ℕ) (bytes : List ℕ)
    → offset + length bytes ≤ length buffer
    → length (copy_to buffer offset bytes) ≡ length buffer
length-copy_to buffer offset bytes fits = omega (
  arith,
  length-append (take offset buffer) (bytes ++ drop (offset + length bytes) buffer),
  length-append bytes (drop (offset + length bytes) buffer),
  length-take offset buffer,
  length-drop (offset + length bytes) buffer,
)
