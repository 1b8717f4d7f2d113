-- ===== src/Pool/Laws.antt =====
-- pool_resource.hpp: what is allocated lies in a free pool, and no pool is given twice.
use native.Mathlib.Nat.{
  mod-eq_of_lt, add-mod_right, mul-add-div_right, div-eq_of_lt, div-mul-le_self, lt-div-mul-add,
  mul-le-mul_right,
}
use emlabcpp.Prelude.{
  ℕ, ◌+◌, ◌-◌, ◌*◌, ◌/◌, ◌%◌, ◌≤◌, ◌<◌, ◌≡◌, refl, sym, ap, ◌∙◌, arith, Bool, true, false, Option,
  none, some, List, [], ◌∷◌, ◌++◌, length, length-append, ltb, leb, ◌==◌, if◌then◌else◌, subst,
}
use emlabcpp.StaticVector.{Vector, push_back, pop_back, back, is_empty, take_back}
use emlabcpp.StaticVector.Refine.{Holds, push_back-Holds, take_back-Holds}
use emlabcpp.Pool.{align_addr, align, allocate, deallocate}

-- how often a pool is in a list
unfoldable pub occurs : ℕ → List ℕ → ℕ
occurs j [] = 0
occurs j (x ∷ xs) = (if x == j then 1 else 0) + occurs j xs

pub occurs-append : (j : ℕ) (xs ys : List ℕ) → occurs j (xs ++ ys) ≡ occurs j xs + occurs j ys
unfolding occurs
occurs-append j [] ys = omega arith
occurs-append j (x ∷ xs) ys = omega (arith, occurs-append j xs ys)

-- Each pool is free or in use, and only once; no other number is in the lists.
pub record IsPool (pool_count : ℕ) (free : Vector ℕ) (live : List ℕ) : Type 0 where
  pub indices : List ℕ
  pub free_at : Holds pool_count free indices
  pub total : length indices + length live ≡ pool_count
  pub once : (j : ℕ) → occurs j indices + occurs j live ≡ (if ltb j pool_count then 1 else 0)

last_of : (x : ℕ) (xs : List ℕ) → (init : List ℕ) × (i : ℕ) × (x ∷ xs ≡ init ++ (i ∷ []))
last_of x [] = ([], x, refl)
last_of x (y ∷ xs) = let (init, i, e) = last_of y xs in (x ∷ init, i, ap (λ (t : List ℕ). x ∷ t) e)

occurs_self : (i : ℕ) (xs : List ℕ) → 1 ≤ occurs i (xs ++ (i ∷ []))
occurs_self i xs = omega (arith, occurs-append i xs (i ∷ []), one)
  where
    one : occurs i (i ∷ []) ≡ 1
    one = unfold occurs in ground arith

-- an address whose round up does not pass the end of the addresses
align-bounds :
    (size_range ptr alignment : ℕ)
    → 0 < alignment
    → ptr + alignment ≤ size_range
    → (ptr ≤ align size_range ptr alignment) × (align size_range ptr alignment < ptr + alignment)
unfolding align align_addr
align-bounds size_range ptr alignment positive fits =
    let up = (ptr + (alignment - 1)) / alignment * alignment in
    let sum : (ptr + (alignment - 1)) % size_range ≡ ptr + (alignment - 1) =
      mod-eq_of_lt (omega arith) in
    let near : (ptr ≤ up) × (up < ptr + alignment) = omega (
      arith,
      div-mul-le_self (ptr + (alignment - 1)) alignment,
      lt-div-mul-add {a = ptr + (alignment - 1)} {b = alignment} positive,
    ) in
    let gap : (up + (size_range - ptr)) % size_range ≡ up - ptr =
      ap (λ (k : ℕ). k % size_range) {x = up + (size_range - ptr)} {y = up - ptr + size_range}
        (omega (arith, near))
      ∙ add-mod_right (up - ptr) size_range
      ∙ mod-eq_of_lt {n = up - ptr} {m = size_range} (omega (arith, near)) in
    let found : (ptr + (up - ptr)) % size_range ≡ up =
      mod-eq_of_lt {n = ptr + (up - ptr)} {m = size_range} (omega (arith, near))
      ∙ omega (arith, near) in
    rw (sum, gap, found) near

module _ (base pool_size pool_count size_range : ℕ) where
  abbrev used_of : ℕ → ℕ → ℕ → ℕ
  used_of bytes pool_p p = (bytes + (p + (size_range - pool_p)) % size_range) % size_range

  -- The sum of a request that is not too large does not wrap.
  used_plain :
      (bytes pool_p p alignment : ℕ)
      → pool_p ≤ p
      → p < pool_p + alignment
      → pool_p + alignment ≤ size_range
      → bytes + alignment ≤ size_range
      → used_of bytes pool_p p ≡ bytes + (p - pool_p)
  used_plain bytes pool_p p alignment above near fits small =
      let gap : (p + (size_range - pool_p)) % size_range ≡ p - pool_p =
        ap (λ (k : ℕ). k % size_range) {x = p + (size_range - pool_p)} {y = p - pool_p + size_range}
          (omega arith)
        ∙ add-mod_right (p - pool_p) size_range
        ∙ mod-eq_of_lt {n = p - pool_p} {m = size_range} (omega arith) in
      ap (λ (k : ℕ). (bytes + k) % size_range) gap
      ∙ mod-eq_of_lt {n = bytes + (p - pool_p)} {m = size_range} (omega arith)

  -- what the free pool at the back makes of a call
  allocate-back :
      (bytes alignment i : ℕ) (free : Vector ℕ) (xs : List ℕ) {p : ℕ} {free' : Vector ℕ}
      → Holds pool_count free (xs ++ (i ∷ []))
      → allocate base pool_size pool_count size_range bytes alignment free ≡ (some p, free')
      → (p ≡ align size_range (base + i * pool_size) alignment)
        × (used_of bytes (base + i * pool_size) p ≤ pool_size)
        × Holds pool_count free' xs
  allocate-back bytes alignment i free xs {p} {free'} h e =
      let last = take_back-Holds pool_count i free xs h in
      let got : back free ≡ some i = unfold take_back in last.0 in
      let popped : Holds pool_count (pop_back free) xs = unfold take_back in last.1 in
      let e0 = ap (λ (t : Option ℕ × Vector ℕ). t.0) e in
      let e1 = ap (λ (t : Option ℕ × Vector ℕ). t.1) e in
      let some_item : is_empty free ≡ false =
        unfold is_empty in ground (arith, h.size_at, length-append xs (i ∷ [])) in
      let steps : (p ≡ align size_range (base + i * pool_size) alignment)
          × (used_of bytes (base + i * pool_size) p ≤ pool_size)
          × (free' ≡ pop_back free) =
        unfold allocate in
        (
          ground (arith, got, some_item, e0),
          ground (arith, got, some_item, e0),
          ground (arith, got, some_item, e0, e1),
        ) in
      (steps.0, steps.1, subst (λ (v : Vector ℕ). Holds pool_count v xs) (sym steps.2) popped)

  allocate-none :
      (bytes alignment : ℕ) (free : Vector ℕ)
      → Holds pool_count free []
      → (allocate base pool_size pool_count size_range bytes alignment free).0 ≡ none
  allocate-none bytes alignment free h =
      let no_item : is_empty free ≡ true = unfold is_empty in ground (arith, h.size_at) in
      unfold allocate in ground (arith, no_item)

  -- the pool `i` becomes used
  use_last :
      (i : ℕ) (xs live : List ℕ) (free free' : Vector ℕ) (h : IsPool pool_count free live)
      → h.indices ≡ xs ++ (i ∷ [])
      → Holds pool_count free' xs
      → IsPool pool_count free' (i ∷ live)
  unfolding occurs
  use_last i xs live free free' h e held = record {
    indices = xs;
    free_at = held;
    total = omega (arith, h.total, ap (λ (t : List ℕ). length t) e, length-append xs (i ∷ []));
    once = λ j. omega (arith, h.once j, ap (occurs j) e, occurs-append j xs (i ∷ []));
  }

  -- A request that is answered takes a pool that was free, and lies in it.
  pub allocate-IsPool :
      (bytes alignment : ℕ) (free free' : Vector ℕ) (live : List ℕ) (p : ℕ)
      → 0 < alignment
      → base + pool_count * pool_size + alignment ≤ size_range
      → bytes + alignment ≤ size_range
      → IsPool pool_count free live
      → allocate base pool_size pool_count size_range bytes alignment free ≡ (some p, free')
      → (i : ℕ) × (i < pool_count)
        × (occurs i live ≡ 0)
        × (base + i * pool_size ≤ p)
        × (p + bytes ≤ base + i * pool_size + pool_size)
        × IsPool pool_count free' (i ∷ live)
  allocate-IsPool bytes alignment free free' live p positive fits small h e =
      by_indices h.indices refl
    where
      by_indices :
          (xs : List ℕ)
          → h.indices ≡ xs
          → (i : ℕ) × (i < pool_count)
            × (occurs i live ≡ 0)
            × (base + i * pool_size ≤ p)
            × (p + bytes ≤ base + i * pool_size + pool_size)
            × IsPool pool_count free' (i ∷ live)
      by_indices [] same =
          let empty = subst (Holds pool_count free) same h.free_at in
          let nothing = allocate-none bytes alignment free empty in
          let found = ap (λ (t : Option ℕ × Vector ℕ). t.0) e in absurd (cc (nothing, found))
      by_indices (x ∷ xs) same =
          let (init, i, split) = last_of x xs in
          let held = subst (Holds pool_count free) (same ∙ split) h.free_at in
          let (at_p, inside, held') = allocate-back bytes alignment i free init held e in
          let there : 1 ≤ occurs i h.indices =
            subst (λ (t : List ℕ). 1 ≤ occurs i t) (sym (same ∙ split)) (occurs_self i init) in
          let known : i < pool_count = ground (arith, h.once i, there) in
          let last : i * pool_size ≤ pool_count * pool_size =
            mul-le-mul_right pool_size (omega (arith, known)) in
          let pool_p = base + i * pool_size in
          let near =
            align-bounds size_range pool_p alignment positive (omega (arith, last, fits)) in
          let plain : used_of bytes pool_p p ≡ bytes + (p - pool_p) =
            used_plain bytes pool_p p alignment (omega (arith, at_p, near))
              (omega (arith, at_p, near)) (omega (arith, last, fits)) small in
          (
            i,
            known,
            ground (arith, h.once i, there),
            omega (arith, at_p, near),
            omega (arith, at_p, near, inside, plain),
            use_last i init live free free' h (same ∙ split) held',
          )

  spot_of :
      (i ptr : ℕ)
      → 0 < pool_size
      → base + i * pool_size ≤ ptr
      → ptr < base + i * pool_size + pool_size
      → ptr < size_range
      → base ≤ size_range
      → (ptr + (size_range - base)) % size_range / pool_size ≡ i
  spot_of i ptr positive above below small fits =
      let back_to : (ptr + (size_range - base)) % size_range ≡ ptr - base =
        ap (λ (k : ℕ). k % size_range) {x = ptr + (size_range - base)} {y = ptr - base + size_range}
          (omega arith)
        ∙ add-mod_right (ptr - base) size_range
        ∙ mod-eq_of_lt {n = ptr - base} {m = size_range} (omega arith) in
      ap (λ (k : ℕ). k / pool_size) (back_to ∙ split)
      ∙ mul-add-div_right positive i (ptr - base - i * pool_size)
      ∙ ap (λ (k : ℕ). i + k)
          (div-eq_of_lt {n = ptr - base - i * pool_size} {m = pool_size} (omega arith))
      ∙ omega arith
    where
      split : ptr - base ≡ i * pool_size + (ptr - base - i * pool_size)
      split = omega (arith, above)

  -- What lies in a pool that is in use is taken back as that pool.
  pub deallocate-IsPool :
      (i ptr : ℕ) (free : Vector ℕ) (before after : List ℕ)
      → 0 < pool_size
      → pool_count ≤ 65536
      → base ≤ size_range
      → ptr < size_range
      → i < pool_count
      → base + i * pool_size ≤ ptr
      → ptr < base + i * pool_size + pool_size
      → IsPool pool_count free (before ++ (i ∷ after))
      → ((deallocate base pool_size pool_count size_range ptr free).0 ≡ true)
        × IsPool pool_count
            (deallocate base pool_size pool_count size_range ptr free).1
            (before ++ after)
  unfolding occurs
  deallocate-IsPool i ptr free before after positive narrow fits small inside above below h =
      let spot = spot_of i ptr positive above below small fits in
      let test : leb pool_count i ≡ false = ground arith in
      let cast : i % 65536 ≡ i = omega arith in
      let done : deallocate base pool_size pool_count size_range ptr free
          ≡ (true, push_back i free) =
        unfold deallocate in rw (spot, test, cast) refl in
      let split = length-append before (i ∷ after) in
      let pushed =
        push_back-Holds pool_count i free h.indices (omega (arith, h.total, split)) h.free_at in
      let kept : IsPool pool_count (push_back i free) (before ++ after) = record {
        indices = h.indices ++ (i ∷ []);
        free_at = pushed;
        total =
            omega
              (arith, h.total, split, length-append before after, length-append h.indices (i ∷ []));
        once = λ j. omega (
          arith,
          h.once j,
          occurs-append j h.indices (i ∷ []),
          occurs-append j before (i ∷ after),
          occurs-append j before after,
        );
      } in
      (
        ap (λ (t : Bool × Vector ℕ). t.0) done,
        subst (λ (t : Bool × Vector ℕ). IsPool pool_count t.1 (before ++ after)) (sym done) kept,
      )
