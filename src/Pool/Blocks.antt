-- ===== src/Pool/Blocks.antt =====
-- pool_resource.hpp: the blocks that are in use after any calls of the resource.
use native.Mathlib.Nat.{mul-add-div_right, div-eq_of_lt, mul-le-mul_right}
use emlabcpp.Prelude.{
  ℕ, ◌+◌, ◌-◌, ◌*◌, ◌/◌, ◌≤◌, ◌<◌, ◌≡◌, ◌≢◌, refl, sym, ap, ◌∙◌, arith, true, some, List, [], ◌∷◌,
  ◌++◌, map, All, subst, ◌⊎◌, inl, inr,
}
use emlabcpp.StaticVector.{Vector}
use emlabcpp.Pool.{allocate, deallocate, pool_resource}
use emlabcpp.Pool.Start.{pool_resource-IsPool}
use emlabcpp.Pool.Laws.{occurs, IsPool, allocate-IsPool, deallocate-IsPool}

-- what a caller has: an address and a number of bytes
pub record Block : Type 0 where
  pub ptr : ℕ
  pub bytes : ℕ

-- Two blocks share no byte.
abbrev pub Apart : Block → Block → Type 0
Apart x y = (x.ptr + x.bytes ≤ y.ptr) ⊎ (y.ptr + y.bytes ≤ x.ptr)

abbrev pub AllApart : List Block → Type 0
AllApart [] = Unit {0}
AllApart (x ∷ xs) = All (Apart x) xs × AllApart xs

All-without {ℓ κ} :
    {A : Type ℓ} (P : A → Type κ) (xs : List A) (y : A) (ys : List A)
    → All P (xs ++ (y ∷ ys))
    → P y × All P (xs ++ ys)
All-without P [] y ys h = (h.0, h.1)
All-without P (x ∷ xs) y ys h = let rest = All-without P xs y ys h.1 in (rest.0, (h.0, rest.1))

AllApart-without :
    (xs : List Block) (y : Block) (ys : List Block)
    → AllApart (xs ++ (y ∷ ys))
    → AllApart (xs ++ ys)
AllApart-without [] y ys h = h.1
AllApart-without (x ∷ xs) y ys h =
    ((All-without (Apart x) xs y ys h.0).1, AllApart-without xs y ys h.1)

map-append {ℓ κ} :
    {A : Type ℓ} {B : Type κ} (f : A → B) (xs ys : List A) → map f (xs ++ ys) ≡ map f xs ++ map f ys
map-append f [] ys = refl
map-append f (x ∷ xs) ys = ap (λ t. f x ∷ t) (map-append f xs ys)

lt_or_le : (m n : ℕ) → (m < n) ⊎ (n ≤ m)
lt_or_le m n = grind arith

module _ (base pool_size pool_count size_range : ℕ) where
  -- the pool in which a block starts
  abbrev pool_of : Block → ℕ
  pool_of x = (x.ptr - base) / pool_size

  pool_at :
      (i ptr : ℕ)
      → 0 < pool_size
      → base + i * pool_size ≤ ptr
      → ptr < base + i * pool_size + pool_size
      → (ptr - base) / pool_size ≡ i
  pool_at i ptr positive above below =
      ap (λ (k : ℕ). k / pool_size) {x = ptr - base}
        {y = i * pool_size + (ptr - base - i * pool_size)} (omega (arith, above))
      ∙ mul-add-div_right positive i (ptr - base - i * pool_size)
      ∙ ap (λ (k : ℕ). i + k)
          (div-eq_of_lt {n = ptr - base - i * pool_size} {m = pool_size} (omega arith))
      ∙ omega arith

  abbrev InPool : Block → Type 0
  InPool x =
      (base + pool_of x * pool_size ≤ x.ptr)
      × (x.ptr + x.bytes ≤ base + pool_of x * pool_size + pool_size)
      × (pool_of x < pool_count)
      × (0 < x.bytes)

  pools_Apart : (x y : Block) → InPool x → InPool y → pool_of x ≢ pool_of y → Apart x y
  pools_Apart x y hx hy ne = by_order (lt_or_le (pool_of x) (pool_of y))
    where
      by_order : (pool_of x < pool_of y) ⊎ (pool_of y ≤ pool_of x) → Apart x y
      by_order (inl less) =
          let next : (pool_of x + 1) * pool_size ≤ pool_of y * pool_size =
            mul-le-mul_right pool_size (omega arith) in
          inl (omega (arith, hx, hy, next))
      by_order (inr le) =
          let next : (pool_of y + 1) * pool_size ≤ pool_of x * pool_size =
            mul-le-mul_right pool_size (omega (arith, ne)) in
          inr (omega (arith, hx, hy, next))

  new_Apart :
      (x : Block) (xs : List Block)
      → InPool x
      → All InPool xs
      → occurs (pool_of x) (map pool_of xs) ≡ 0
      → All (Apart x) xs
  unfolding occurs
  new_Apart x [] hx h none_there = tt
  new_Apart x (y ∷ xs) hx h none_there = (
    pools_Apart x y hx h.0 (λ same. ground (arith, none_there, same)),
    new_Apart x xs hx h.1 (ground (arith, none_there)),
  )

  -- The blocks that are in use after calls from the constructor on. A block is given back once. A
  -- request is so small that neither the address rounded up behind the pools nor its bytes and the
  -- alignment together pass the range of `std::size_t`.
  pub data Used : Vector ℕ → List Block → Type 0 where
    fresh :
        {free : Vector ℕ} {live : List Block}
        → free ≡ pool_resource pool_count
        → live ≡ []
        → Used free live
    allocated :
        {free free' : Vector ℕ} {live live' : List Block} (ptr bytes alignment : ℕ)
        → Used free live
        → 0 < alignment
        → 0 < bytes
        → base + pool_count * pool_size + alignment ≤ size_range
        → bytes + alignment ≤ size_range
        → allocate base pool_size pool_count size_range bytes alignment free ≡ (some ptr, free')
        → live' ≡ record { ptr = ptr; bytes = bytes } ∷ live
        → Used free' live'
    freed :
        {free free' : Vector ℕ} {live live' : List Block} (before after : List Block) (x : Block)
        → Used free live
        → live ≡ before ++ (x ∷ after)
        → free' ≡ (deallocate base pool_size pool_count size_range x.ptr free).1
        → live' ≡ before ++ after
        → Used free' live'

  module _ (positive : 0 < pool_size) (narrow : pool_count ≤ 65536)
      (fits : base + pool_count * pool_size ≤ size_range) where
    Kept : Vector ℕ → List Block → Type 0
    Kept free live = AllApart live × All InPool live × IsPool pool_count free (map pool_of live)

    allocated-Kept :
        (free free' : Vector ℕ) (live : List Block) (ptr bytes alignment : ℕ)
        → 0 < alignment
        → 0 < bytes
        → base + pool_count * pool_size + alignment ≤ size_range
        → bytes + alignment ≤ size_range
        → allocate base pool_size pool_count size_range bytes alignment free ≡ (some ptr, free')
        → Kept free live
        → Kept free' (record { ptr = ptr; bytes = bytes } ∷ live)
    unfolding Kept
    allocated-Kept free free' live ptr bytes alignment aligned some_byte fits' small e kept =
        let x : Block = record { ptr = ptr; bytes = bytes } in
        let (i, inside, unused, above, below, pool) =
          allocate-IsPool base pool_size pool_count size_range bytes alignment free free'
            (map pool_of live) ptr aligned fits' small kept.2 e in
        let at_i : pool_of x ≡ i = pool_at i ptr positive above (omega arith) in
        let in_pool : InPool x = (
          omega (arith, above, ap (λ (k : ℕ). k * pool_size) at_i),
          omega (arith, below, ap (λ (k : ℕ). k * pool_size) at_i),
          omega (arith, at_i),
          some_byte,
        ) in
        (
          (
            new_Apart x live in_pool kept.1
                (ap (λ (k : ℕ). occurs k (map pool_of live)) at_i ∙ unused),
            kept.0,
          ),
          (in_pool, kept.1),
          subst (λ (k : ℕ). IsPool pool_count free' (k ∷ map pool_of live)) (sym at_i) pool,
        )

    free_block :
        (free : Vector ℕ) (before after : List Block) (x : Block)
        → Kept free (before ++ (x ∷ after))
        → ((deallocate base pool_size pool_count size_range x.ptr free).0 ≡ true)
          × IsPool pool_count
              (deallocate base pool_size pool_count size_range x.ptr free).1
              (map pool_of before ++ map pool_of after)
    unfolding Kept
    free_block free before after x kept =
        let in_pool = (All-without InPool before x after kept.1).0 in
        let (above, below, inside, some_byte) = in_pool in
        let last : (pool_of x + 1) * pool_size ≤ pool_count * pool_size =
          mul-le-mul_right pool_size (omega arith) in
        deallocate-IsPool base pool_size pool_count size_range (pool_of x) x.ptr free
          (map pool_of before) (map pool_of after) positive narrow (omega arith)
          (omega (arith, last)) inside above (omega arith)
          (subst (IsPool pool_count free) (map-append pool_of before (x ∷ after)) kept.2)

    freed-Kept :
        (free : Vector ℕ) (before after : List Block) (x : Block)
        → Kept free (before ++ (x ∷ after))
        → Kept (deallocate base pool_size pool_count size_range x.ptr free).1 (before ++ after)
    unfolding Kept
    freed-Kept free before after x kept =
        let back = free_block free before after x kept in
        (
          AllApart-without before x after kept.0,
          (All-without InPool before x after kept.1).1,
          subst (IsPool pool_count (deallocate base pool_size pool_count size_range x.ptr free).1)
              (sym (map-append pool_of before after)) back.1,
        )

    used-Kept : (free : Vector ℕ) (live : List Block) → Used free live → Kept free live
    unfolding Kept
    used-Kept free live (fresh e e') =
        subst (λ (v : Vector ℕ). Kept v live) (sym e)
          (subst (Kept (pool_resource pool_count)) (sym e')
            (tt, tt, pool_resource-IsPool pool_count narrow))
    used-Kept free live
          (allocated {free = old} {live = others} ptr bytes alignment before aligned some_byte fits'
            small e e') =
        subst (Kept free) (sym e') (
          allocated-Kept old free others ptr bytes alignment aligned some_byte fits' small e
            (used-Kept old others before))
    used-Kept free live (freed {free = old} {live = others} before after x was split e e') =
        subst (λ (v : Vector ℕ). Kept v live) (sym e)
          (subst (Kept (deallocate base pool_size pool_count size_range x.ptr old).1) (sym e')
            (freed-Kept old before after x (subst (Kept old) split (used-Kept old others was))))

    -- For a positive size of the pools, at most 65536 of them, which end inside of the range of
    -- addresses: of the blocks that are in use after any calls of `allocate` with at least one byte
    -- and a positive alignment, whose bytes and alignment together, and the end of the pools and
    -- the alignment together, stay in the range of `std::size_t`, and of `deallocate` with a block
    -- in use, no two share a byte.
    pub Used-AllApart : (free : Vector ℕ) (live : List Block) → Used free live → AllApart live
    unfolding Kept
    Used-AllApart free live h = (used-Kept free live h).0

    -- For a positive size of the pools, at most 65536 of them, which end inside of the range of
    -- addresses: `deallocate` returns true for a block that is in use after any calls of `allocate`
    -- with at least one byte and a positive alignment, whose bytes and alignment together, and the
    -- end of the pools and the alignment together, stay in the range of `std::size_t`, and of
    -- `deallocate` with a block in use.
    pub deallocate-Used :
        (free : Vector ℕ) (before after : List Block) (x : Block)
        → Used free (before ++ (x ∷ after))
        → (deallocate base pool_size pool_count size_range x.ptr free).0 ≡ true
    deallocate-Used free before after x h =
        (free_block free before after x (used-Kept free (before ++ (x ∷ after)) h)).0
