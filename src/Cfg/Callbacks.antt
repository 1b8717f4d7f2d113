-- ===== src/Cfg/Callbacks.antt =====
-- handler.hpp: the functions that an interface can use for its callbacks.
use emlabcpp.Prelude.{
  ℕ, zero, suc, ◌-◌, ◌≡◌, refl, arith, Bool, true, false, ◌&&◌, Option, none, some, List, [], ◌∷◌,
  length, take, drop, set, get_or, replicate, ltb, ◌==◌, if◌then◌else◌,
}
use emlabcpp.Cfg.{CacheRes, seen, not_seen}

-- `std::ranges::equal` of spans of one size
unfoldable pub equal : List ℕ → List ℕ → Bool
equal [] [] = true
equal [] (y ∷ ys) = false
equal (x ∷ xs) [] = false
equal (x ∷ xs) (y ∷ ys) = (x == y) && equal xs ys

unfoldable pub all_zero : List ℕ → Bool
all_zero [] = true
all_zero (x ∷ xs) = (x == 0) && all_zero xs

unfoldable pub is_prefix_of_with_zeros : List ℕ → List ℕ → Bool
is_prefix_of_with_zeros a b =
    if ltb (length b) (length a)
    then false
    else equal a (take (length a) b) && all_zero (drop (length a) b)

-- the value at the back, and the container without it
unfoldable pub pop_from_container : List ℕ → Option ℕ × List ℕ
pop_from_container [] = (none, [])
pop_from_container (x ∷ xs) = (some (get_or (x ∷ xs) (length xs) 0), take (length xs) (x ∷ xs))

-- the position of the first item that is `key`, or of the end
unfoldable pub find : List ℕ → ℕ → ℕ
find [] key = 0
find (x ∷ xs) key = if x == key then 0 else suc (find xs key)

-- `std::swap( *iter, cont.back() )` leaves `key` at the back, which `pop_back` removes.
unfoldable pub key_check_unseen_container : List ℕ → ℕ → CacheRes × List ℕ
unfolding find
key_check_unseen_container cont key =
    let i = find cont key in
    let back = length cont - 1 in
    if i == length cont
    then (seen, cont)
    else (not_seen, take back (set (set cont i (get_or cont back 0)) back (get_or cont i 0)))

equal_sound : (xs ys : List ℕ) → equal xs ys ≡ true → xs ≡ ys
unfolding equal
equal_sound [] [] h = refl
equal_sound [] (y ∷ ys) h = ground (arith, h)
equal_sound (x ∷ xs) [] h = ground (arith, h)
equal_sound (x ∷ xs) (y ∷ ys) h = ground (arith, h, equal_sound xs ys)

equal_self : (xs : List ℕ) → equal xs xs ≡ true
unfolding equal
equal_self [] = refl
equal_self (x ∷ xs) = ground (arith, equal_self xs)

all_zero_sound : (xs : List ℕ) → all_zero xs ≡ true → xs ≡ replicate (length xs) 0
unfolding all_zero
all_zero_sound [] h = refl
all_zero_sound (x ∷ xs) h = ground (arith, h, all_zero_sound xs)

all_zero-replicate : (n : ℕ) → all_zero (replicate n 0) ≡ true
unfolding all_zero
all_zero-replicate zero = refl
all_zero-replicate (suc n) = all_zero-replicate n
