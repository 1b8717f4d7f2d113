-- ===== src/StaticVector/Loops.antt =====
-- static_vector.hpp: the loops of `swap`.
use emlabcpp.Prelude.{
  ℕ, zero, suc, ◌+◌, ◌≤◌, ◌≡◌, refl, sym, ap, ap₂, ◌∙◌, arith, Option, none, some, List, [], ◌∷◌,
  ◌++◌, map, append_assoc, append-nil, length, length-append, set, get_or, subst,
}
use emlabcpp.StaticVector.{
  Vector, emplace_back, push_back, pop_back, take_back, swap_loop, give_loop, pop_times,
}
use emlabcpp.StaticVector.Refine.{Holds, set-end, get_or-end, push_back-Holds, take_back-Holds}

-- a vector that is written out
abbrev pub vector : {A : Type 0} → List (Option A) → ℕ → Vector A
vector storage size = record { storage = storage; size = size }

module _ {A : Type 0} (capacity : ℕ) where
  pub swap_loop-lists :
      (ls rs p q t u : List (Option A)) (m n : ℕ)
      → length p ≡ length q
      → length ls ≡ length rs
      → swap_loop (length ls) (length p) (vector (p ++ (ls ++ t)) m) (vector (q ++ (rs ++ u)) n)
        ≡ (vector (p ++ (rs ++ t)) m, vector (q ++ (ls ++ u)) n)
  unfolding swap_loop
  swap_loop-lists [] [] p q t u m n same same' = refl
  swap_loop-lists [] (y ∷ rs) p q t u m n same same' = absurd (omega arith)
  swap_loop-lists (x ∷ ls) [] p q t u m n same same' = absurd (omega arith)
  swap_loop-lists (x ∷ ls) (y ∷ rs) p q t u m n same same' =
      let i = length p in
      let got : get_or (q ++ (y ∷ (rs ++ u))) i none ≡ y =
        ap (λ (k : ℕ). get_or (q ++ (y ∷ (rs ++ u))) k none) same ∙ get_or-end q y none (rs ++ u) in
      let left : set (p ++ (x ∷ (ls ++ t))) i (get_or (q ++ (y ∷ (rs ++ u))) i none)
          ≡ (p ++ (y ∷ [])) ++ (ls ++ t) =
        ap (set (p ++ (x ∷ (ls ++ t))) i) got
        ∙ set-end p x y (ls ++ t)
        ∙ sym (append_assoc p (y ∷ []) (ls ++ t)) in
      let right : set (q ++ (y ∷ (rs ++ u))) i (get_or (p ++ (x ∷ (ls ++ t))) i none)
          ≡ (q ++ (x ∷ [])) ++ (rs ++ u) =
        ap (set (q ++ (y ∷ (rs ++ u))) i) (get_or-end p x none (ls ++ t))
        ∙ ap (λ (k : ℕ). set (q ++ (y ∷ (rs ++ u))) k x) same
        ∙ set-end q y x (rs ++ u)
        ∙ sym (append_assoc q (x ∷ []) (rs ++ u)) in
      ap₂ (λ (a b : List (Option A)). swap_loop (length ls) (i + 1) (vector a m) (vector b n)) left
        right
      ∙ ap
          (λ (k : ℕ).
            swap_loop (length ls) k (vector ((p ++ (y ∷ [])) ++ (ls ++ t)) m)
              (vector ((q ++ (x ∷ [])) ++ (rs ++ u)) n))
          {y = length (p ++ (y ∷ []))} (omega (arith, length-append p (y ∷ [])))
      ∙ swap_loop-lists ls rs (p ++ (y ∷ [])) (q ++ (x ∷ [])) t u m n
          (omega (arith, length-append p (y ∷ []), length-append q (x ∷ []))) (omega arith)
      ∙ ap₂ (λ (a b : List (Option A)). (vector a m, vector b n))
          (append_assoc p (y ∷ []) (rs ++ t)) (append_assoc q (x ∷ []) (ls ++ u))

  pub give_loop-Holds :
      (zs : List A) (p t : List (Option A)) (m : ℕ) (w : Vector A) (ys : List A)
      → length ys + length zs ≤ capacity
      → Holds capacity w ys
      → Holds capacity
          (give_loop (length zs) (length p) (vector (p ++ (map some zs ++ t)) m) w)
          (ys ++ zs)
  unfolding give_loop
  give_loop-Holds [] p t m w ys room h = subst (Holds capacity w) (sym (append-nil ys)) h
  give_loop-Holds (z ∷ zs) p t m w ys room h =
      let from = p ++ (some z ∷ (map some zs ++ t)) in
      let pushed : Holds capacity (emplace_back (some z) w) (ys ++ (z ∷ [])) =
        unfold push_back in push_back-Holds capacity z w ys (omega arith) h in
      let later =
        give_loop-Holds zs (p ++ (some z ∷ [])) t m (emplace_back (some z) w) (ys ++ (z ∷ []))
          (omega (arith, length-append ys (z ∷ []))) pushed in
      let start : give_loop (length zs) (length (p ++ (some z ∷ [])))
            (vector ((p ++ (some z ∷ [])) ++ (map some zs ++ t)) m) (emplace_back (some z) w)
          ≡ give_loop (length zs) (length p + 1) (vector from m)
              (emplace_back (get_or from (length p) none) w) =
        ap₂
          (λ (k : ℕ) (a : List (Option A)).
            give_loop (length zs) k (vector a m) (emplace_back (some z) w))
          (length-append p (some z ∷ [])) (append_assoc p (some z ∷ []) (map some zs ++ t))
        ∙ ap
            (λ (x : Option A).
              give_loop (length zs) (length p + 1) (vector from m) (emplace_back x w))
            (sym (get_or-end p (some z) none (map some zs ++ t))) in
      subst (λ (x : Vector A). Holds capacity x (ys ++ (z ∷ zs))) start
        (subst
          (Holds capacity (
            give_loop (length zs) (length (p ++ (some z ∷ [])))
              (vector ((p ++ (some z ∷ [])) ++ (map some zs ++ t)) m) (emplace_back (some z) w)))
          (append_assoc ys (z ∷ []) zs) later)

  pop_times-suc : (n : ℕ) (v : Vector A) → pop_times (suc n) v ≡ pop_back (pop_times n v)
  unfolding pop_times
  pop_times-suc zero v = refl
  pop_times-suc (suc n) v = pop_times-suc n (pop_back v)

  pop_times-none : (v : Vector A) → pop_times 0 v ≡ v
  unfolding pop_times
  pop_times-none v = refl

  pop_back-Holds :
      (x : A) (v : Vector A) (xs : List A)
      → Holds capacity v (xs ++ (x ∷ []))
      → Holds capacity (pop_back v) xs
  unfolding take_back
  pop_back-Holds x v xs h = (take_back-Holds capacity x v xs h).1

  pub pop_times-Holds :
      (zs : List A) (v : Vector A) (xs : List A)
      → Holds capacity v (xs ++ zs)
      → Holds capacity (pop_times (length zs) v) xs
  pop_times-Holds [] v xs h =
      subst (λ (x : Vector A). Holds capacity x xs) (sym (pop_times-none v))
        (subst (Holds capacity v) (append-nil xs) h)
  pop_times-Holds (z ∷ zs) v xs h =
      subst (λ (x : Vector A). Holds capacity x xs) (sym (pop_times-suc (length zs) v))
        (pop_back-Holds z (pop_times (length zs) v) xs (
          pop_times-Holds zs v (xs ++ (z ∷ []))
            (subst (Holds capacity v) (sym (append_assoc xs (z ∷ []) zs)) h)))
