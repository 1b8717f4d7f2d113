-- ===== src/CircularBuffer/Steps.antt =====
-- The steps of the iterator round the storage.
use emlabcpp.Prelude.{
  ℕ, ◌+◌, ◌-◌, ◌%◌, ◌≤◌, ◌<◌, ◌≡◌, sym, ap, ◌∙◌, arith, true, false, leb, inl, inr, mod_cases,
  le→leb,
}
use native.Mathlib.Nat.{mod-eq_of_lt, mod-lt, mod-add-mod}
use emlabcpp.CircularBuffer.{next_pos, prev_pos, advance, retreat}
use emlabcpp.CircularBuffer.Indexing.{Strategy}
use emlabcpp.CircularBuffer.Iteration.{next_pos-mod}

module _ (s : Strategy) (p : ℕ) (inside : p < s.max_size) where
  pub advance_zero : advance s 0 p ≡ p
  unfolding advance
  advance_zero =
      ap (λ (k : ℕ). k % s.max_size) {x = p + 0} {y = p} (omega arith) ∙ mod-eq_of_lt inside

  advance_suc : (v : ℕ) → advance s (v + 1) p ≡ next_pos s (advance s v p)
  unfolding advance
  advance_suc v =
      let n = s.max_size in
      sym (
        next_pos-mod s ((p + v) % n) (mod-lt (p + v) (omega arith))
        ∙ mod-add-mod (p + v) n 1
        ∙ ap (λ (k : ℕ). k % n) {x = p + v + 1} {y = p + (v + 1)} (omega arith))

  prev_pos-next_pos : prev_pos s (next_pos s p) ≡ p
  unfolding prev_pos next_pos
  prev_pos-next_pos = ground arith

  retreat-advance : (v : ℕ) → v ≤ s.max_size → retreat s v (advance s v p) ≡ p
  unfolding retreat advance
  retreat-advance v short =
      let n = s.max_size in
      elim (mod_cases n (p + v) (omega arith)) [
        | inl a ↦
            let ahead : leb v ((p + v) % n) ≡ true = le→leb v ((p + v) % n) (omega arith) in
            rw ahead (
              ap (λ (k : ℕ). k % n) {x = (p + v) % n - v} {y = p} (omega arith)
              ∙ mod-eq_of_lt inside)
        | inr a ↦
            let behind : leb v ((p + v) % n) ≡ false = ground arith in
            let gap : v - (p + v) % n ≡ n - p = omega arith in
            rw (behind, gap)
              (elim (mod_cases n (n - p) (omega arith)) [
                | inl c ↦ ground arith
                | inr c ↦ ground arith
              ])
      ]

  -- From a slot of the storage, `+= 0` of an iterator stays, `+= v + 1` is `+= v` and an increment,
  -- a decrement takes an increment back, and for `v` of at most the slots of the storage `-= v`
  -- takes `+= v` back.
  pub iterator_steps :
      (v : ℕ)
      → v ≤ s.max_size
      → (advance s 0 p ≡ p)
        × (advance s (v + 1) p ≡ next_pos s (advance s v p))
        × (prev_pos s (next_pos s p) ≡ p)
        × (retreat s v (advance s v p) ≡ p)
  iterator_steps v short = (advance_zero, advance_suc v, prev_pos-next_pos, retreat-advance v short)
