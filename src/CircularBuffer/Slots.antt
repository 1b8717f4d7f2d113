-- ===== src/CircularBuffer/Slots.antt =====
-- The storage of a circular buffer as a queue that starts at the slot `h`: what single writes and
-- erasures do to it.
pub mod Bulk
use emlabcpp.Prelude.{
  ℕ, zero, suc, ◌+◌, ◌-◌, ◌%◌, ◌≤◌, ◌<◌, ◌≡◌, ◌≢◌, refl, sym, ap, ◌∙◌, arith, Option, none, some,
  List, [], ◌∷◌, ◌++◌, append-nil, append_assoc, length, length-append, length-set, length-take,
  length-drop, set, get_or, get_elem?, take, drop, take-append-drop, get_or-set_self, get_or-set_ne,
  get_elem?-append_left, get_elem?-append_end, mod_distinct, subst, ltb, Bool-cases, inl, inr,
  if◌then◌else◌, ltb→lt, ltb→le,
}
use native.Mathlib.Nat.{mod-lt, mod-eq_of_lt, mod-add-mod, mod_self}
use native.Mathlib.Decide.{ℕ_discrete}
use emlabcpp.CircularBuffer.{copy_n, delete_n}

module _ {A : Type 0} (c : ℕ) where
  -- The slots from `h` on, round at `c`, hold the items of the queue.
  abbrev pub Slots : List (Option A) → ℕ → List A → Type 0
  Slots storage h xs = (i : ℕ) → i < length xs → get_or storage ((h + i) % c) none ≡ get_elem? xs i

  pub Slots-push :
      (storage : List (Option A)) (h : ℕ) (xs : List A) (x : A)
      → c ≤ length storage
      → h < c
      → length xs < c
      → Slots storage h xs
      → Slots (set storage ((h + length xs) % c) (some x)) h (xs ++ (x ∷ []))
  Slots-push storage h xs x hs hh hx all i hi =
      let p = (h + length xs) % c in
      let inside : p < c = mod-lt (h + length xs) (omega arith) in
      elim (ℕ_discrete i (length xs)) [
        | yes e ↦
            subst
              (λ (k : ℕ).
                get_or (set storage p (some x)) ((h + k) % c) none ≡ get_elem? (xs ++ (x ∷ [])) k)
              (sym e)
              (get_or-set_self storage p (some x) none (omega arith)
                ∙ sym (get_elem?-append_end xs x))
        | no ne ↦
            let before : i < length xs = omega (arith, length-append xs (x ∷ [])) in
            get_or-set_ne storage p ((h + i) % c) (some x) none
              (mod_distinct c h (length xs) i hh hx (omega arith) (λ e. ne (sym e)))
            ∙ all i before
            ∙ sym (get_elem?-append_left xs (x ∷ []) i before)
      ]

  pub Slots-pop :
      (storage : List (Option A)) (h : ℕ) (x : A) (xs : List A)
      → h < c
      → length xs < c
      → Slots storage h (x ∷ xs)
      → Slots (set storage h none) ((h + 1) % c) xs
  Slots-pop storage h x xs hh hx all i hi =
      let same : ((h + 1) % c + i) % c ≡ (h + suc i) % c =
        mod-add-mod (h + 1) c i
        ∙ ap (λ (k : ℕ). k % c) {x = h + 1 + i} {y = h + suc i} (omega arith) in
      let start : (h + 0) % c ≡ h =
        ap (λ (k : ℕ). k % c) {x = h + 0} {y = h} (omega arith) ∙ mod-eq_of_lt hh in
      let other : h ≢ (h + suc i) % c =
        subst (λ (k : ℕ). k ≢ (h + suc i) % c) start
          (mod_distinct c h 0 (suc i) hh (omega arith) (omega arith) (λ e. omega arith)) in
      ap (λ (k : ℕ). get_or (set storage h none) k none) same
      ∙ get_or-set_ne storage h ((h + suc i) % c) none none other
      ∙ all (suc i) (omega arith)

  pub Slots-tail :
      (storage : List (Option A)) (h : ℕ) (x : A) (xs : List A)
      → Slots storage h (x ∷ xs)
      → Slots storage ((h + 1) % c) xs
  Slots-tail storage h x xs all i hi =
      ap (λ (k : ℕ). get_or storage k none)
        (mod-add-mod (h + 1) c i
          ∙ ap (λ (k : ℕ). k % c) {x = h + 1 + i} {y = h + suc i} (omega arith))
      ∙ all (suc i) (omega arith)
