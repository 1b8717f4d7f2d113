-- ===== src/CircularBuffer/Slots/Bulk.antt =====
-- The bulk writes and erasures of the source, `copy_n` and `delete_n` before and after the end of the
-- storage, as repetitions of single ones.
use emlabcpp.Prelude.{
  ℕ, zero, suc, ◌+◌, ◌-◌, ◌%◌, ◌≤◌, ◌<◌, ◌≡◌, refl, sym, ap, ◌∙◌, arith, Option, none, some, List,
  [], ◌∷◌, ◌++◌, append-nil, append_assoc, length, length-append, length-set, length-take,
  length-drop, set, take, drop, take-append-drop, subst, ltb, Bool-cases, inl, inr, if◌then◌else◌,
  ltb→lt, ltb→le,
}
use native.Mathlib.Nat.{mod-lt, mod-eq_of_lt, mod-add-mod, mod_self}
use emlabcpp.CircularBuffer.{copy_n, delete_n}
use emlabcpp.CircularBuffer.Slots.{Slots, Slots-push, Slots-pop}

module _ {A : Type 0} (c : ℕ) where
  -- one item after the other, round at `c`
  pub write_round : List (Option A) → ℕ → List A → List (Option A)
  write_round storage p [] = storage
  write_round storage p (x ∷ xs) = write_round (set storage p (some x)) ((p + 1) % c) xs

  pub erase_round : List (Option A) → ℕ → ℕ → List (Option A)
  erase_round storage p zero = storage
  erase_round storage p (suc n) = erase_round (set storage p none) ((p + 1) % c) n

  copy_n-round :
      (storage : List (Option A)) (i : ℕ) (items : List A)
      → i + length items ≤ c
      → copy_n storage i items ≡ write_round storage i items
  unfolding copy_n write_round
  copy_n-round storage i [] h = refl
  copy_n-round storage i (x ∷ []) h = refl
  copy_n-round storage i (x ∷ y ∷ r) h =
      let inside : (i + 1) % c ≡ i + 1 = mod-eq_of_lt (omega arith) in
      copy_n-round (set storage i (some x)) (i + 1) (y ∷ r) (omega arith)
      ∙ ap (λ (k : ℕ). write_round (set storage i (some x)) k (y ∷ r)) (sym inside)

  write_round-append :
      (storage : List (Option A)) (p : ℕ) (xs ys : List A)
      → p < c
      → write_round storage p (xs ++ ys)
        ≡ write_round (write_round storage p xs) ((p + length xs) % c) ys
  unfolding write_round
  write_round-append storage p [] ys h =
      ap (λ (k : ℕ). write_round storage k ys)
        (sym (ap (λ (k : ℕ). k % c) {x = p + 0} {y = p} (omega arith) ∙ mod-eq_of_lt h))
  write_round-append storage p (x ∷ xs) ys h =
      let storage' = set storage p (some x) in
      write_round-append storage' ((p + 1) % c) xs ys (mod-lt (p + 1) (omega arith))
      ∙ ap (λ (k : ℕ). write_round (write_round storage' ((p + 1) % c) xs) k ys)
          (mod-add-mod (p + 1) c (length xs)
            ∙ ap (λ (k : ℕ). k % c) {x = p + 1 + length xs} {y = p + suc (length xs)} (omega arith))

  -- The two bulk writes of the source, before and after the end of the storage.
  pub copy_n-split :
      (storage : List (Option A)) (i : ℕ) (items : List A)
      → i < c
      → length items ≤ c
      → (if ltb (c - i) (length items)
          then copy_n (copy_n storage i (take (c - i) items)) 0 (drop (c - i) items)
          else copy_n storage i items)
        ≡ write_round storage i items
  copy_n-split storage i items hi hl = elim (Bool-cases (ltb (c - i) (length items))) [
    | inr short ↦
        rw short (copy_n-round storage i items (omega (arith, ltb→le (c - i) (length items) short)))
    | inl long ↦
        let k = c - i in
        let past : k < length items = ltb→lt k (length items) long in
        let taken : length (take k items) ≡ k = omega (arith, length-take k items) in
        let first : copy_n storage i (take k items) ≡ write_round storage i (take k items) =
          copy_n-round storage i (take k items) (omega (arith, taken)) in
        let second : copy_n (write_round storage i (take k items)) 0 (drop k items)
            ≡ write_round (write_round storage i (take k items)) 0 (drop k items) =
          copy_n-round (write_round storage i (take k items)) 0 (drop k items)
            (omega (arith, length-drop k items)) in
        let whole : i + length (take k items) ≡ c = omega (arith, taken) in
        let at_end : (i + length (take k items)) % c ≡ 0 =
          ap (λ (t : ℕ). t % c) whole ∙ mod_self c in
        rw long (
          ap (λ (t : List (Option A)). copy_n t 0 (drop k items)) first
          ∙ second
          ∙ ap (λ (t : ℕ). write_round (write_round storage i (take k items)) t (drop k items))
              (sym at_end)
          ∙ sym (write_round-append storage i (take k items) (drop k items) hi)
          ∙ ap (λ (t : List A). write_round storage i t) (take-append-drop k items))
  ]

  delete_n-round :
      (storage : List (Option A)) (i n : ℕ)
      → i + n ≤ c
      → delete_n storage i n ≡ erase_round storage i n
  unfolding delete_n erase_round
  delete_n-round storage i zero h = refl
  delete_n-round storage i (suc zero) h = refl
  delete_n-round storage i (suc (suc n)) h =
      let inside : (i + 1) % c ≡ i + 1 = mod-eq_of_lt (omega arith) in
      delete_n-round (set storage i none) (i + 1) (suc n) (omega arith)
      ∙ ap (λ (k : ℕ). erase_round (set storage i none) k (suc n)) (sym inside)

  erase_round-add :
      (storage : List (Option A)) (p m n : ℕ)
      → p < c
      → erase_round storage p (m + n) ≡ erase_round (erase_round storage p m) ((p + m) % c) n
  unfolding erase_round
  erase_round-add storage p zero n h =
      ap (λ (k : ℕ). erase_round storage p k) {x = 0 + n} {y = n} (omega arith)
      ∙ ap (λ (k : ℕ). erase_round storage k n)
          (sym (ap (λ (k : ℕ). k % c) {x = p + 0} {y = p} (omega arith) ∙ mod-eq_of_lt h))
  erase_round-add storage p (suc m) n h =
      let storage' = set storage p none in
      ap (λ (k : ℕ). erase_round storage p k) {x = suc m + n} {y = suc (m + n)} (omega arith)
      ∙ erase_round-add storage' ((p + 1) % c) m n (mod-lt (p + 1) (omega arith))
      ∙ ap (λ (k : ℕ). erase_round (erase_round storage' ((p + 1) % c) m) k n)
          (mod-add-mod (p + 1) c m
            ∙ ap (λ (k : ℕ). k % c) {x = p + 1 + m} {y = p + suc m} (omega arith))

  pub delete_n-split :
      (storage : List (Option A)) (i n : ℕ)
      → i < c
      → n ≤ c
      → (if ltb (c - i) n
          then delete_n (delete_n storage i (c - i)) 0 (n - (c - i))
          else delete_n storage i n)
        ≡ erase_round storage i n
  delete_n-split storage i n hi hn = elim (Bool-cases (ltb (c - i) n)) [
    | inr short ↦ rw short (delete_n-round storage i n (omega (arith, ltb→le (c - i) n short)))
    | inl long ↦
        let k = c - i in
        let past : k < n = ltb→lt k n long in
        let at_end : (i + k) % c ≡ 0 =
          ap (λ (t : ℕ). t % c) {x = i + k} {y = c} (omega arith) ∙ mod_self c in
        rw long (
          ap (λ (t : List (Option A)). delete_n t 0 (n - k))
            (delete_n-round storage i k (omega arith))
          ∙ delete_n-round (erase_round storage i k) 0 (n - k) (omega arith)
          ∙ ap (λ (t : ℕ). erase_round (erase_round storage i k) t (n - k)) (sym at_end)
          ∙ sym (erase_round-add storage i k (n - k) hi)
          ∙ ap (λ (t : ℕ). erase_round storage i t) {x = k + (n - k)} {y = n} (omega arith))
  ]

  pub length-write_round :
      (storage : List (Option A)) (p : ℕ) (xs : List A)
      → length (write_round storage p xs) ≡ length storage
  unfolding write_round
  length-write_round storage p [] = refl
  length-write_round storage p (x ∷ xs) =
      length-write_round (set storage p (some x)) ((p + 1) % c) xs ∙ length-set storage p (some x)

  pub length-erase_round :
      (storage : List (Option A)) (p n : ℕ) → length (erase_round storage p n) ≡ length storage
  unfolding erase_round
  length-erase_round storage p zero = refl
  length-erase_round storage p (suc n) =
      length-erase_round (set storage p none) ((p + 1) % c) n ∙ length-set storage p none

  pub Slots-write_round :
      (ys xs : List A) (storage : List (Option A)) (h : ℕ)
      → c ≤ length storage
      → h < c
      → length xs + length ys ≤ c
      → Slots c storage h xs
      → Slots c (write_round storage ((h + length xs) % c) ys) h (xs ++ ys)
  unfolding write_round
  Slots-write_round [] xs storage h hs hh hl all =
      subst (λ (t : List A). Slots c storage h t) (sym (append-nil xs)) all
  Slots-write_round (y ∷ ys) xs storage h hs hh hl all =
      let p = (h + length xs) % c in
      let pushed = Slots-push c storage h xs y hs hh (omega arith) all in
      let longer : length (xs ++ (y ∷ [])) ≡ length xs + 1 = length-append xs (y ∷ []) in
      let next : (h + length (xs ++ (y ∷ []))) % c ≡ (p + 1) % c =
        ap (λ (t : ℕ). t % c) {x = h + length (xs ++ (y ∷ []))} {y = h + length xs + 1}
          (omega arith)
        ∙ sym (mod-add-mod (h + length xs) c 1) in
      let kept : c ≤ length (set storage p (some y)) =
        omega (arith, length-set storage p (some y)) in
      let rest =
        Slots-write_round ys (xs ++ (y ∷ [])) (set storage p (some y)) h kept hh (omega arith)
          pushed in
      subst (λ (t : List A). Slots c (write_round (set storage p (some y)) ((p + 1) % c) ys) h t)
        (append_assoc xs (y ∷ []) ys)
        (subst
          (λ (t : ℕ).
            Slots c (write_round (set storage p (some y)) t ys) h ((xs ++ (y ∷ [])) ++ ys))
          next rest)

  pub Slots-erase_round :
      (n : ℕ) (storage : List (Option A)) (h : ℕ) (xs : List A)
      → h < c
      → length xs ≤ c
      → n ≤ length xs
      → Slots c storage h xs
      → Slots c (erase_round storage h n) ((h + n) % c) (drop n xs)
  unfolding erase_round
  Slots-erase_round zero storage h xs hh hl hn all =
      subst (λ (t : ℕ). Slots c storage t xs)
        (sym (ap (λ (k : ℕ). k % c) {x = h + 0} {y = h} (omega arith) ∙ mod-eq_of_lt hh)) all
  Slots-erase_round (suc n) storage h [] hh hl hn all = absurd (omega arith)
  Slots-erase_round (suc n) storage h (x ∷ xs) hh hl hn all =
      let rest =
        Slots-erase_round n (set storage h none) ((h + 1) % c) xs (mod-lt (h + 1) (omega arith))
          (omega arith) (omega arith) (Slots-pop c storage h x xs hh (omega arith) all) in
      subst (λ (t : ℕ). Slots c (erase_round (set storage h none) ((h + 1) % c) n) t (drop n xs))
        (mod-add-mod (h + 1) c n
          ∙ ap (λ (k : ℕ). k % c) {x = h + 1 + n} {y = h + suc n} (omega arith))
        rest
