-- ===== src/CircularBuffer/Trace.antt =====
-- Sequences of calls on the circular buffer, against the queue they are meant to be.
use mathlib.Core.Option.{some-injective, none-ne-some, bind, bind-eq-some_iff}
use emlabcpp.Prelude.{
  ℕ, ◌+◌, ◌≡◌, refl, ap, ◌∙◌, true, false, Option, none, some, Bool, List, [], ◌∷◌, ◌++◌, length,
  drop, ltb, leb, ltb→lt, leb→le, if◌then◌else◌, subst,
}
use emlabcpp.CircularBuffer.{
  Buffer, contiguous, push_back, pop_front, take_front, pop_front_n, copy_range_back, clear,
}
use emlabcpp.CircularBuffer.Indexing.{Indices, Strategy, IsStrategy}
use emlabcpp.CircularBuffer.Reads.{contiguous-IsRange}
use emlabcpp.CircularBuffer.Refine.{Holds, push_back-Holds, take_front-Holds}
use emlabcpp.CircularBuffer.Ranges.{copy_range_back-Holds, pop_front_n-Holds, clear-Holds}

-- The calls that change a buffer. The range of a range push is contiguous, of an item type that is
-- trivially copied or not.
pub data Call (A : Type 0) : Type 0 where
  call_push_back : A → Call A
  call_pop_front : Call A
  call_copy_range_back : Bool → List A → Call A
  call_pop_front_n : ℕ → Call A
  call_clear : Call A

module _ {A : Type 0} where
  abbrev pub perform : Strategy → Call A → Buffer A → Option (Buffer A)
  perform s (call_push_back item) b = some (push_back s item b)
  perform s call_pop_front b = some (pop_front s b)
  perform s (call_copy_range_back trivial range) b = copy_range_back s trivial (contiguous range) b
  perform s (call_pop_front_n count) b = some (pop_front_n s count b)
  perform s call_clear b = some (clear s b)

  abbrev pub run : Strategy → List (Call A) → Buffer A → Option (Buffer A)
  run s [] b = some b
  run s (call ∷ calls) b = bind (perform s call b) (λ b'. run s calls b')

  -- The same on a queue of at most `n` items. A call that the caller must not make gives `none`.
  abbrev pub expected : ℕ → Call A → List A → Option (List A)
  expected n (call_push_back item) xs = if ltb (length xs) n then some (xs ++ (item ∷ [])) else none
  expected n call_pop_front [] = none
  expected n call_pop_front (x ∷ xs) = some xs
  expected n (call_copy_range_back trivial range) xs =
      if leb (length xs + length range) n then some (xs ++ range) else none
  expected n (call_pop_front_n count) xs =
      if leb count (length xs) then some (drop count xs) else none
  expected n call_clear xs = some []

  abbrev pub expected_run : ℕ → List (Call A) → List A → Option (List A)
  expected_run n [] xs = some xs
  expected_run n (call ∷ calls) xs = bind (expected n call xs) (λ ys. expected_run n calls ys)

some_of_if :
    {A : Type 0} {t : Bool} {x y : A} → (if t then some x else none) ≡ some y → (t ≡ true) × (x ≡ y)
some_of_if {t = true} e = (refl, some-injective _ _ e)
some_of_if {t = false} e = absurd (none-ne-some _ e)

module _ {s : Strategy} {n : ℕ} {Valid : Indices → Type 0} (law : IsStrategy s n Valid)
    {A : Type 0} where
  perform-Holds :
      (call : Call A) (b : Buffer A) (xs ys : List A)
      → expected n call xs ≡ some ys
      → Holds s Valid b xs
      → (b' : Buffer A) × (perform s call b ≡ some b') × Holds s Valid b' ys
  unfolding take_front
  perform-Holds (call_push_back item) b xs ys e h =
      let made = some_of_if e in
      (
        push_back s item b,
        refl,
        subst (λ (t : List A). Holds s Valid (push_back s item b) t) made.1
            (push_back-Holds law item b xs (ltb→lt (length xs) n made.0) h),
      )
  perform-Holds call_pop_front b [] ys e h = absurd (none-ne-some _ e)
  perform-Holds call_pop_front b (x ∷ xs) ys e h = (
    pop_front s b,
    refl,
    subst (λ (t : List A). Holds s Valid (pop_front s b) t) (some-injective xs ys e)
        (take_front-Holds law b x xs h).1,
  )
  perform-Holds (call_copy_range_back trivial range) b xs ys e h =
      let made = some_of_if e in
      let (b', done, held) =
        copy_range_back-Holds law trivial (contiguous range) range b xs
          (contiguous-IsRange trivial range) (leb→le (length xs + length range) n made.0) h in
      (b', done, subst (λ (t : List A). Holds s Valid b' t) made.1 held)
  perform-Holds (call_pop_front_n count) b xs ys e h =
      let made = some_of_if e in
      (
        pop_front_n s count b,
        refl,
        subst (λ (t : List A). Holds s Valid (pop_front_n s count b) t) made.1
            (pop_front_n-Holds law count b xs (leb→le count (length xs) made.0) h),
      )
  perform-Holds call_clear b xs ys e h = (
    clear s b,
    refl,
    subst (λ (t : List A). Holds s Valid (clear s b) t) (some-injective [] ys e)
        (clear-Holds law b xs h),
  )

  -- For a strategy that keeps what the buffer relies on: if a queue of at most `n` items accepts a
  -- sequence of calls (push, pop, push of a contiguous range, pop of many, clear) and then has the
  -- items `ys`, the same calls on a buffer with the items that the queue began with succeed and
  -- leave it with the items `ys`.
  pub run-Holds :
      (calls : List (Call A)) (b : Buffer A) (xs ys : List A)
      → expected_run n calls xs ≡ some ys
      → Holds s Valid b xs
      → (b' : Buffer A) × (run s calls b ≡ some b') × Holds s Valid b' ys
  unfolding bind
  run-Holds [] b xs ys e h =
      (b, refl, subst (λ (t : List A). Holds s Valid b t) (some-injective xs ys e) h)
  run-Holds (call ∷ calls) b xs ys e h =
      let middle = (bind-eq-some_iff (expected n call xs) (λ zs. expected_run n calls zs)).0 e in
      let (b1, first, held) = perform-Holds call b xs middle.0 middle.1 h in
      let (b', rest, held') = run-Holds calls b1 middle.0 ys middle.2 held in
      (b', ap (λ (o : Option (Buffer A)). bind o (λ t. run s calls t)) first ∙ rest, held')
