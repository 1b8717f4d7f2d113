-- ===== src/Protocol/Sequencer/Refine.antt =====
-- sequencer.hpp: the sequencer over its circular buffer, and the same on a list of the bytes in that.
use mathlib.Core.Option.{none-ne-some, some-injective}
use emlabcpp.Prelude.{
  ℕ, zero, suc, ◌+◌, ◌-◌, ◌≤◌, ◌<◌, ◌≡◌, refl, sym, ap, ◌∙◌, arith, Bool, true, false, not, ◌&&◌,
  Option, none, some, List, [], ◌∷◌, ◌++◌, append-nil, append_assoc, map, length, length-append,
  drop, ltb, ltb→le, ◌==◌, if◌then◌else◌, Bool-cases, inl, inr, subst,
}
use emlabcpp.CircularBuffer.{Buffer, push_back, pop_front, take_front, size, is_empty}
use emlabcpp.CircularBuffer.Indexing.{Indices, Strategy, IsStrategy}
use emlabcpp.CircularBuffer.Refine.{Holds, push_back-Holds, take_front-Holds, size-Holds}
use emlabcpp.CircularBuffer.Iteration.{elements-Holds, iterate-Holds_all}
use emlabcpp.Protocol.Sequencer.{
  SequencerDef, Response, read_request, mismatch, byte_at, insert, visible, held, synchronise,
  pop_times, complete, finish, get_message, skips, aligned, cut, frame_of, frame,
}

map-byte_at : (xs : List ℕ) → map byte_at (map some xs) ≡ xs
map-byte_at [] = refl
map-byte_at (x ∷ xs) = ap (λ (t : List ℕ). x ∷ t) (map-byte_at xs)

module _ {s : Strategy} {n : ℕ} {Valid : Indices → Type 0} (law : IsStrategy s n Valid)
    (d : SequencerDef) where
  -- For a strategy that keeps what the buffer relies on, `insert` adds bytes that fit behind those
  -- that the buffer holds.
  pub insert-Holds :
      (bytes : List ℕ) (b : Buffer ℕ) (xs : List ℕ)
      → length xs + length bytes ≤ n
      → Holds s Valid b xs
      → Holds s Valid (insert s d bytes b) (xs ++ bytes)
  unfolding insert
  insert-Holds [] b xs room h = subst (λ (t : List ℕ). Holds s Valid b t) (sym (append-nil xs)) h
  insert-Holds (byte ∷ rest) b xs room h =
      subst (λ (t : List ℕ). Holds s Valid (insert s d rest (push_back s byte b)) t)
        (append_assoc xs (byte ∷ []) rest)
        (insert-Holds rest (push_back s byte b) (xs ++ (byte ∷ []))
          (omega (arith, length-append xs (byte ∷ [])))
          (push_back-Holds law byte b xs (omega arith) h))

  pop_front-Holds :
      (b : Buffer ℕ) (x : ℕ) (xs : List ℕ)
      → Holds s Valid b (x ∷ xs)
      → Holds s Valid (pop_front s b) xs
  unfolding take_front
  pop_front-Holds b x xs h = (take_front-Holds law b x xs h).1

  pop_times-Holds :
      (k : ℕ) (b : Buffer ℕ) (xs : List ℕ)
      → k ≤ length xs
      → Holds s Valid b xs
      → Holds s Valid (pop_times s d k b) (drop k xs)
  unfolding pop_times
  pop_times-Holds zero b xs hk h = h
  pop_times-Holds (suc k) b [] hk h = absurd (omega arith)
  pop_times-Holds (suc k) b (x ∷ xs) hk h =
      pop_times-Holds k (pop_front s b) xs (omega arith) (pop_front-Holds b x xs h)

  visible-Holds :
      (b : Buffer ℕ) (xs : List ℕ)
      → length xs < s.max_size
      → Holds s Valid b xs
      → visible s d b ≡ xs
  unfolding visible
  visible-Holds b xs free h =
      ap (λ (t : List (Option ℕ)). map byte_at t) (elements-Holds law b xs free h) ∙ map-byte_at xs

  held-Holds : (b : Buffer ℕ) (xs : List ℕ) → Holds s Valid b xs → held s d b ≡ xs
  unfolding held size
  held-Holds b xs h =
      ap (λ (t : List (Option ℕ)). map byte_at t) (iterate-Holds_all law b xs h) ∙ map-byte_at xs

  is_empty-nil : (b : Buffer ℕ) → Holds s Valid b [] → is_empty s b ≡ true
  is_empty-nil b h = (size-Holds law b [] h).1.1 refl

  is_empty-cons :
      (b : Buffer ℕ) (x : ℕ) (xs : List ℕ) → Holds s Valid b (x ∷ xs) → is_empty s b ≡ false
  is_empty-cons b x xs h = elim (Bool-cases (is_empty s b)) [
    | inl e ↦ absurd (omega (arith, (size-Holds law b (x ∷ xs) h).1.0 e))
    | inr e ↦ e
  ]

  abbrev pub Agrees : Option Response × Buffer ℕ → Option Response × List ℕ → Type 0
  Agrees r q = (r.0 ≡ q.0) × Holds s Valid r.1 q.1

  -- The two loops take the same branch.
  agree_branches :
      (none_matches whole_prefix whole_buffer : Bool) (response : Response) (b : Buffer ℕ)
      (xs : List ℕ) (r : Option Response × Buffer ℕ) (q : Option Response × List ℕ)
      → Holds s Valid b xs
      → Agrees r q
      → Agrees
          (if none_matches
            then r
            else if not whole_prefix && not whole_buffer
            then r
            else if not whole_prefix
            then (some response, b)
            else (none, b))
          (if (if none_matches then true else not whole_prefix && not whole_buffer)
            then q
            else if whole_prefix
            then (none, xs)
            else (some response, xs))
  agree_branches true p l response b xs r q h a = a
  agree_branches false true l response b xs r q h a = (refl, h)
  agree_branches false false true response b xs r q h a = (refl, h)
  agree_branches false false false response b xs r q h a = a

  synchronise-aligned :
      (fuel : ℕ) (b : Buffer ℕ) (xs : List ℕ)
      → length xs ≤ fuel
      → length xs < s.max_size
      → Holds s Valid b xs
      → Agrees (synchronise s d fuel b) (aligned d xs)
  unfolding synchronise aligned skips
  synchronise-aligned zero b [] hf free h = (refl, h)
  synchronise-aligned zero b (x ∷ xs) hf free h = absurd (omega arith)
  synchronise-aligned (suc fuel) b [] hf free h = rw (is_empty-nil b h) (refl, h)
  synchronise-aligned (suc fuel) b (x ∷ xs) hf free h =
      let later =
        synchronise-aligned fuel (pop_front s b) xs (omega arith) (omega arith)
          (pop_front-Holds b x xs h) in
      rw (is_empty-cons b x xs h, visible-Holds b (x ∷ xs) free h)
        (let k = mismatch d.prefix (x ∷ xs) in
          agree_branches (k == 0) (k == length d.prefix) (k == length (x ∷ xs))
            (read_request (d.fixed_size - k)) b (x ∷ xs) _ _ h later)

  complete-cut :
      (b : Buffer ℕ) (xs : List ℕ)
      → Holds s Valid b xs
      → ((complete s d b).0 ≡ (cut d xs).0) × Holds s Valid (complete s d b).1 (cut d xs).1
  unfolding complete cut
  complete-cut b [] h = rw (is_empty-nil b h) (refl, h)
  complete-cut b (x ∷ xs) h =
      let bytes = x ∷ xs in
      let desired = d.get_size bytes in
      rw (is_empty-cons b x xs h, (size-Holds law b bytes h).0, held-Holds b bytes h)
        (elim (Bool-cases (ltb (length bytes) d.fixed_size)) [
          | inl short ↦ rw short (refl, h)
          | inr fixed ↦ elim (Bool-cases (ltb (length bytes) desired)) [
            | inl short ↦ rw (fixed, short) (refl, h)
            | inr enough ↦ elim (Bool-cases (ltb d.capacity desired)) [
              | inl large ↦ rw (fixed, enough, large) (refl, h)
              | inr fits ↦
                  rw (fixed, enough, fits)
                    (refl, pop_times-Holds desired b bytes (ltb→le (length bytes) desired enough) h)
            ]
          ]
        ])

  finish-Agrees :
      (r : Option Response × Buffer ℕ) (q : Option Response × List ℕ)
      → Agrees r q
      → ((finish s d r).0 ≡ (frame_of d q).0) × Holds s Valid (finish s d r).1 (frame_of d q).1
  unfolding finish frame_of
  finish-Agrees (none, b) (none, xs) a = complete-cut b xs a.1
  finish-Agrees (none, b) (some response, xs) a = absurd (none-ne-some _ a.0)
  finish-Agrees (some r, b) (none, xs) a = absurd (none-ne-some _ (sym a.0))
  finish-Agrees (some r, b) (some q, xs) a = (some-injective r q a.0, a.1)

  -- For a strategy that keeps what the buffer relies on and a buffer with a slot free,
  -- `get_message` over the circular buffer responds as `frame` does on the bytes that the buffer
  -- holds, and leaves the buffer with the bytes that `frame` leaves.
  pub get_message-frame :
      (b : Buffer ℕ) (xs : List ℕ)
      → length xs < s.max_size
      → Holds s Valid b xs
      → ((get_message s d b).0 ≡ (frame d xs).0)
        × Holds s Valid (get_message s d b).1 (frame d xs).1
  unfolding get_message frame
  get_message-frame b xs free h =
      let agree =
        synchronise-aligned (size s b) b xs (omega (arith, (size-Holds law b xs h).0)) free h in
      finish-Agrees (synchronise s d (size s b) b) (aligned d xs) agree
