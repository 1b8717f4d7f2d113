-- ===== src/Protocol/Sequencer/Resync.antt =====
-- sequencer.hpp: a stream of noise, a message and further bytes.
use emlabcpp.Prelude.{
  ℕ, suc, ◌≤◌, ◌<◌, ◌≡◌, refl, sym, ap, ◌∙◌, arith, true, false, none, List, [], ◌∷◌, ◌++◌,
  append_assoc, length, length-append, take-append, drop-append, le→ltb, lt→ltb, ◌==◌, ==_iff,
  subst,
}
use emlabcpp.CircularBuffer.{Buffer}
use emlabcpp.CircularBuffer.Indexing.{Indices, Strategy, IsStrategy}
use emlabcpp.CircularBuffer.Refine.{Holds}
use emlabcpp.Protocol.Sequencer.{
  SequencerDef, Response, framed, overrun, mismatch, get_message, skips, aligned, cut, frame_of,
  frame,
}
use emlabcpp.Protocol.Sequencer.Refine.{get_message-frame}

mismatch-prefix : (prefix rest : List ℕ) → mismatch prefix (prefix ++ rest) ≡ length prefix
unfolding mismatch
mismatch-prefix [] rest = refl
mismatch-prefix (x ∷ xs) rest = rw ((==_iff x x).1 refl) (ap suc (mismatch-prefix xs rest))

-- The bytes before the message are noise: from none of them on does the buffer match the prefix, or
-- as much of it as there are bytes.
abbrev pub Noise : SequencerDef → List ℕ → List ℕ → Type 0
Noise d [] tail = Unit {0}
Noise d (x ∷ xs) tail = (skips d (x ∷ (xs ++ tail)) ≡ true) × Noise d xs tail

module _ (d : SequencerDef) where
  aligned-Noise :
      (noise tail : List ℕ) → Noise d noise tail → aligned d (noise ++ tail) ≡ aligned d tail
  unfolding aligned
  aligned-Noise [] tail h = refl
  aligned-Noise (x ∷ xs) tail h = rw h.0 (aligned-Noise xs tail h.1)

  skips_start : (rest : List ℕ) → 0 < length d.prefix → skips d (d.prefix ++ rest) ≡ false
  unfolding skips
  skips_start rest h =
      let whole : (length d.prefix == length d.prefix) ≡ true =
        (==_iff (length d.prefix) (length d.prefix)).1 refl in
      let more : (length d.prefix == 0) ≡ false = ground arith in
      rw (mismatch-prefix d.prefix rest, more, whole) refl

  aligned-start :
      (bytes rest : List ℕ)
      → bytes ≡ d.prefix ++ rest
      → 0 < length d.prefix
      → aligned d bytes ≡ (none, bytes)
  unfolding aligned
  aligned-start [] rest e h = refl
  aligned-start (x ∷ xs) rest e h =
      let starts : skips d (x ∷ xs) ≡ false = ap (skips d) e ∙ skips_start rest h in
      let all : mismatch d.prefix (x ∷ xs) ≡ length d.prefix =
        ap (mismatch d.prefix) e ∙ mismatch-prefix d.prefix rest in
      rw (starts, all, (==_iff (length d.prefix) (length d.prefix)).1 refl) refl

  cut_whole :
      (msg rest : List ℕ)
      → 0 < length msg
      → d.fixed_size ≤ length msg
      → d.get_size (msg ++ rest) ≡ length msg
      → length msg ≤ d.capacity
      → cut d (msg ++ rest) ≡ (framed msg, rest)
  unfolding cut
  cut_whole [] rest some_byte fixed size fits = absurd (omega arith)
  cut_whole (x ∷ xs) rest some_byte fixed size fits =
      let msg = x ∷ xs in
      let long = length-append msg rest in
      rw
        (
          size,
          le→ltb (length (msg ++ rest)) d.fixed_size (omega (arith, long)),
          le→ltb (length (msg ++ rest)) (length msg) (omega (arith, long)),
          le→ltb d.capacity (length msg) fits,
          take-append msg rest,
          drop-append msg rest,
        )
        refl

  cut_overrun :
      (bytes : List ℕ)
      → 0 < length bytes
      → d.fixed_size ≤ length bytes
      → d.get_size bytes ≤ length bytes
      → d.capacity < d.get_size bytes
      → cut d bytes ≡ (overrun (d.get_size bytes), bytes)
  unfolding cut
  cut_overrun [] some_byte fixed size large = absurd (omega arith)
  cut_overrun (x ∷ xs) some_byte fixed size large =
      rw
        (
          le→ltb (length (x ∷ xs)) d.fixed_size fixed,
          le→ltb (length (x ∷ xs)) (d.get_size (x ∷ xs)) size,
          lt→ltb d.capacity (d.get_size (x ∷ xs)) large,
        )
        refl

  frame_behind :
      (noise body : List ℕ)
      → 0 < length d.prefix
      → Noise d noise (d.prefix ++ body)
      → frame d (noise ++ (d.prefix ++ body)) ≡ cut d (d.prefix ++ body)
  unfolding frame frame_of
  frame_behind noise body h quiet =
      ap (frame_of d) (
        aligned-Noise noise (d.prefix ++ body) quiet ∙ aligned-start (d.prefix ++ body) body refl h)

module _ {s : Strategy} {n : ℕ} {Valid : Indices → Type 0} (law : IsStrategy s n Valid)
    (d : SequencerDef) where
  -- For a strategy that keeps what the buffer relies on and a buffer with a slot free that holds
  -- noise, a message that starts with the nonempty prefix, and further bytes: if the message has at
  -- least the fixed size, the size that `get_size` reads, and at most the capacity, `get_message`
  -- returns it and leaves the further bytes.
  pub get_message_found :
      (b : Buffer ℕ) (noise body rest : List ℕ)
      → length (noise ++ (d.prefix ++ (body ++ rest))) < s.max_size
      → Holds s Valid b (noise ++ (d.prefix ++ (body ++ rest)))
      → 0 < length d.prefix
      → Noise d noise (d.prefix ++ (body ++ rest))
      → d.fixed_size ≤ length (d.prefix ++ body)
      → d.get_size (d.prefix ++ (body ++ rest)) ≡ length (d.prefix ++ body)
      → length (d.prefix ++ body) ≤ d.capacity
      → ((get_message s d b).0 ≡ framed (d.prefix ++ body))
        × Holds s Valid (get_message s d b).1 rest
  get_message_found b noise body rest free h some_prefix quiet fixed size fits =
      let msg = d.prefix ++ body in
      let all = append_assoc d.prefix body rest in
      let found : frame d (noise ++ (d.prefix ++ (body ++ rest))) ≡ (framed msg, rest) =
        frame_behind d noise (body ++ rest) some_prefix quiet
        ∙ ap (cut d) (sym all)
        ∙ cut_whole d msg rest (omega (arith, length-append d.prefix body)) fixed
            (ap d.get_size all ∙ size) fits in
      let agree = get_message-frame law d b (noise ++ (d.prefix ++ (body ++ rest))) free h in
      (
        agree.0 ∙ ap (λ (r : Response × List ℕ). r.0) found,
        subst (λ (r : Response × List ℕ). Holds s Valid (get_message s d b).1 r.1) found agree.1,
      )

  -- For a strategy that keeps what the buffer relies on and a buffer with a slot free that holds
  -- noise and then bytes that start with the nonempty prefix: if these are at least the fixed size
  -- and the size that `get_size` reads, and that is more than the capacity of a message,
  -- `get_message` makes a message of that size, past the capacity.
  pub get_message_overrun :
      (b : Buffer ℕ) (noise body : List ℕ)
      → length (noise ++ (d.prefix ++ body)) < s.max_size
      → Holds s Valid b (noise ++ (d.prefix ++ body))
      → 0 < length d.prefix
      → Noise d noise (d.prefix ++ body)
      → d.fixed_size ≤ length (d.prefix ++ body)
      → d.get_size (d.prefix ++ body) ≤ length (d.prefix ++ body)
      → d.capacity < d.get_size (d.prefix ++ body)
      → (get_message s d b).0 ≡ overrun (d.get_size (d.prefix ++ body))
  get_message_overrun b noise body free h some_prefix quiet fixed size large =
      let found =
        frame_behind d noise body some_prefix quiet
        ∙ cut_overrun d (d.prefix ++ body) (omega (arith, length-append d.prefix body)) fixed size
            large in
      (get_message-frame law d b (noise ++ (d.prefix ++ body)) free h).0
      ∙ ap (λ (r : Response × List ℕ). r.0) found
