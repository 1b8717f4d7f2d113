-- ===== src/Cfg/Locate/Memory.antt =====
-- handler.hpp: the headers of pages after one page of the memory was written.
use mathlib.Core.Option.{some-injective}
use native.Mathlib.Nat.{mul-le-mul_right}
use emlabcpp.Prelude.{
  ℕ, zero, suc, ◌+◌, ◌-◌, ◌*◌, ◌≤◌, ◌<◌, ◌≡◌, sym, ap, ◌∙◌, arith, Option, some, List, [], ◌∷◌,
  ◌++◌, length, length-append, length-replicate, length-set, length-drop, take, drop, drop-drop,
  drop-append, take_front, drop_front, set,
}
use emlabcpp.Cfg.Page.{HdrState, hdr_to_hdr_state}
use emlabcpp.Cfg.Locate.Ring.{Headers}
use emlabcpp.Cfg.Locate.Turns.{Reached, erased, turned}

-- Reading gives the cells of the memory that an object has, and does not change the object.
abbrev pub ReadsCells : {S : Type 0} → (ℕ → S → Option (List ℕ) × S) → (S → List ℕ) → Type 0
ReadsCells {S} read memory =
    (addr : ℕ) (s : S)
    → addr + 8 ≤ length (memory s)
    → read addr s ≡ (some (take 8 (drop addr (memory s))), s)

pub Reached-length :
    {S : Type 0} (read : ℕ → S → Option (List ℕ) × S) (page_size n : ℕ) (positive : 0 < page_size)
    (hs : List (Option HdrState))
    → Reached read page_size n positive hs
    → length hs ≡ n
Reached-length read page_size n positive hs (erased e) =
    ap (λ (t : List (Option HdrState)). length t) e ∙ length-replicate n _
Reached-length read page_size n positive hs (turned {hs = old} j st before heads found e) =
    ap (λ (t : List (Option HdrState)). length t) e
    ∙ length-set old j (some st)
    ∙ Reached-length read page_size n positive old before

cell_before :
    (addr : ℕ) (pre xs ys : List ℕ)
    → addr + 8 ≤ length pre
    → take 8 (drop addr (pre ++ xs)) ≡ take 8 (drop addr (pre ++ ys))
cell_before addr pre xs ys h =
    let room : 8 ≤ length (drop addr pre) = omega (arith, h, length-drop addr pre) in
    rw (drop_front addr pre xs (omega arith), drop_front addr pre ys (omega arith))
      (take_front 8 (drop addr pre) xs room ∙ sym (take_front 8 (drop addr pre) ys room))

drop_past :
    (addr : ℕ) (pre page post : List ℕ)
    → length pre + length page ≤ addr
    → drop addr (pre ++ (page ++ post)) ≡ drop (addr - (length pre + length page)) post
drop_past addr pre page post h =
    let rest = addr - (length pre + length page) in
    ap (λ (k : ℕ). drop k (pre ++ (page ++ post))) {x = addr}
      {y = length pre + (length page + rest)} (omega (arith, h))
    ∙ sym (drop-drop (length pre) (length page + rest) (pre ++ (page ++ post)))
    ∙ ap (drop (length page + rest)) (drop-append pre (page ++ post))
    ∙ sym (drop-drop (length page) rest (page ++ post))
    ∙ ap (drop rest) (drop-append page post)

module _ {S T : Type 0} (read : ℕ → S → Option (List ℕ) × S) (memory : S → List ℕ)
    (reads : ReadsCells read memory) (read' : ℕ → T → Option (List ℕ) × T) (memory' : T → List ℕ)
    (reads' : ReadsCells read' memory') (page_size : ℕ) (cell : 8 ≤ page_size) where
  -- the header of a page whose first cell is the same in both memories
  same_header :
      (i : ℕ) (h : Option HdrState) (s : S) (t : T)
      → i * page_size + 8 ≤ length (memory s)
      → i * page_size + 8 ≤ length (memory' t)
      → take 8 (drop (i * page_size) (memory s)) ≡ take 8 (drop (i * page_size) (memory' t))
      → (bytes : List ℕ) × (read (i * page_size) s ≡ (some bytes, s)) × (hdr_to_hdr_state bytes ≡ h)
      → (bytes : List ℕ) × (read' (i * page_size) t ≡ (some bytes, t))
        × (hdr_to_hdr_state bytes ≡ h)
  same_header i h s t inside inside' same (bytes, found, header) =
      let now = take 8 (drop (i * page_size) (memory s)) in
      let equal : now ≡ bytes =
        some-injective now bytes
          (ap (λ (r : Option (List ℕ) × S). r.0) (sym (reads (i * page_size) s inside) ∙ found)) in
      (
        take 8 (drop (i * page_size) (memory' t)),
        reads' (i * page_size) t inside',
        ap hdr_to_hdr_state (sym same ∙ equal) ∙ header,
      )

  module _ (j : ℕ) (st : HdrState) (pre page page' post : List ℕ) (s : S) (t : T)
      (split : memory s ≡ pre ++ (page ++ post)) (split' : memory' t ≡ pre ++ (page' ++ post))
      (at_j : length pre ≡ j * page_size) (whole : length page ≡ page_size)
      (whole' : length page' ≡ page_size) (header : hdr_to_hdr_state (take 8 page') ≡ some st) where
    size' : length (memory' t) ≡ length (memory s)
    size' = omega (
      arith,
      ap (λ (m : List ℕ). length m) split,
      ap (λ (m : List ℕ). length m) split',
      length-append pre (page ++ post),
      length-append pre (page' ++ post),
      length-append page post,
      length-append page' post,
      whole,
      whole',
    )

    inside_page :
        (i : ℕ) (h : Option HdrState) (hs : List (Option HdrState))
        → (i + length (h ∷ hs)) * page_size ≤ length (memory s)
        → i * page_size + page_size ≤ length (memory s)
    inside_page i h hs fits =
        let one : (i + 1) * page_size ≤ (i + length (h ∷ hs)) * page_size =
          mul-le-mul_right page_size (omega arith) in
        omega (arith, one, fits)

    next_fits :
        (i : ℕ) (h : Option HdrState) (hs : List (Option HdrState))
        → (i + length (h ∷ hs)) * page_size ≤ length (memory s)
        → (i + 1 + length hs) * page_size ≤ length (memory s)
    next_fits i h hs fits =
        let same : (i + 1 + length hs) * page_size ≡ (i + length (h ∷ hs)) * page_size =
          ap (λ (k : ℕ). k * page_size) {x = i + 1 + length hs} {y = i + length (h ∷ hs)}
            (omega arith) in
        omega (arith, same, fits)

    kept_behind :
        (i : ℕ) (hs : List (Option HdrState))
        → j < i
        → (i + length hs) * page_size ≤ length (memory s)
        → Headers read page_size i hs s
        → Headers read' page_size i hs t
    kept_behind i [] behind fits heads = tt
    kept_behind i (h ∷ hs) behind fits heads =
        let past : (j + 1) * page_size ≤ i * page_size =
          mul-le-mul_right page_size (omega (arith, behind)) in
        let inside : i * page_size + page_size ≤ length (memory s) = inside_page i h hs fits in
        let far : length pre + length page ≤ i * page_size = omega (arith, past, at_j, whole) in
        let far' : length pre + length page' ≤ i * page_size = omega (arith, past, at_j, whole') in
        let sizes : i * page_size - (length pre + length page)
            ≡ i * page_size - (length pre + length page') =
          omega (arith, whole, whole') in
        let same : drop (i * page_size) (memory s) ≡ drop (i * page_size) (memory' t) =
          ap (drop (i * page_size)) split
          ∙ drop_past (i * page_size) pre page post far
          ∙ ap (λ (k : ℕ). drop k post) sizes
          ∙ sym (drop_past (i * page_size) pre page' post far')
          ∙ ap (drop (i * page_size)) (sym split') in
        (
          same_header i h s t (omega (arith, inside, cell)) (omega (arith, inside, cell, size'))
              (ap (take 8) same) heads.0,
          kept_behind (i + 1) hs (omega (arith, behind)) (next_fits i h hs fits) heads.1,
        )

    -- The page `j` has the header that was written, and the others keep theirs.
    pub Headers-written :
        (k i : ℕ) (hs : List (Option HdrState))
        → j ≡ i + k
        → (i + length hs) * page_size ≤ length (memory s)
        → Headers read page_size i hs s
        → Headers read' page_size i (set hs k (some st)) t
    Headers-written k i [] at fits heads = tt
    Headers-written zero i (h ∷ hs) at fits heads =
        let inside : i * page_size + page_size ≤ length (memory s) = inside_page i h hs fits in
        let there : i * page_size ≡ length pre =
          ap (λ (m : ℕ). m * page_size) {x = i} {y = j} (omega (arith, at)) ∙ sym at_j in
        let cell_of : take 8 (drop (i * page_size) (memory' t)) ≡ take 8 page' =
          ap (λ (m : List ℕ). take 8 (drop (i * page_size) m)) split'
          ∙ ap (λ (a : ℕ). take 8 (drop a (pre ++ (page' ++ post)))) there
          ∙ ap (take 8) (drop-append pre (page' ++ post))
          ∙ take_front 8 page' post (omega (arith, whole', cell)) in
        (
          (
            take 8 (drop (i * page_size) (memory' t)),
            reads' (i * page_size) t (omega (arith, inside, cell, size')),
            ap hdr_to_hdr_state cell_of ∙ header,
          ),
          kept_behind (i + 1) hs (omega (arith, at)) (next_fits i h hs fits) heads.1,
        )
    Headers-written (suc k) i (h ∷ hs) at fits heads =
        let inside : i * page_size + page_size ≤ length (memory s) = inside_page i h hs fits in
        let before : (i + 1) * page_size ≤ j * page_size =
          mul-le-mul_right page_size (omega (arith, at)) in
        let same : take 8 (drop (i * page_size) (memory s))
            ≡ take 8 (drop (i * page_size) (memory' t)) =
          ap (λ (m : List ℕ). take 8 (drop (i * page_size) m)) split
          ∙ cell_before (i * page_size) pre (page ++ post) (page' ++ post)
              (omega (arith, before, at_j, cell))
          ∙ ap (λ (m : List ℕ). take 8 (drop (i * page_size) m)) (sym split') in
        (
          same_header i h s t (omega (arith, inside, cell)) (omega (arith, inside, cell, size'))
              same heads.0,
          Headers-written k (i + 1) hs (omega (arith, at)) (next_fits i h hs fits) heads.1,
        )
