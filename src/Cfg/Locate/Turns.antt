-- ===== src/Cfg/Locate/Turns.antt =====
-- handler.hpp: the pages take turns, since `update` writes the header that `locate_next_page` gives.
use native.Mathlib.Nat.{mul-mod_left, mul-div_cancel}
use emlabcpp.Prelude.{
  ℕ, zero, suc, ◌+◌, ◌-◌, ◌*◌, ◌/◌, ◌%◌, ◌<◌, ◌≡◌, refl, sym, ap, ◌∙◌, arith, true, false, Option,
  none, some, List, ◌∷◌, ◌++◌, set, replicate, ◌==◌, subst, append-nil, ◌⊎◌, inl, inr,
}
use emlabcpp.Cfg.{success, returns}
use emlabcpp.Cfg.Page.{HdrState, a, next}
use emlabcpp.Cfg.Locate.{
  counter_range, rounds, locate_current_page, locate_next_page, current_at, LocateNextInfo, next_at,
}
use emlabcpp.Cfg.Locate.Ring.{
  IsOlder, Headers, current_first, current_run, current_tail, Headers-drop, next_first, next_none,
  next_run, next_tail, next_info,
}

pub returns-injective : {A : Type 0} {x y : A} → returns x ≡ returns y → x ≡ y
returns-injective {x} {y} h = grind (arith, h)

-- `k` pages of the state `st`, at least one, before `r` pages that are older
abbrev pub IsRing : ℕ → ℕ → HdrState → List (Option HdrState) → Type 0
IsRing k r st hs =
    (h : Option HdrState) × IsOlder st h × (hs ≡ replicate (suc k) (some st) ++ replicate r h)

module _ {S : Type 0} (read : ℕ → S → Option (List ℕ) × S) (page_size : ℕ) where
  whole_pages :
      (n mem_size : ℕ)
      → 0 < page_size
      → mem_size ≡ n * page_size
      → n < counter_range
      → ((page_size == 0) ≡ false)
        × ((mem_size % page_size == 0) ≡ true)
        × (mem_size / page_size ≡ n)
        × (rounds read mem_size page_size ≡ n)
  whole_pages n mem_size positive whole narrow =
      let even : mem_size % page_size ≡ 0 =
        ap (λ (m : ℕ). m % page_size) whole ∙ mul-mod_left n page_size in
      let pages : mem_size / page_size ≡ n =
        ap (λ (m : ℕ). m / page_size) whole ∙ mul-div_cancel n positive in
      (ground arith, rw even refl, pages, unfold rounds in omega (arith, pages, narrow))

  module _ (mem_size k r : ℕ) (positive : 0 < page_size)
      (whole : mem_size ≡ (suc k + r) * page_size) (narrow : suc k + r < counter_range) where
    fuel_at : rounds read mem_size page_size ≡ suc (k + r)
    fuel_at = (whole_pages (suc k + r) mem_size positive whole narrow).3 ∙ omega arith

    few_pages : mem_size / page_size < counter_range
    few_pages = omega (arith, (whole_pages (suc k + r) mem_size positive whole narrow).2)

    pub current-IsRing :
        (st : HdrState) (hs : List (Option HdrState)) (s : S)
        → IsRing k r st hs
        → Headers read page_size 0 hs s
        → locate_current_page read mem_size page_size s
          ≡ returns (current_at success (k * page_size), s)
    unfolding locate_current_page
    current-IsRing st hs s ring heads =
        let shape : Headers read page_size 0 (replicate (suc k) (some st) ++ replicate r ring.0) s =
          subst (λ (t : List (Option HdrState)). Headers read page_size 0 t s) ring.2 heads in
        let (some_size, even, pages, all) =
          whole_pages (suc k + r) mem_size positive whole narrow in
        let tail = Headers-drop read page_size k 1 st (replicate r ring.0) s shape.1 in
        let at_end : (0 + 1 + k) * page_size - page_size ≡ k * page_size = omega arith in
        rw (some_size, even, fuel_at)
          (current_first read page_size mem_size (k + r) 0 st
              (replicate k (some st) ++ replicate r ring.0) s shape
            ∙ current_run read page_size mem_size k r 1 st (replicate r ring.0) s shape.1
            ∙ current_tail read page_size mem_size r (1 + k) st ring.0 s few_pages
                (whole ∙ ap (λ (j : ℕ). j * page_size) {x = suc k + r} (omega arith)) ring.1 tail
            ∙ ap (λ (m : ℕ). returns (current_at success m, s))
                {x = (1 + k) * page_size - page_size} (omega arith))

    pub next-IsRing :
        (st : HdrState) (hs : List (Option HdrState)) (s : S)
        → IsRing k r st hs
        → Headers read page_size 0 hs s
        → locate_next_page read mem_size page_size s ≡ returns (next_info page_size (suc k) r st, s)
    unfolding locate_next_page
    next-IsRing st hs s ring heads =
        let shape : Headers read page_size 0 (replicate (suc k) (some st) ++ replicate r ring.0) s =
          subst (λ (t : List (Option HdrState)). Headers read page_size 0 t s) ring.2 heads in
        let (some_size, even, pages, all) =
          whole_pages (suc k + r) mem_size positive whole narrow in
        let tail = Headers-drop read page_size k 1 st (replicate r ring.0) s shape.1 in
        rw (some_size, even, fuel_at)
          (next_first read page_size (k + r) 0 mem_size st
              (replicate k (some st) ++ replicate r ring.0) s shape
            ∙ next_run read page_size k r 1 mem_size st (replicate r ring.0) s shape.1
            ∙ next_tail read page_size r (1 + k) mem_size st ring.0 s few_pages ring.1 tail
            ∙ ap (λ (j : ℕ). returns (next_info page_size j r st, s)) {x = 1 + k} (omega arith))

  pub next-erased :
      (n mem_size : ℕ)
      → 0 < page_size
      → mem_size ≡ n * page_size
      → n < counter_range
      → 0 < n
      → (s : S) → Headers read page_size 0 (replicate n none) s
      → locate_next_page read mem_size page_size s ≡ returns (next_at success 0 a, s)
  next-erased zero mem_size positive whole narrow some_page s heads = absurd (omega arith)
  next-erased (suc n) mem_size positive whole narrow some_page s heads =
      let pages = whole_pages (suc n) mem_size positive whole narrow in
      unfold locate_next_page in
      rw (pages.0, pages.1, pages.3)
        (next_none read page_size n 0 mem_size (replicate n none) s heads
          ∙ ap (λ (m : ℕ). returns (next_at success m a, s)) {x = 0 * page_size} (omega arith))

-- Of `n` pages, those up to page `j` have the state `st`, and the others are older.
abbrev pub RingAt : ℕ → ℕ → HdrState → List (Option HdrState) → Type 0
RingAt n j st hs = (r : ℕ) × (suc j + r ≡ n) × IsRing j r st hs

set_run :
    (k : ℕ) (x h : Option HdrState) (rest : List (Option HdrState))
    → set (replicate k x ++ (h ∷ rest)) k x ≡ replicate (suc k) x ++ rest
set_run zero x h rest = refl
set_run (suc k) x h rest = ap (λ (t : List (Option HdrState)). x ∷ t) (set_run k x h rest)

-- The ring after a turn.
turn_on :
    (k r : ℕ) (st : HdrState) (hs : List (Option HdrState))
    → IsRing k (suc r) st hs
    → IsRing (suc k) r st (set hs (suc k) (some st))
turn_on k r st hs ring = (
  ring.0,
  ring.1,
  ap (λ (t : List (Option HdrState)). set t (suc k) (some st)) ring.2
      ∙ set_run (suc k) (some st) ring.0 (replicate r ring.0),
)

turn_round :
    (k : ℕ) (st : HdrState) (hs : List (Option HdrState))
    → IsRing k 0 st hs
    → IsRing 0 k (next st) (set hs 0 (some (next st)))
turn_round k st hs ring = (
  some st,
  refl,
  ap (λ (t : List (Option HdrState)). set t 0 (some (next st))) ring.2
      ∙ ap (λ (t : List (Option HdrState)). some (next st) ∷ t)
          (append-nil (replicate k (some st))),
)

cancel_page : (page_size i j : ℕ) → 0 < page_size → i * page_size ≡ j * page_size → i ≡ j
cancel_page page_size i j positive same =
    sym (mul-div_cancel i positive) ∙ ap (λ (m : ℕ). m / page_size) same ∙ mul-div_cancel j positive

first_turn : (n : ℕ) → 0 < n → RingAt n 0 a (set (replicate n none) 0 (some a))
first_turn zero h = absurd (omega arith)
first_turn (suc n) h = (n, omega arith, (none, refl, refl))

module _ {S : Type 0} (read : ℕ → S → Option (List ℕ) × S) (page_size n : ℕ)
    (positive : 0 < page_size) where
  -- Headers that the memory can have: an erased memory, and each turn writes the header that
  -- `locate_next_page` gives to the page that it gives.
  pub data Reached : List (Option HdrState) → Type 0 where
    erased : {hs : List (Option HdrState)} → hs ≡ replicate n none → Reached hs
    turned :
        {hs hs' : List (Option HdrState)} {s : S} (j : ℕ) (st : HdrState)
        → Reached hs
        → Headers read page_size 0 hs s
        → locate_next_page read (n * page_size) page_size s
          ≡ returns (next_at success (j * page_size) st, s)
        → hs' ≡ set hs j (some st)
        → Reached hs'

  turn_ring :
      (k j : ℕ) (st st' : HdrState) (hs : List (Option HdrState)) (s : S)
      → n < counter_range
      → RingAt n k st hs
      → Headers read page_size 0 hs s
      → locate_next_page read (n * page_size) page_size s
        ≡ returns (next_at success (j * page_size) st', s)
      → RingAt n j st' (set hs j (some st'))
  turn_ring k j st st' hs s narrow (zero, count, ring) heads e =
      let whole : n * page_size ≡ (suc k + 0) * page_size =
        ap (λ (m : ℕ). m * page_size) (sym count) in
      let found = returns-injective (
        sym (
          next-IsRing read page_size (n * page_size) k 0 positive whole
            (omega (arith, count, narrow)) st hs s ring heads)
        ∙ e) in
      let at_j : 0 ≡ j =
        cancel_page page_size 0 j positive
          (omega (arith, ap (λ (t : LocateNextInfo × S). t.0.addr) found)) in
      let now : next st ≡ st' = ap (λ (t : LocateNextInfo × S). t.0.state) found in
      subst (λ (i : ℕ). RingAt n i st' (set hs i (some st'))) at_j
        (subst (λ (t : HdrState). RingAt n 0 t (set hs 0 (some t))) now
          (k, omega (arith, count), turn_round k st hs ring))
  turn_ring k j st st' hs s narrow (suc r, count, ring) heads e =
      let whole : n * page_size ≡ (suc k + suc r) * page_size =
        ap (λ (m : ℕ). m * page_size) (sym count) in
      let found = returns-injective (
        sym (
          next-IsRing read page_size (n * page_size) k (suc r) positive whole
            (omega (arith, count, narrow)) st hs s ring heads)
        ∙ e) in
      let at_j : suc k ≡ j =
        cancel_page page_size (suc k) j positive
          (ap (λ (t : LocateNextInfo × S). t.0.addr) found) in
      let now : st ≡ st' = ap (λ (t : LocateNextInfo × S). t.0.state) found in
      subst (λ (i : ℕ). RingAt n i st' (set hs i (some st'))) at_j
        (subst (λ (t : HdrState). RingAt n (suc k) t (set hs (suc k) (some t))) now
          (r, omega (arith, count), turn_on k r st hs ring))

  turn_erased :
      (j : ℕ) (st : HdrState) (s : S)
      → n < counter_range
      → 0 < n
      → Headers read page_size 0 (replicate n none) s
      → locate_next_page read (n * page_size) page_size s
        ≡ returns (next_at success (j * page_size) st, s)
      → RingAt n j st (set (replicate n none) j (some st))
  turn_erased j st s narrow some_page heads e =
      let found = returns-injective (
        sym (next-erased read page_size n (n * page_size) positive refl narrow some_page s heads)
        ∙ e) in
      let at_j : 0 ≡ j =
        cancel_page page_size 0 j positive
          (omega (arith, ap (λ (t : LocateNextInfo × S). t.0.addr) found)) in
      let now : a ≡ st = ap (λ (t : LocateNextInfo × S). t.0.state) found in
      subst (λ (i : ℕ). RingAt n i st (set (replicate n none) i (some st))) at_j
        (subst (λ (t : HdrState). RingAt n 0 t (set (replicate n none) 0 (some t))) now
          (first_turn n some_page))

  pub turn :
      (j : ℕ) (st : HdrState) (hs : List (Option HdrState)) (s : S)
      → n < counter_range
      → 0 < n
      → (hs ≡ replicate n none) ⊎ ((k : ℕ) × (old : HdrState) × RingAt n k old hs)
      → Headers read page_size 0 hs s
      → locate_next_page read (n * page_size) page_size s
        ≡ returns (next_at success (j * page_size) st, s)
      → RingAt n j st (set hs j (some st))
  turn j st hs s narrow some_page (inl e0) heads e =
      subst (λ (t : List (Option HdrState)). RingAt n j st (set t j (some st))) (sym e0)
        (turn_erased j st s narrow some_page
          (subst (λ (t : List (Option HdrState)). Headers read page_size 0 t s) e0 heads) e)
  turn j st hs s narrow some_page (inr (k, old, ring)) heads e =
      turn_ring k j old st hs s narrow ring heads e

  -- For a positive page size and at least one and fewer than 2^32 pages, the headers that pages can
  -- have, when each turn writes the state that `locate_next_page` gives into the page that it
  -- gives, are those of an erased memory or a ring: pages of one state, at least one, and behind
  -- them only pages of the state before it, or only erased ones while that state is the first.
  pub Reached-RingAt :
      (hs : List (Option HdrState))
      → n < counter_range
      → 0 < n
      → Reached hs
      → (hs ≡ replicate n none) ⊎ ((k : ℕ) × (st : HdrState) × RingAt n k st hs)
  Reached-RingAt hs narrow some_page (erased e) = inl e
  Reached-RingAt hs narrow some_page (turned {hs = old} {s = s} j st before heads found e) = inr (
    j,
    st,
    subst (RingAt n j st) (sym e)
        (turn j st old s narrow some_page (Reached-RingAt old narrow some_page before) heads found),
  )

  -- For an interface whose reads do not change it, a positive page size and fewer than 2^32 pages,
  -- and headers that pages can have when each turn writes the state that `locate_next_page` gives
  -- into the page that it gives, from an erased memory on: after one more such turn,
  -- `locate_current_page` finds the page that was written.
  pub turn-current :
      (j : ℕ) (st : HdrState) (hs : List (Option HdrState)) (s s' : S)
      → n < counter_range
      → 0 < n
      → Reached hs
      → Headers read page_size 0 hs s
      → locate_next_page read (n * page_size) page_size s
        ≡ returns (next_at success (j * page_size) st, s)
      → Headers read page_size 0 (set hs j (some st)) s'
      → locate_current_page read (n * page_size) page_size s'
        ≡ returns (current_at success (j * page_size), s')
  turn-current j st hs s s' narrow some_page before heads found written =
      let (r, count, ring) =
        turn j st hs s narrow some_page (Reached-RingAt hs narrow some_page before) heads found in
      current-IsRing read page_size (n * page_size) j r positive
        (ap (λ (m : ℕ). m * page_size) (sym count)) (omega (arith, count, narrow)) st
        (set hs j (some st)) s' ring written
