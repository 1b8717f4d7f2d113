-- ===== src/Cfg/Locate/Ring.antt =====
-- handler.hpp: the search for pages whose headers form a ring: pages of one state, then pages of the
-- state before it, or pages with no header while the memory is filled for the first time.
use emlabcpp.Prelude.{
  ℕ, zero, suc, ◌+◌, ◌-◌, ◌*◌, ◌/◌, ◌<◌, ◌≡◌, refl, ap, ◌∙◌, arith, true, false, Option, none, some,
  List, [], ◌∷◌, ◌++◌, replicate, subst,
}
use emlabcpp.Cfg.{success, returns}
use emlabcpp.Cfg.Page.{HdrState, a, b, c, code, next, hdr_to_hdr_state, same_state}
use emlabcpp.Cfg.Locate.{
  counter_range, behind_loop, locate_current_loop, locate_next_loop, current_at, LocateNextInfo,
  next_at,
}

pub same_state_self : (st : HdrState) → same_state st st ≡ true
unfolding same_state code
same_state_self a = refl
same_state_self b = refl
same_state_self c = refl

pub same_state-next : (st : HdrState) → same_state (next st) st ≡ false
unfolding same_state code next
same_state-next a = refl
same_state-next b = refl
same_state-next c = refl

behind_loop-returns :
    {S A : Type 0} (read : ℕ → S → Option (List ℕ) × S) (mem_size page_size : ℕ) (r : A)
    → mem_size / page_size < counter_range
    → behind_loop read mem_size page_size r ≡ returns r
unfolding behind_loop
behind_loop-returns read mem_size page_size r narrow = ground (arith, narrow)

-- what stands in the pages behind those of the state `st`
abbrev pub IsOlder : HdrState → Option HdrState → Type 0
IsOlder st none = st ≡ a
IsOlder st (some old) = next old ≡ st

-- the page behind the run, or the first one when there is none
abbrev pub next_info : ℕ → ℕ → ℕ → HdrState → LocateNextInfo
next_info page_size k zero st = next_at success 0 (next st)
next_info page_size k (suc r) st = next_at success (k * page_size) st

module _ {S : Type 0} (read : ℕ → S → Option (List ℕ) × S) (page_size : ℕ) where
  -- Page `i` and those behind it have these headers, and reading does not change the object.
  abbrev pub Headers : ℕ → List (Option HdrState) → S → Type 0
  Headers i [] s = Unit {0}
  Headers i (h ∷ hs) s =
      ((bytes : List ℕ) × (read (i * page_size) s ≡ (some bytes, s)) × (hdr_to_hdr_state bytes ≡ h))
      × Headers (i + 1) hs s

  pub Headers-drop :
      (k i : ℕ) (st : HdrState) (rest : List (Option HdrState)) (s : S)
      → Headers i (replicate k (some st) ++ rest) s
      → Headers (i + k) rest s
  Headers-drop zero i st rest s h = subst (λ (j : ℕ). Headers j rest s) (omega arith) h
  Headers-drop (suc k) i st rest s h =
      subst (λ (j : ℕ). Headers j rest s) {x = i + 1 + k} (omega arith)
        (Headers-drop k (i + 1) st rest s h.1)

  module _ (mem_size : ℕ) where
    current_same :
        (n i : ℕ) (st : HdrState) (hs : List (Option HdrState)) (s : S)
        → Headers i (some st ∷ hs) s
        → locate_current_loop read mem_size page_size (suc n) i (some st) s
          ≡ locate_current_loop read mem_size page_size n (i + 1) (some st) s
    unfolding locate_current_loop
    current_same n i st hs s h = ground (arith, h.0.1, h.0.2, same_state_self st)

    pub current_first :
        (n i : ℕ) (st : HdrState) (hs : List (Option HdrState)) (s : S)
        → Headers i (some st ∷ hs) s
        → locate_current_loop read mem_size page_size (suc n) i none s
          ≡ locate_current_loop read mem_size page_size n (i + 1) (some st) s
    unfolding locate_current_loop
    current_first n i st hs s h = ground (arith, h.0.1, h.0.2)

    current_stop :
        (n i : ℕ) (st : HdrState) (h : Option HdrState) (hs : List (Option HdrState)) (s : S)
        → IsOlder st h
        → Headers i (h ∷ hs) s
        → locate_current_loop read mem_size page_size (suc n) i (some st) s
          ≡ returns (current_at success (i * page_size - page_size), s)
    unfolding locate_current_loop
    current_stop n i st none hs s older h = ground (arith, h.0.1, h.0.2)
    current_stop n i st (some old) hs s older h =
        ground (arith, h.0.1, h.0.2, older, same_state-next old)

    -- the search in a run of pages of one state, and in what stands behind them
    pub current_run :
        (k n i : ℕ) (st : HdrState) (rest : List (Option HdrState)) (s : S)
        → Headers i (replicate k (some st) ++ rest) s
        → locate_current_loop read mem_size page_size (k + n) i (some st) s
          ≡ locate_current_loop read mem_size page_size n (i + k) (some st) s
    current_run zero n i st rest s h =
        let fuel : 0 + n ≡ n = omega arith in
        let at_i : i + 0 ≡ i = omega arith in rw (fuel, at_i) refl
    current_run (suc k) n i st rest s h =
        let fuel : suc k + n ≡ suc (k + n) = omega arith in
        let at_i : i + suc k ≡ i + 1 + k = omega arith in
        rw (fuel, at_i)
          (current_same (k + n) i st (replicate k (some st) ++ rest) s h
            ∙ current_run k n (i + 1) st rest s h.1)

    pub current_tail :
        (r i : ℕ) (st : HdrState) (h : Option HdrState) (s : S)
        → mem_size / page_size < counter_range
        → mem_size ≡ (i + r) * page_size
        → IsOlder st h
        → Headers i (replicate r h) s
        → locate_current_loop read mem_size page_size r i (some st) s
          ≡ returns (current_at success (i * page_size - page_size), s)
    current_tail zero i st h s narrow whole older heads =
        unfold locate_current_loop in
        behind_loop-returns read mem_size page_size (current_at success (mem_size - page_size), s)
          narrow
        ∙ ap (λ (m : ℕ). returns (current_at success (m - page_size), s))
            (whole ∙ ap (λ (j : ℕ). j * page_size) (omega arith))
    current_tail (suc r) i st h s narrow whole older heads =
        current_stop r i st h (replicate r h) s older heads

  next_same :
      (n i : ℕ) (mem_size : ℕ) (st : HdrState) (hs : List (Option HdrState)) (s : S)
      → Headers i (some st ∷ hs) s
      → locate_next_loop read mem_size page_size (suc n) i (some st) s
        ≡ locate_next_loop read mem_size page_size n (i + 1) (some st) s
  unfolding locate_next_loop
  next_same n i mem_size st hs s h = ground (arith, h.0.1, h.0.2, same_state_self st)

  pub next_first :
      (n i : ℕ) (mem_size : ℕ) (st : HdrState) (hs : List (Option HdrState)) (s : S)
      → Headers i (some st ∷ hs) s
      → locate_next_loop read mem_size page_size (suc n) i none s
        ≡ locate_next_loop read mem_size page_size n (i + 1) (some st) s
  unfolding locate_next_loop
  next_first n i mem_size st hs s h = ground (arith, h.0.1, h.0.2)

  pub next_none :
      (n i : ℕ) (mem_size : ℕ) (hs : List (Option HdrState)) (s : S)
      → Headers i (none ∷ hs) s
      → locate_next_loop read mem_size page_size (suc n) i none s
        ≡ returns (next_at success (i * page_size) a, s)
  unfolding locate_next_loop
  next_none n i mem_size hs s h = ground (arith, h.0.1, h.0.2)

  next_stop :
      (n i : ℕ) (mem_size : ℕ) (st : HdrState) (h : Option HdrState) (hs : List (Option HdrState))
      (s : S)
      → IsOlder st h
      → Headers i (h ∷ hs) s
      → locate_next_loop read mem_size page_size (suc n) i (some st) s
        ≡ returns (next_at success (i * page_size) st, s)
  unfolding locate_next_loop
  next_stop n i mem_size st none hs s older h = ground (arith, h.0.1, h.0.2, older)
  next_stop n i mem_size st (some old) hs s older h =
      ground (arith, h.0.1, h.0.2, older, same_state-next old)

  pub next_run :
      (k n i : ℕ) (mem_size : ℕ) (st : HdrState) (rest : List (Option HdrState)) (s : S)
      → Headers i (replicate k (some st) ++ rest) s
      → locate_next_loop read mem_size page_size (k + n) i (some st) s
        ≡ locate_next_loop read mem_size page_size n (i + k) (some st) s
  next_run zero n i mem_size st rest s h =
      let fuel : 0 + n ≡ n = omega arith in
      let at_i : i + 0 ≡ i = omega arith in rw (fuel, at_i) refl
  next_run (suc k) n i mem_size st rest s h =
      let fuel : suc k + n ≡ suc (k + n) = omega arith in
      let at_i : i + suc k ≡ i + 1 + k = omega arith in
      rw (fuel, at_i)
        (next_same (k + n) i mem_size st (replicate k (some st) ++ rest) s h
          ∙ next_run k n (i + 1) mem_size st rest s h.1)

  pub next_tail :
      (r i : ℕ) (mem_size : ℕ) (st : HdrState) (h : Option HdrState) (s : S)
      → mem_size / page_size < counter_range
      → IsOlder st h
      → Headers i (replicate r h) s
      → locate_next_loop read mem_size page_size r i (some st) s
        ≡ returns (next_info page_size i r st, s)
  next_tail zero i mem_size st h s narrow older heads =
      unfold locate_next_loop in
      behind_loop-returns read mem_size page_size (next_at success 0 (next st), s) narrow
  next_tail (suc r) i mem_size st h s narrow older heads =
      next_stop r i mem_size st h (replicate r h) s older heads
