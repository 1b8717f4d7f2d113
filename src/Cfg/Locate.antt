-- ===== src/Cfg/Locate.antt =====
-- handler.hpp: the search for the current page and for the next one.
pub mod Ring
pub mod Turns
pub mod Memory
pub mod Finish
use emlabcpp.Prelude.{
  ℕ, zero, suc, ◌+◌, ◌-◌, ◌*◌, ◌/◌, ◌%◌, Bool, true, false, Option, none, some, List, ltb, min,
  ◌==◌, if◌then◌else◌,
}
use emlabcpp.Cfg.{
  Exit, returns, undefined, unfinished, Status, success, missing_page, read_error,
  locate_failed_error, mem_not_page_multiply_error,
}
use emlabcpp.Cfg.Page.{HdrState, a, next, hdr_to_hdr_state, same_state}

pub record LocateCurrentInfo : Type 0 where
  pub status : Status
  pub addr : ℕ

abbrev pub current_at : Status → ℕ → LocateCurrentInfo
current_at status addr = record { status = status; addr = addr }

pub record LocateNextInfo : Type 0 where
  pub status : Status
  pub addr : ℕ
  pub state : HdrState

abbrev pub next_at : Status → ℕ → HdrState → LocateNextInfo
next_at status addr state = record { status = status; addr = addr; state = state }

-- The number of values of the page counter, a `uint32_t`
abbrev pub counter_range : ℕ
counter_range = 4294967296

-- The object of the interface is `S`, and its `read` gives a cell or an error.
module _ {S : Type 0} (read : ℕ → S → Option (List ℕ) × S) (mem_size page_size : ℕ) where
  -- What stands behind a loop is reached when its counter can pass the last page. With more pages the
  -- counter starts again at 0, which is not followed any further.
  unfoldable pub behind_loop : {A : Type 0} → A → Exit A
  behind_loop r = if ltb (mem_size / page_size) counter_range then returns r else unfinished

  -- as many rounds as the counter has values
  unfoldable pub rounds : ℕ
  rounds = min (mem_size / page_size) counter_range

  -- The loop with `n` rounds left, from page `i` on.
  unfoldable pub locate_current_loop : ℕ → ℕ → Option HdrState → S → Exit (LocateCurrentInfo × S)
  unfolding behind_loop
  locate_current_loop zero i none s = behind_loop (current_at missing_page 0, s)
  locate_current_loop zero i (some st) s =
      behind_loop (current_at success (mem_size - page_size), s)
  locate_current_loop (suc n) i hdr_st s =
      let addr = i * page_size in
      let (bytes, s') = read addr s in
      elim bytes [
        | none ↦ returns (current_at read_error 0, s')
        | some bytes ↦ elim (hdr_to_hdr_state bytes) [
          | none ↦ elim hdr_st [
            | none ↦ locate_current_loop n (i + 1) none s'
            | some old ↦ returns (current_at success (addr - page_size), s')
          ]
          | some st ↦ elim hdr_st [
            | none ↦ locate_current_loop n (i + 1) (some st) s'
            | some old ↦ elim (same_state old st) [
              | true ↦ locate_current_loop n (i + 1) (some old) s'
              | false ↦ returns (current_at success (addr - page_size), s')
            ]
          ]
        ]
      ]

  -- The remainder by a page size of zero is undefined.
  unfoldable pub locate_current_page : S → Exit (LocateCurrentInfo × S)
  unfolding locate_current_loop rounds
  locate_current_page s =
      if page_size == 0
      then undefined
      else if mem_size % page_size == 0
      then locate_current_loop rounds 0 none s
      else returns (current_at mem_not_page_multiply_error 0, s)

  unfoldable pub locate_next_loop : ℕ → ℕ → Option HdrState → S → Exit (LocateNextInfo × S)
  unfolding behind_loop
  locate_next_loop zero i none s = behind_loop (next_at locate_failed_error 0 a, s)
  locate_next_loop zero i (some st) s = behind_loop (next_at success 0 (next st), s)
  locate_next_loop (suc n) i hdr_st s =
      let addr = i * page_size in
      let (bytes, s') = read addr s in
      elim bytes [
        | none ↦ returns (next_at read_error 0 a, s')
        | some bytes ↦ elim (hdr_to_hdr_state bytes) [
          | none ↦ returns (next_at success addr a, s')
          | some st ↦ elim hdr_st [
            | none ↦ locate_next_loop n (i + 1) (some st) s'
            | some old ↦ elim (same_state old st) [
              | true ↦ locate_next_loop n (i + 1) (some old) s'
              | false ↦ returns (next_at success addr old, s')
            ]
          ]
        ]
      ]

  unfoldable pub locate_next_page : S → Exit (LocateNextInfo × S)
  unfolding locate_next_loop rounds
  locate_next_page s =
      if page_size == 0
      then undefined
      else if mem_size % page_size == 0
      then locate_next_loop rounds 0 none s
      else returns (next_at mem_not_page_multiply_error 0 a, s)
