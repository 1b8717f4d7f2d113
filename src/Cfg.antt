-- ===== src/Cfg.antt =====
-- include/emlabcpp/experimental/cfg: configuration values in pages of a memory. What the modules of
-- it share: the status codes, the interfaces that the user implements, and how a run ends.
pub mod Page
pub mod Cell
pub mod Entry
pub mod Locate
pub mod Store
pub mod Load
pub mod Callbacks
pub mod Link
mod Tests
use emlabcpp.Prelude.{ℕ, Bool, Option, List}

-- `cell_size` and `hcell_size`
abbrev pub cell_size : ℕ
cell_size = 8

abbrev pub hcell_size : ℕ
hcell_size = 4

-- what a free cell is full of
abbrev pub erased_byte : ℕ
erased_byte = 0

pub data Status : Type 0 where
  success : Status
  full : Status
  missing_page : Status
  serialize_value_error : Status
  write_error : Status
  read_error : Status
  deser_error : Status
  reset_keys_error : Status
  clear_error : Status
  locate_failed_error : Status
  on_kval_error : Status
  mem_not_page_multiply_error : Status

pub data CacheRes : Type 0 where
  seen not_seen : CacheRes

-- The virtual functions of the interfaces, over the state `S` of the object that implements them.
-- `serialize_value` has the bytes of the buffer, and gives the size of what it used and the bytes
-- after it.
pub record UpdateIface (S : Type 0) : Type 0 where
  pub read : ℕ → S → Option (List ℕ) × S
  pub write : ℕ → List ℕ → S → Bool × S
  pub check_key_cache : ℕ → S → CacheRes × S
  pub value_changed : ℕ → List ℕ → S → Bool × S
  pub serialize_value : ℕ → List ℕ → S → (Option ℕ × List ℕ) × S
  pub reset_keys : S → Bool × S
  pub take_unseen_key : S → Option ℕ × S
  pub clear_page : ℕ → S → Bool × S

pub record LoadIface (S : Type 0) : Type 0 where
  pub read : ℕ → S → Option (List ℕ) × S
  pub check_key_cache : ℕ → S → CacheRes × S
  pub on_kval : ℕ → List ℕ → S → Bool × S

-- The object and its buffer, which `get_buffer` gives.
pub record World (S : Type 0) : Type 0 where
  pub object : S
  pub buffer : List ℕ

-- `undefined` is the read of an empty optional, `unfinished` a loop that is out of fuel.
pub data Exit (A : Type 0) : Type 0 where
  returns : A → Exit A
  undefined : Exit A
  unfinished : Exit A
