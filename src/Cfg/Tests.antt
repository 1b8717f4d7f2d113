-- ===== src/Cfg/Tests.antt =====
-- Runs over a memory that is a list of bytes, and the theorems at such memories.
mod Turn
use emlabcpp.Prelude.{
  ℕ, ◌+◌, ◌*◌, ◌≡◌, refl, arith, true, false, Option, none, some, List, [], ◌∷◌, ◌++◌, length, take,
  drop, set, replicate, ltb, if◌then◌else◌, ◌⊎◌,
}
use emlabcpp.Protocol.Serializer.{little}
use emlabcpp.Cfg.{
  undefined, Status, success, CacheRes, UpdateIface, LoadIface, World, Exit, returns,
}
use emlabcpp.Cfg.Page.{HdrState, a, hdr_to_hdr_state, get_hdr, same_state}
use emlabcpp.Cfg.Locate.{locate_current_page, locate_next_page, current_at, next_at}
use emlabcpp.Cfg.Locate.Ring.{Headers}
use emlabcpp.Cfg.Locate.Turns.{Reached, erased, turned, RingAt, turn-current, Reached-RingAt}
use emlabcpp.Cfg.Cell.{ser_cell, deser_cell, store_kval_impl, single}
use emlabcpp.Cfg.Callbacks.{pop_from_container, key_check_unseen_container}
use emlabcpp.Protocol.Serializer.Bytes.{le_bytes, from_le}
use emlabcpp.Cfg.Store.{
  update, copy_to, turn_page, dump_unseen_keys, store_key, decr_addr, manifest_value,
}
use emlabcpp.Cfg.Load.{load, load_stored_config, load_loop}

-- a device with a memory, the keys that are still to be stored or loaded, and what was loaded
record Device : Type 0 where
  memory : List ℕ
  unseen : List ℕ
  loaded : List (ℕ × List ℕ)

abbrev read_memory : ℕ → List ℕ → Option (List ℕ)
read_memory addr mem = if ltb (length mem) (addr + 8) then none else some (take 8 (drop addr mem))

abbrev check_unseen : ℕ → Device → CacheRes × Device
check_unseen key d =
    let found = key_check_unseen_container d.unseen key in (found.0, record d { unseen = found.1 })

-- The value of a key is the key plus 10, in one byte.
abbrev saver : UpdateIface Device
saver = record {
  read = λ addr d. (read_memory addr d.memory, d);
  write = λ addr bytes d. (true, record d { memory = copy_to d.memory addr bytes });
  check_key_cache = check_unseen;
  value_changed = λ key value d. (true, d);
  serialize_value = λ key buffer d. ((some 1, (key + 10) ∷ drop 1 buffer), d);
  reset_keys = λ d. (true, record d { unseen = 1 ∷ 2 ∷ [] });
  take_unseen_key =
      λ d. let popped = pop_from_container d.unseen in (popped.0, record d { unseen = popped.1 });
  clear_page = λ addr d. (true, record d { memory = copy_to d.memory addr (replicate 24 0) });
}

abbrev loader : LoadIface Device
loader = record {
  read = λ addr d. (read_memory addr d.memory, d);
  check_key_cache = check_unseen;
  on_kval = λ key value d. (true, record d { loaded = (key, value) ∷ d.loaded });
}

-- two pages of three cells
abbrev blank : World Device
blank = record {
  object = record { memory = replicate 48 0; unseen = 1 ∷ 2 ∷ []; loaded = [] };
  buffer = replicate 16 0;
}

object_after : {S : Type 0} → S → Exit (Status × World S) → S
object_after s (returns r) = r.1.object
object_after s other = s

abbrev saved : World Device
saved = record {
  object = record (object_after blank.object (update saver little 48 24 blank)) {
    unseen = 1 ∷ 2 ∷ [];
  };
  buffer = replicate 16 0;
}

saved_memory :
    saved.object.memory
    ≡ (64 ∷ 191 ∷ replicate 6 0)
      ++ ((12 ∷ 0 ∷ 0 ∷ 0 ∷ 2 ∷ 0 ∷ 0 ∷ 128 ∷ [])
          ++ ((11 ∷ 0 ∷ 0 ∷ 0 ∷ 1 ∷ 0 ∷ 0 ∷ 128 ∷ []) ++ replicate 24 0))
unfolding object_after update locate_current_page hdr_to_hdr_state turn_page locate_next_page
    dump_unseen_keys pop_from_container store_key store_kval_impl le_bytes get_hdr from_le
saved_memory = refl

-- Both values are read back, each filled up to four bytes.
loaded_values :
    (object_after saved.object (load loader little 48 24 saved)).loaded
    ≡ (2, 12 ∷ 0 ∷ 0 ∷ 0 ∷ []) ∷ (1, 11 ∷ 0 ∷ 0 ∷ 0 ∷ []) ∷ []
unfolding object_after update locate_current_page hdr_to_hdr_state turn_page locate_next_page
    dump_unseen_keys pop_from_container store_key store_kval_impl le_bytes get_hdr from_le load
    load_stored_config load_loop decr_addr deser_cell manifest_value key_check_unseen_container
loaded_values = refl

-- three pages of one cell, of which one is written
abbrev read_bytes : ℕ → List ℕ → Option (List ℕ) × List ℕ
read_bytes addr mem = (read_memory addr mem, mem)

abbrev one_page : List (Option HdrState)
one_page = some a ∷ none ∷ none ∷ []

abbrev zero_memory : List ℕ
zero_memory = replicate 24 0

abbrev one_memory : List ℕ
one_memory = 64 ∷ 191 ∷ replicate 22 0

abbrev two_memory : List ℕ
two_memory = 64 ∷ 191 ∷ (replicate 6 0 ++ (64 ∷ 191 ∷ replicate 14 0))

zero-Headers : Headers read_bytes 8 0 (replicate 3 none) zero_memory
unfolding hdr_to_hdr_state
zero-Headers = ((_, refl, refl), ((_, refl, refl), ((_, refl, refl), tt)))

one-Headers : Headers read_bytes 8 0 one_page one_memory
unfolding hdr_to_hdr_state
one-Headers = ((_, refl, refl), ((_, refl, refl), ((_, refl, refl), tt)))

two-Headers : Headers read_bytes 8 0 (set one_page 1 (some a)) two_memory
unfolding hdr_to_hdr_state
two-Headers = ((_, refl, refl), ((_, refl, refl), ((_, refl, refl), tt)))

one-Reached : Reached read_bytes 8 3 (omega arith) one_page
unfolding locate_next_page hdr_to_hdr_state
one-Reached = turned 0 a (erased refl) zero-Headers refl refl

one_next :
    locate_next_page read_bytes 24 8 one_memory ≡ returns (next_at success (1 * 8) a, one_memory)
unfolding locate_next_page hdr_to_hdr_state
one_next = refl

turn-current_example :
    locate_current_page read_bytes 24 8 two_memory ≡ returns (current_at success 8, two_memory)
turn-current_example =
    turn-current read_bytes 8 3 (omega arith) 1 a one_page one_memory two_memory (omega arith)
      (omega arith) one-Reached one-Headers one_next two-Headers

Reached-RingAt_example :
    (one_page ≡ replicate 3 none) ⊎ ((k : ℕ) × (st : HdrState) × RingAt 3 k st one_page)
Reached-RingAt_example =
    Reached-RingAt read_bytes 8 3 (omega arith) one_page (omega arith) (omega arith) one-Reached

-- The second page was erased for a state `b`, and its header was not written: the next turn gives
-- it the state `a`, and then the first page is found and not the second.
interrupted :
    locate_next_page read_bytes 24 8 (128 ∷ 127 ∷ (replicate 14 0 ++ (64 ∷ 191 ∷ replicate 6 0)))
    ≡ returns (next_at success 8 a, 128 ∷ 127 ∷ (replicate 14 0 ++ (64 ∷ 191 ∷ replicate 6 0)))
unfolding locate_next_page hdr_to_hdr_state
interrupted = refl

interrupted_current :
    locate_current_page read_bytes 24 8
      (128 ∷ 127 ∷ (replicate 6 0 ++ (64 ∷ 191 ∷ (replicate 6 0 ++ (64 ∷ 191 ∷ replicate 6 0)))))
    ≡ returns (
      current_at success 0,
      128 ∷ 127 ∷ (replicate 6 0 ++ (64 ∷ 191 ∷ (replicate 6 0 ++ (64 ∷ 191 ∷ replicate 6 0)))),
    )
unfolding locate_current_page hdr_to_hdr_state same_state
interrupted_current = refl

-- The key 2 ^ 31 passes the test of `ser_cell`, and is read back as the key zero.
key_lost : ser_cell little 2147483648 (7 ∷ []) ≡ some (single, 7 ∷ 0 ∷ 0 ∷ 0 ∷ 0 ∷ 0 ∷ 0 ∷ 128 ∷ [])
unfolding ser_cell le_bytes from_le
key_lost = refl

key_lost_read :
    deser_cell little (7 ∷ 0 ∷ 0 ∷ 0 ∷ 0 ∷ 0 ∷ 0 ∷ 128 ∷ [])
    ≡ some (record { is_seq = false; key = 0; val = 7 })
unfolding deser_cell from_le
key_lost_read = refl

-- A page size of zero is not tested.
no_page_size : locate_current_page read_bytes 24 0 one_memory ≡ undefined
unfolding locate_current_page
no_page_size = refl
