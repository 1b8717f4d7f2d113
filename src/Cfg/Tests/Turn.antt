-- ===== src/Cfg/Tests/Turn.antt =====
-- A turn of the page and the load after it, on a memory of two pages.
use emlabcpp.Prelude.{
  ℕ, ◌+◌, ◌*◌, ◌≤◌, ◌≡◌, refl, ap, arith, true, Option, none, some, List, [], ◌∷◌, ◌++◌, length,
  take, drop, set, replicate, ltb, le→ltb, if◌then◌else◌, inl,
}
use emlabcpp.Protocol.Serializer.{little}
use emlabcpp.Protocol.Serializer.Bytes.{le_bytes, from_le}
use emlabcpp.Cfg.{not_seen, UpdateIface, LoadIface, World}
use emlabcpp.Cfg.Entry.{log}
use emlabcpp.Cfg.Store.{copy_to}
use emlabcpp.Cfg.Store.Dump.{AllEntries, entries}
use emlabcpp.Cfg.Load.{load_stored_config}
use emlabcpp.Cfg.Load.Log.{deliver, outcome, Reads}
use emlabcpp.Cfg.Load.Page.{load_stored_config-log}

-- a memory and the keys that are not yet stored
record Flash : Type 0 where
  memory : List ℕ
  unseen : List ℕ

abbrev read_at : List ℕ → ℕ → Option (List ℕ)
read_at mem addr = if ltb (length mem) (addr + 8) then none else some (take 8 (drop addr mem))

abbrev take_key : List ℕ → Flash → Option ℕ × Flash
take_key [] f = (none, f)
take_key (k ∷ ks) f = (some k, record f { unseen = ks })

abbrev value_of : ℕ → List ℕ
value_of k = (k + 10) ∷ []

abbrev flash : UpdateIface Flash
flash = record {
  read = λ addr f. (read_at f.memory addr, f);
  write = λ addr bytes f. (true, record f { memory = copy_to f.memory addr bytes });
  check_key_cache = λ key f. (not_seen, f);
  value_changed = λ key value f. (true, f);
  serialize_value = λ key buffer f. ((some 1, set buffer 0 (key + 10)), f);
  reset_keys = λ f. (true, record f { unseen = 1 ∷ 2 ∷ [] });
  take_unseen_key = λ f. take_key f.unseen f;
  clear_page = λ addr f. (true, record f { memory = copy_to f.memory addr (replicate 24 0) });
}

abbrev keys : List ℕ
keys = 1 ∷ 2 ∷ []

abbrev blank : World Flash
blank = record { object = record { memory = replicate 48 0; unseen = [] }; buffer = replicate 16 0 }

abbrev first_page : List ℕ
first_page =
    (64 ∷ 191 ∷ replicate 6 0)
    ++ ((11 ∷ 0 ∷ 0 ∷ 0 ∷ 1 ∷ 0 ∷ 0 ∷ 128 ∷ []) ++ (12 ∷ 0 ∷ 0 ∷ 0 ∷ 2 ∷ 0 ∷ 0 ∷ 128 ∷ []))

abbrev stored : World Flash
stored = record {
  object = record { memory = first_page ++ replicate 24 0; unseen = [] };
  buffer = 12 ∷ (12 ∷ 0 ∷ 0 ∷ 0 ∷ 2 ∷ 0 ∷ 0 ∷ 128 ∷ replicate 7 0);
}

-- an object that collects what it is given
abbrev collector : LoadIface (List (ℕ × List ℕ))
collector = record {
  read = λ addr f. (read_at (first_page ++ replicate 24 0) addr, f);
  check_key_cache = λ key f. (not_seen, f);
  on_kval = λ key value f. (true, (key, value) ∷ f);
}

read_at_free :
    (mem : List ℕ) (addr : ℕ)
    → addr + 8 ≤ length mem
    → read_at mem addr ≡ some (take 8 (drop addr mem))
read_at_free mem addr h = rw (le→ltb (length mem) (addr + 8) h) refl

collector-Reads : Reads collector (first_page ++ replicate 24 0)
collector-Reads = λ addr f h.
    ap (λ (t : Option (List ℕ)). (t, f)) (read_at_free (first_page ++ replicate 24 0) addr h)

abbrev nothing : World (List (ℕ × List ℕ))
nothing = record { object = []; buffer = replicate 16 0 }

keys-AllEntries : AllEntries 8 value_of keys
keys-AllEntries = (
  (
    record {
      key_fits = omega arith;
      bytes_fit = (omega arith, tt);
      value_fits = inl (omega arith, omega arith);
    },
    omega arith,
  ),
  (
    (
      record {
        key_fits = omega arith;
        bytes_fit = (omega arith, tt);
        value_fits = inl (omega arith, omega arith);
      },
      omega arith,
    ),
    tt,
  ),
)

logged :
    first_page ++ replicate 24 0
    ≡ (64 ∷ 191 ∷ replicate 6 0)
      ++ (log little (entries value_of keys []) ++ (replicate (3 * 8) 0 ++ []))
unfolding log le_bytes from_le
logged = refl

load_stored_config-log_example :
    outcome collector (load_stored_config collector little 8 48 nothing)
    ≡ some (deliver collector (entries value_of keys []) [])
unfolding log le_bytes
load_stored_config-log_example =
    load_stored_config-log collector little (first_page ++ replicate 24 0) collector-Reads 8
      (omega arith) (64 ∷ 191 ∷ replicate 6 0) [] (entries value_of keys []) 3 nothing logged
      (keys-AllEntries.1.0.0, (keys-AllEntries.0.0, tt)) (omega arith)
