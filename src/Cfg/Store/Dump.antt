-- ===== src/Cfg/Store/Dump.antt =====
-- handler.hpp: `dump_unseen_keys` writes the entries of the keys one behind the other.
use emlabcpp.Prelude.{
  ℕ, zero, suc, ◌+◌, ◌-◌, ◌*◌, ◌/◌, ◌≤◌, ◌<◌, ◌≡◌, sym, ap, ◌∙◌, arith, true, false, none, some,
  List, [], ◌∷◌, ◌++◌, append_assoc, append-nil, length, length-append, length-take, length-drop,
  take, drop, take-append-drop, drop-drop, All, ltb, inl, inr,
}
use emlabcpp.Protocol.Serializer.{Endian}
use emlabcpp.Protocol.Serializer.Bytes.{bytes, number, length-bytes}
use emlabcpp.Cfg.{success, UpdateIface, World, returns}
use emlabcpp.Cfg.Cell.{sin_bit_mask, word, store_kval_impl}
use emlabcpp.Cfg.Cell.RoundTrip.{padded, ser_cell-single, ser_cell-multi}
use emlabcpp.Cfg.Entry.{
  Entry, IsEntry, entry_bytes, log, single_bytes, multi_bytes, entry_bytes_long,
}
use emlabcpp.Cfg.Load.Cells.{copy_to-cell}
use emlabcpp.Cfg.Store.{store_key, dump_unseen_keys, copy_to}

-- What `store_kval_impl` gives for a value at the front of the buffer, with room behind it.
store_kval_impl-entry :
    (e : Endian) (key room : ℕ) (value buffer : List ℕ)
    → IsEntry room (record { key = key; value = value })
    → take (length value) buffer ≡ value
    → length value + 8 ≤ length buffer
    → (buffer' : List ℕ) × (store_kval_impl e key buffer (length value)
        ≡ (some (entry_bytes e (record { key = key; value = value })), buffer'))
      × (length buffer' ≡ length buffer)
store_kval_impl-entry e key room value buffer ok front free = elim ok.value_fits [
  | inl (some_byte, short) ↦
      let r : Entry = record { key = key; value = value } in
      let cell = bytes e 8 ((key + sin_bit_mask) * word + number e (padded value)) in
      let eight = length-bytes e 8 ((key + sin_bit_mask) * word + number e (padded value)) in
      (
        take (length value) buffer ++ (cell ++ drop (length value + 8) buffer),
        unfold store_kval_impl in
            ground (
              arith,
              front,
              ser_cell-single e key value ok.key_fits some_byte short,
              single_bytes e r short,
            ),
        omega (
          arith,
          eight,
          length-append (take (length value) buffer) (cell ++ drop (length value + 8) buffer),
          length-append cell (drop (length value + 8) buffer),
          length-take (length value) buffer,
          length-drop (length value + 8) buffer,
        ),
      )
  | inr (k, wide, long, few, fits) ↦
      let r : Entry = record { key = key; value = value } in
      let cell = bytes e 8 (key * word + (length value + 7) / 8) in
      let eight = length-bytes e 8 (key * word + (length value + 7) / 8) in
      (
        take (length value) buffer ++ (cell ++ drop (length value + 8) buffer),
        unfold store_kval_impl in
            ground
              (arith, front, ser_cell-multi e key value ok.key_fits long few, multi_bytes e r long),
        omega (
          arith,
          eight,
          length-append (take (length value) buffer) (cell ++ drop (length value + 8) buffer),
          length-append cell (drop (length value + 8) buffer),
          length-take (length value) buffer,
          length-drop (length value + 8) buffer,
        ),
      )
]

-- An interface over an object with a memory, keys to store and their values.
pub record IsWriter {S : Type 0} (iface : UpdateIface S) (memory : S → List ℕ) (unseen : S → List ℕ)
    (value : ℕ → List ℕ) : Type 0 where
  pub take_none :
      (s : S)
      → unseen s ≡ []
      → ((iface.take_unseen_key s).0 ≡ none) × (memory (iface.take_unseen_key s).1 ≡ memory s)
  pub take_some :
      (s : S) (k : ℕ) (ks : List ℕ)
      → unseen s ≡ k ∷ ks
      → ((iface.take_unseen_key s).0 ≡ some k)
        × (unseen (iface.take_unseen_key s).1 ≡ ks)
        × (memory (iface.take_unseen_key s).1 ≡ memory s)
  pub serialize :
      (s : S) (k : ℕ) (buffer : List ℕ)
      → length (value k) ≤ length buffer
      → (buffer' : List ℕ) × ((iface.serialize_value k buffer s).0
          ≡ (some (length (value k)), buffer'))
        × (take (length (value k)) buffer' ≡ value k)
        × (length buffer' ≡ length buffer)
        × (memory (iface.serialize_value k buffer s).1 ≡ memory s)
        × (unseen (iface.serialize_value k buffer s).1 ≡ unseen s)
  pub write_at :
      (s : S) (addr : ℕ) (bytes : List ℕ)
      → addr + length bytes ≤ length (memory s)
      → ((iface.write addr bytes s).0 ≡ true)
        × (memory (iface.write addr bytes s).1 ≡ copy_to (memory s) addr bytes)
        × (unseen (iface.write addr bytes s).1 ≡ unseen s)

-- the bytes of the entries of some keys, in their order
unfoldable pub dumped : Endian → (ℕ → List ℕ) → List ℕ → List ℕ
dumped e value [] = []
dumped e value (k ∷ ks) = entry_bytes e (record { key = k; value = value k }) ++ dumped e value ks

pub dumped_long :
    (e : Endian) (value : ℕ → List ℕ) (ks : List ℕ) → length ks ≤ length (dumped e value ks)
unfolding dumped
dumped_long e value [] = omega arith
dumped_long e value (k ∷ ks) =
    let r : Entry = record { key = k; value = value k } in
    omega (
      arith,
      entry_bytes_long e r,
      dumped_long e value ks,
      length-append (entry_bytes e r) (dumped e value ks),
    )

-- the same entries as a list of which the last one stands first
abbrev pub entries : (ℕ → List ℕ) → List ℕ → List Entry → List Entry
entries value [] rs = rs
entries value (k ∷ ks) rs = entries value ks (record { key = k; value = value k } ∷ rs)

pub log-entries :
    (e : Endian) (value : ℕ → List ℕ) (ks : List ℕ) (rs : List Entry)
    → log e (entries value ks rs) ≡ log e rs ++ dumped e value ks
unfolding log dumped
log-entries e value [] rs = sym (append-nil (log e rs))
log-entries e value (k ∷ ks) rs =
    log-entries e value ks (record { key = k; value = value k } ∷ rs)
    ∙ append_assoc (log e rs) (entry_bytes e (record { key = k; value = value k }))
        (dumped e value ks)

-- All these keys have values that a buffer with this room can hold.
abbrev pub AllEntries : ℕ → (ℕ → List ℕ) → List ℕ → Type 0
AllEntries room value ks =
    All (λ k. IsEntry room (record { key = k; value = value k }) × (length (value k) ≤ room)) ks

module _ {S : Type 0} (iface : UpdateIface S) (e : Endian) (memory : S → List ℕ)
    (unseen : S → List ℕ) (value : ℕ → List ℕ) (law : IsWriter iface memory unseen value)
    (room : ℕ) where
  -- the bytes of the entry of a key
  abbrev pub entry_of : ℕ → List ℕ
  entry_of k = entry_bytes e (record { key = k; value = value k })

  store_key-entry :
      (addr end_addr k : ℕ) (w : World S)
      → IsEntry room (record { key = k; value = value k })
      → length (value k) ≤ room
      → room + 8 ≤ length w.buffer
      → addr + length (entry_of k) ≤ end_addr
      → addr + length (entry_of k) ≤ length (memory w.object)
      → (w' : World S) × (store_key iface e addr end_addr k w
          ≡ returns (success, addr + length (entry_of k), w'))
        × (memory w'.object ≡ copy_to (memory w.object) addr (entry_of k))
        × (unseen w'.object ≡ unseen w.object)
        × (length w'.buffer ≡ length w.buffer)
  store_key-entry addr end_addr k w ok few roomy fits inside =
      let (buffer, gave, front, same, kept, keys) =
        law.serialize w.object k w.buffer (omega arith) in
      let s = (iface.serialize_value k w.buffer w.object).1 in
      let (buffer', stored, same') =
        store_kval_impl-entry e k room (value k) buffer ok front (omega arith) in
      let wrote =
        law.write_at s addr (entry_of k) (omega (arith, ap (λ (t : List ℕ). length t) kept)) in
      let s' = (iface.write addr (entry_of k) s).1 in
      let free : ltb (end_addr - addr) (length (entry_of k)) ≡ false = ground arith in
      (
        record { object = s'; buffer = buffer' },
        unfold store_key in ground (arith, gave, stored, free, wrote.0),
        wrote.1 ∙ ap (λ (t : List ℕ). copy_to t addr (entry_of k)) kept,
        wrote.2 ∙ keys,
        same' ∙ same,
      )

  dump_none :
      (fuel addr end_addr : ℕ) (w : World S)
      → (iface.take_unseen_key w.object).0 ≡ none
      → dump_unseen_keys iface e (suc fuel) addr end_addr w
        ≡ returns (success, record w { object = (iface.take_unseen_key w.object).1 })
  unfolding dump_unseen_keys
  dump_none fuel addr end_addr w h = ground (arith, h)

  dump_next :
      (fuel addr end_addr addr' k : ℕ) (w w' : World S)
      → (iface.take_unseen_key w.object).0 ≡ some k
      → store_key iface e addr end_addr k (record w { object = (iface.take_unseen_key w.object).1 })
        ≡ returns (success, addr', w')
      → dump_unseen_keys iface e (suc fuel) addr end_addr w
        ≡ dump_unseen_keys iface e fuel addr' end_addr w'
  unfolding dump_unseen_keys
  dump_next fuel addr end_addr addr' k w w' h stored = ground (arith, h, stored)

  -- what `dump_unseen_keys` is to do with the keys, over a gap in the memory
  abbrev pub Dumps : ℕ → List ℕ → ℕ → ℕ → List ℕ → List ℕ → List ℕ → World S → Type 0
  Dumps fuel ks addr end_addr pre gap post w =
      (w' : World S) × (dump_unseen_keys iface e fuel addr end_addr w ≡ returns (success, w'))
      × (memory w'.object
          ≡ pre ++ (dumped e value ks ++ (drop (length (dumped e value ks)) gap ++ post)))

  pub dump-entries :
      (ks : List ℕ) (fuel end_addr : ℕ) (pre gap post : List ℕ) (w : World S)
      → length ks < fuel
      → unseen w.object ≡ ks
      → AllEntries room value ks
      → room + 8 ≤ length w.buffer
      → memory w.object ≡ pre ++ (gap ++ post)
      → length (dumped e value ks) ≤ length gap
      → length pre + length gap ≤ end_addr
      → Dumps fuel ks (length pre) end_addr pre gap post w
  unfolding dumped
  dump-entries ks zero end_addr pre gap post w enough pending ok roomy split fits inside =
      absurd (omega arith)
  dump-entries [] (suc fuel) end_addr pre gap post w enough pending ok roomy split fits inside =
      let taken = law.take_none w.object pending in
      (
        record w { object = (iface.take_unseen_key w.object).1 },
        dump_none fuel (length pre) end_addr w taken.0,
        taken.1 ∙ split,
      )
  dump-entries (k ∷ ks) (suc fuel) end_addr pre gap post w enough pending ok roomy split fits
        inside =
      let b = entry_of k in
      let c = length b in
      let rest = dumped e value ks in
      let both = length-append b rest in
      let taken = law.take_some w.object k ks pending in
      let w1 : World S = record w { object = (iface.take_unseen_key w.object).1 } in
      let split1 : memory w1.object ≡ pre ++ (gap ++ post) = taken.2 ∙ split in
      let size = ap (λ (t : List ℕ). length t) split1 in
      let (w2, stored, written, keys, same) =
        store_key-entry (length pre) end_addr k w1 ok.0.0 ok.0.1 roomy (omega (arith, both))
          (omega (arith, both, size, length-append pre (gap ++ post), length-append gap post)) in
      let split2 : memory w2.object ≡ (pre ++ b) ++ (drop c gap ++ post) =
        written
        ∙ ap (λ (t : List ℕ). copy_to t (length pre) b)
            (split1
              ∙ ap (λ (t : List ℕ). pre ++ t)
                  (ap (λ (t : List ℕ). t ++ post) (sym (take-append-drop c gap))
                    ∙ append_assoc (take c gap) (drop c gap) post))
        ∙ copy_to-cell pre (take c gap) b (drop c gap ++ post)
            (omega (arith, both, length-take c gap))
        ∙ sym (append_assoc pre b (drop c gap ++ post)) in
      let (w3, done, memory3) =
        dump-entries ks fuel end_addr (pre ++ b) (drop c gap) post w2 (omega arith) (keys ∙ taken.1)
          ok.1 (omega (arith, same)) split2 (omega (arith, both, length-drop c gap))
          (omega (arith, both, length-append pre b, length-drop c gap)) in
      (
        w3,
        dump_next fuel (length pre) end_addr (length pre + c) k w w2 taken.0 stored
            ∙ ap (λ (a : ℕ). dump_unseen_keys iface e fuel a end_addr w2)
                (sym (length-append pre b))
            ∙ done,
        memory3
            ∙ append_assoc pre b (rest ++ (drop (length rest) (drop c gap) ++ post))
            ∙ ap (λ (t : List ℕ). pre ++ (b ++ (rest ++ (t ++ post))))
                (drop-drop c (length rest) gap ∙ ap (λ (n : ℕ). drop n gap) (sym both))
            ∙ ap (λ (t : List ℕ). pre ++ t)
                (sym (append_assoc b rest (drop (length (b ++ rest)) gap ++ post))),
      )
