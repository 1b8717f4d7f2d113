-- ===== src/Cfg/Load/Replay.antt =====
-- handler.hpp: one step of `load` over an entry.
use emlabcpp.Prelude.{
  ℕ, suc, ◌+◌, ◌-◌, ◌*◌, ◌/◌, ◌≤◌, ◌<◌, ◌≡◌, refl, sym, ap, ap₂, ◌∙◌, arith, true, false, some,
  List, [], ◌∷◌, ◌++◌, append_assoc, length, length-append, length-take, length-drop, take, drop,
  take-append, take-append-drop, leb, le→leb, inl, inr,
}
use emlabcpp.Protocol.Serializer.{Endian}
use emlabcpp.Protocol.Serializer.Bytes.{bytes, number, length-bytes}
use emlabcpp.Protocol.Serializer.RoundTrip.{bytes-number}
use emlabcpp.Cfg.{LoadIface}
use emlabcpp.Cfg.Cell.{sin_bit_mask, word, DeserRes}
use emlabcpp.Cfg.Cell.RoundTrip.{
  padded, length-padded, padded-IsByte, word_lt, deser_cell-single, deser_cell-multi,
}
use emlabcpp.Cfg.Store.{decr_addr, manifest, manifest_loop, manifest_value, copy_to}
use emlabcpp.Cfg.Store.Bounds.{length-copy_to}
use emlabcpp.Cfg.Load.{load_loop}
use emlabcpp.Cfg.Entry.{Entry, IsEntry, entry_bytes, given, single_bytes, multi_bytes}
use emlabcpp.Cfg.Load.Log.{deliver, outcome, Reads, load_entry}
use emlabcpp.Cfg.Load.Cells.{decr_addr-down, decr_addr-back, read_cell, manifest_cells}

given_single : (r : Entry) → length r.value ≤ 4 → given r ≡ padded r.value
given_single r short = rw (le→leb (length r.value) 4 short) refl

given_multi : (r : Entry) → 4 < length r.value → given r ≡ r.value
given_multi r long = let test : leb (length r.value) 4 ≡ false = ground arith in rw test refl

module _ {S : Type 0} (iface : LoadIface S) (e : Endian) (mem : List ℕ) (law : Reads iface mem)
    (room : ℕ) (word_room : 4 ≤ room) where
  -- From `base` on the loop delivers these entries, whatever the buffer holds.
  abbrev pub Delivers : ℕ → ℕ → ℕ → List Entry → Type 0
  Delivers fuel start addr rs =
      (s : S) (buffer : List ℕ)
      → room ≤ length buffer
      → outcome iface (load_loop iface e fuel start addr (record { object = s; buffer = buffer }))
        ≡ some (deliver iface rs s)

  single_value :
      (key val start addr : ℕ) (s : S) (buffer : List ℕ)
      → manifest_value iface.read e
          (record { is_seq = false; key = key; val = val })
          start
          addr
          (record { object = s; buffer = buffer })
        ≡ manifest
            (bytes e 4 val)
            addr
            (record { object = s; buffer = copy_to buffer 0 (bytes e 4 val) })
  unfolding manifest_value
  single_value key val start addr s buffer = refl

  single_step :
      (fuel start : ℕ) (pre post : List ℕ) (r : Entry) (rs : List Entry)
      → start ≤ length pre
      → mem ≡ pre ++ (entry_bytes e r ++ post)
      → IsEntry room r
      → 0 < length r.value
      → length r.value ≤ 4
      → Delivers fuel start (length pre) rs
      → Delivers (suc fuel) start (length pre + length (entry_bytes e r)) (r ∷ rs)
  single_step fuel start pre post r rs above split ok some_byte short ih s buffer roomy =
      let val = number e (padded r.value) in
      let cell = bytes e 8 ((r.key + sin_bit_mask) * word + val) in
      let eight : length cell ≡ 8 = length-bytes e 8 ((r.key + sin_bit_mask) * word + val) in
      let c : DeserRes = record { is_seq = false; key = r.key; val = val } in
      let same = single_bytes e r short in
      let split' : mem ≡ pre ++ (cell ++ post) =
        split ∙ ap (λ (t : List ℕ). pre ++ (t ++ post)) same in
      let back : bytes e 4 val ≡ given r =
        ap (λ (k : ℕ). bytes e k val) (sym (length-padded r.value short))
        ∙ bytes-number e (padded r.value) (padded-IsByte r.value ok.bytes_fit)
        ∙ sym (given_single r short) in
      let buffer' = copy_to buffer 0 (bytes e 4 val) in
      let roomy' : room ≤ length buffer' = omega (
        arith,
        length-bytes e 4 val,
        length-copy_to buffer 0 (bytes e 4 val) (omega (arith, length-bytes e 4 val)),
      ) in
      ap
        (λ (k : ℕ).
          outcome iface
            (load_loop iface e (suc fuel) start k (record { object = s; buffer = buffer })))
        {x = length pre + length (entry_bytes e r)} {y = length pre + 8}
        (omega (arith, ap (λ (t : List ℕ). length t) same, eight))
      ∙ load_entry iface e fuel start (length pre + 8) (length pre) (length pre) s buffer buffer' c
          r rs (decr_addr-down start (length pre) above)
          (read_cell iface mem law pre cell post s eight split')
          (deser_cell-single e r.key val ok.key_fits (word_lt e r.value short ok.bytes_fit)) refl
          (λ s'.
            single_value r.key val start (length pre) s' buffer
            ∙ ap
                (λ (t : List ℕ). manifest t (length pre) (record { object = s'; buffer = buffer' }))
                back)
          refl (λ s'. ih s' buffer roomy) (λ s'. ih s' buffer' roomy')

  multi_value :
      (key n start addr : ℕ) (s : S) (buffer : List ℕ)
      → manifest_value iface.read e
          (record { is_seq = true; key = key; val = n })
          start
          addr
          (record { object = s; buffer = buffer })
        ≡ manifest_loop iface.read n n start addr (record { object = s; buffer = buffer })
  unfolding manifest_value
  multi_value key n start addr s buffer = refl

  whole_value :
      (key k start : ℕ) (pre value post buffer : List ℕ) (s : S)
      → start ≤ length pre
      → mem ≡ pre ++ (value ++ post)
      → length value ≡ k * 8
      → length value ≤ length buffer
      → manifest_value iface.read e
          (record { is_seq = true; key = key; val = k })
          start
          (length (pre ++ value))
          (record { object = s; buffer = buffer })
        ≡ manifest value (length pre) (record { object = s; buffer = value ++ drop (k * 8) buffer })
  whole_value key k start pre value post buffer s above split wide fits =
      let at = λ (a : ℕ) (b : List ℕ).
        manifest_loop iface.read k k start a (record { object = s; buffer = b }) in
      let rest = drop (k * 8) buffer in
      multi_value key k start (length (pre ++ value)) s buffer
      ∙ ap₂ at (length-append pre value) (sym (take-append-drop (k * 8) buffer))
      ∙ manifest_cells iface mem law k k start pre value [] post (take (k * 8) buffer) rest s above
          split wide (omega (arith, length-take (k * 8) buffer))
      ∙ ap (λ (t : List ℕ). manifest t (length pre) (record { object = s; buffer = value ++ rest }))
          (ap (λ (n : ℕ). take n (value ++ rest)) (sym wide) ∙ take-append value rest)

  multi_step :
      (fuel start : ℕ) (pre post : List ℕ) (r : Entry) (rs : List Entry) (k : ℕ)
      → start ≤ length pre
      → mem ≡ pre ++ (entry_bytes e r ++ post)
      → IsEntry room r
      → length r.value ≡ k * 8
      → 4 < length r.value
      → length r.value < word - 8
      → length r.value ≤ room
      → Delivers fuel start (length pre) rs
      → Delivers (suc fuel) start (length pre + length (entry_bytes e r)) (r ∷ rs)
  multi_step fuel start pre post r rs k above split ok wide long few fits ih s buffer roomy =
      let value = r.value in
      let cells : (length value + 7) / 8 ≡ k = omega (arith, wide) in
      let cell = bytes e 8 (r.key * word + k) in
      let eight : length cell ≡ 8 = length-bytes e 8 (r.key * word + k) in
      let c : DeserRes = record { is_seq = true; key = r.key; val = k } in
      let same : entry_bytes e r ≡ value ++ cell =
        multi_bytes e r long ∙ ap (λ (n : ℕ). value ++ bytes e 8 (r.key * word + n)) cells in
      let split' : mem ≡ pre ++ (value ++ (cell ++ post)) =
        split
        ∙ ap (λ (t : List ℕ). pre ++ t)
            (ap (λ (t : List ℕ). t ++ post) same ∙ append_assoc value cell post) in
      let split'' : mem ≡ (pre ++ value) ++ (cell ++ post) =
        split' ∙ sym (append_assoc pre value (cell ++ post)) in
      let rest = drop (k * 8) buffer in
      let low = length (pre ++ value) in
      ap
        (λ (a : ℕ).
          outcome iface
            (load_loop iface e (suc fuel) start a (record { object = s; buffer = buffer })))
        {x = length pre + length (entry_bytes e r)} {y = low + 8}
        (omega (
          arith,
          ap (λ (t : List ℕ). length t) same,
          length-append value cell,
          length-append pre value,
          eight,
        ))
      ∙ load_entry iface e fuel start (low + 8) low (length pre) s buffer (value ++ rest) c r rs
          (decr_addr-down start low (omega (arith, length-append pre value)))
          (read_cell iface mem law (pre ++ value) cell post s eight split'')
          (deser_cell-multi e r.key k ok.key_fits (omega arith) (omega arith)) refl
          (λ s'.
            whole_value r.key k start pre value (cell ++ post) buffer s' above split' wide
              (omega arith)
            ∙ ap
                (λ (t : List ℕ).
                  manifest t (length pre) (record { object = s'; buffer = value ++ rest }))
                (sym (given_multi r long)))
          (ap (λ (a : ℕ). (decr_addr a k start).1) {x = low} {y = length pre + k * 8}
              (omega (arith, length-append pre value, wide))
            ∙ decr_addr-back start (length pre) k)
          (λ s'. ih s' buffer roomy)
          (λ s'.
            ih s' (value ++ rest)
              (omega (arith, length-append value rest, length-drop (k * 8) buffer)))

  pub entry_step :
      (fuel start : ℕ) (pre post : List ℕ) (r : Entry) (rs : List Entry)
      → start ≤ length pre
      → mem ≡ pre ++ (entry_bytes e r ++ post)
      → IsEntry room r
      → Delivers fuel start (length pre) rs
      → Delivers (suc fuel) start (length pre + length (entry_bytes e r)) (r ∷ rs)
  entry_step fuel start pre post r rs above split ok ih = elim ok.value_fits [
    | inl (some_byte, short) ↦
        single_step fuel start pre post r rs above split ok some_byte short ih
    | inr (k, wide, long, few, fits) ↦
        multi_step fuel start pre post r rs k above split ok wide long few fits ih
  ]
