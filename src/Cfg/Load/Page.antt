-- ===== src/Cfg/Load/Page.antt =====
-- handler.hpp: `load` gives the entries of a page to the interface, the last one first.
use emlabcpp.Prelude.{
  ℕ, zero, suc, ◌+◌, ◌-◌, ◌*◌, ◌≤◌, ◌<◌, ◌≡◌, refl, sym, ap, ◌∙◌, arith, none, some, List, [], ◌∷◌,
  ◌++◌, append_assoc, length, length-append, replicate, replicate-add, All, subst,
}
use emlabcpp.Protocol.Serializer.{Endian, big, little}
use emlabcpp.Protocol.Serializer.Bytes.{from_be, from_le}
use emlabcpp.Cfg.{erased_byte, LoadIface, World}
use emlabcpp.Cfg.Cell.{deser_cell}
use emlabcpp.Cfg.Load.{load_loop, load_stored_config}
use emlabcpp.Cfg.Entry.{Entry, IsEntry, entry_bytes, log, entry_bytes_long}
use emlabcpp.Cfg.Load.Log.{deliver, outcome, Reads, load_free, load_end}
use emlabcpp.Cfg.Load.Cells.{decr_addr-down, decr_addr-start, read_cell}
use emlabcpp.Cfg.Load.Replay.{Delivers, entry_step}

deser_cell-free : (e : Endian) → deser_cell e (replicate 8 0) ≡ none
unfolding deser_cell from_be from_le
deser_cell-free big = refl
deser_cell-free little = refl

module _ {S : Type 0} (iface : LoadIface S) (e : Endian) (mem : List ℕ) (law : Reads iface mem)
    (room : ℕ) (word_room : 4 ≤ room) where
  log_step :
      (fuel : ℕ) (before after : List ℕ) (rs : List Entry)
      → length rs < fuel
      → mem ≡ before ++ (log e rs ++ after)
      → All (IsEntry room) rs
      → Delivers iface e mem law room word_room fuel
          (length before)
          (length before + length (log e rs))
          rs
  log_step zero before after rs enough split ok = absurd (omega arith)
  log_step (suc fuel) before after [] enough split ok = λ s buffer roomy.
      ap
        (λ (a : ℕ).
          outcome iface (
            load_loop iface e (suc fuel) (length before) a
              (record { object = s; buffer = buffer })))
        {x = length before + length (log e [])} {y = length before} (unfold log in omega arith)
      ∙ ap (outcome iface) (
          load_end iface e fuel (length before) (length before)
            (record { object = s; buffer = buffer }) (decr_addr-start (length before)))
      ∙ unfold outcome deliver in refl
  log_step (suc fuel) before after (r ∷ rs) enough split ok =
      let front = before ++ log e rs in
      let bytes_of : log e (r ∷ rs) ≡ log e rs ++ entry_bytes e r = unfold log in refl in
      let split' : mem ≡ before ++ (log e rs ++ (entry_bytes e r ++ after)) =
        split
        ∙ ap (λ (t : List ℕ). before ++ t)
            (ap (λ (t : List ℕ). t ++ after) bytes_of
              ∙ append_assoc (log e rs) (entry_bytes e r) after) in
      let ih = log_step fuel before (entry_bytes e r ++ after) rs (omega arith) split' ok.1 in
      let ih' =
        subst (λ (a : ℕ). Delivers iface e mem law room word_room fuel (length before) a rs)
          (sym (length-append before (log e rs))) ih in
      subst
        (λ (a : ℕ). Delivers iface e mem law room word_room (suc fuel) (length before) a (r ∷ rs))
        {x = length front + length (entry_bytes e r)}
        (omega (
          arith,
          length-append before (log e rs),
          length-append (log e rs) (entry_bytes e r),
          ap (λ (t : List ℕ). length t) bytes_of,
        ))
        (entry_step iface e mem law room word_room fuel (length before) front after r rs
          (omega (arith, length-append before (log e rs)))
          (split' ∙ sym (append_assoc before (log e rs) (entry_bytes e r ++ after))) ok.0 ih')

  free_step :
      (fuel start : ℕ) (pre post : List ℕ) (rs : List Entry)
      → start ≤ length pre
      → mem ≡ pre ++ (replicate 8 0 ++ post)
      → Delivers iface e mem law room word_room fuel start (length pre) rs
      → Delivers iface e mem law room word_room (suc fuel) start (length pre + 8) rs
  free_step fuel start pre post rs above split ih s buffer roomy =
      ap (outcome iface) (
        load_free iface e fuel start (length pre + 8) (length pre)
          (record { object = s; buffer = buffer }) (decr_addr-down start (length pre) above)
          (read_cell iface mem law pre (replicate 8 0) post s refl split) (deser_cell-free e))
      ∙ ih s buffer roomy

  free_cells :
      (z fuel start : ℕ) (pre post : List ℕ) (rs : List Entry)
      → start ≤ length pre
      → mem ≡ pre ++ (replicate (z * 8) 0 ++ post)
      → Delivers iface e mem law room word_room fuel start (length pre) rs
      → Delivers iface e mem law room word_room (z + fuel) start (length pre + z * 8) rs
  free_cells zero fuel start pre post rs above split ih =
      subst (λ (n : ℕ). Delivers iface e mem law room word_room n start (length pre + 0 * 8) rs)
        {x = fuel} (omega arith)
        (subst (λ (a : ℕ). Delivers iface e mem law room word_room fuel start a rs) {x = length pre}
          (omega arith) ih)
  free_cells (suc z) fuel start pre post rs above split ih =
      let zeros = replicate (z * 8) (erased_byte) in
      let grown : replicate (suc z * 8) erased_byte ≡ replicate 8 erased_byte ++ zeros =
        ap (λ (n : ℕ). replicate n erased_byte) {x = suc z * 8} {y = 8 + z * 8} (omega arith)
        ∙ replicate-add 8 (z * 8) erased_byte in
      let split' : mem ≡ (pre ++ replicate 8 erased_byte) ++ (zeros ++ post) =
        split
        ∙ ap (λ (t : List ℕ). pre ++ (t ++ post)) grown
        ∙ ap (λ (t : List ℕ). pre ++ t) (append_assoc (replicate 8 erased_byte) zeros post)
        ∙ sym (append_assoc pre (replicate 8 erased_byte) (zeros ++ post)) in
      let wide : length (pre ++ replicate 8 erased_byte) ≡ length pre + 8 =
        length-append pre (replicate 8 erased_byte) in
      let first =
        free_step fuel start pre (zeros ++ post) rs above
          (split' ∙ append_assoc pre (replicate 8 erased_byte) (zeros ++ post)) ih in
      let later =
        free_cells z (suc fuel) start (pre ++ replicate 8 erased_byte) post rs (omega (arith, wide))
          split'
          (subst (λ (a : ℕ). Delivers iface e mem law room word_room (suc fuel) start a rs)
            (sym wide) first) in
      subst (λ (n : ℕ). Delivers iface e mem law room word_room n start (length pre + suc z * 8) rs)
        {x = z + suc fuel} (omega arith)
        (subst (λ (a : ℕ). Delivers iface e mem law room word_room (z + suc fuel) start a rs)
          {x = length (pre ++ replicate 8 erased_byte) + z * 8} (omega (arith, wide)) later)

  entries_short : (rs : List Entry) → length rs ≤ length (log e rs)
  unfolding log
  entries_short [] = omega arith
  entries_short (r ∷ rs) =
      omega
        (arith, entries_short rs, length-append (log e rs) (entry_bytes e r), entry_bytes_long e r)

  -- For an interface whose reads give the cells of a memory, with a buffer that has room for a word
  -- and for each value: if a page holds the entries of keys of 31 bits, whose values fill a word at
  -- most or whole cells, and then free cells to its end, `load_stored_config` makes the calls of
  -- the interface for these entries, the last one first, and ends with their outcome.
  pub load_stored_config-log :
      (before after : List ℕ) (rs : List Entry) (z : ℕ) (w : World S)
      → mem ≡ before ++ (log e rs ++ (replicate (z * 8) 0 ++ after))
      → All (IsEntry room) rs
      → room ≤ length w.buffer
      → outcome iface
          (load_stored_config iface e (length before) (length before + length (log e rs) + z * 8) w)
        ≡ some (deliver iface rs w.object)
  unfolding load_stored_config
  load_stored_config-log before after rs z w split ok roomy =
      let front = before ++ log e rs in
      let fuel = suc (length front + z * 8 - z) in
      let wide = length-append before (log e rs) in
      let start =
        subst (λ (a : ℕ). Delivers iface e mem law room word_room fuel (length before) a rs)
          (sym wide)
          (log_step fuel before (replicate (z * 8) 0 ++ after) rs
            (omega (arith, wide, entries_short rs)) split ok) in
      let all =
        free_cells z fuel (length before) front after rs (omega (arith, wide))
          (split ∙ sym (append_assoc before (log e rs) (replicate (z * 8) 0 ++ after))) start in
      ap
        (λ (n : ℕ).
          outcome iface
            (load_loop iface e n (length before) (length before + length (log e rs) + z * 8) w))
        {x = suc (length before + length (log e rs) + z * 8)} {y = z + fuel} (omega (arith, wide))
      ∙ ap (λ (a : ℕ). outcome iface (load_loop iface e (z + fuel) (length before) a w))
          {x = length before + length (log e rs) + z * 8} {y = length front + z * 8}
          (omega (arith, wide))
      ∙ all w.object w.buffer roomy
