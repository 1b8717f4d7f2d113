-- ===== src/Cfg/Link.antt =====
-- handler.hpp: `load` after `update` turned a page.
use emlabcpp.Prelude.{
  drop-replicate, ℕ, ◌+◌, ◌-◌, ◌*◌, ◌/◌, ◌≤◌, ◌≡◌, refl, sym, ap, ap₂, ◌∙◌, arith, some, List, [],
  ◌∷◌, ◌++◌, length, length-append, drop, replicate, All, inl, inr,
}
use emlabcpp.Protocol.Serializer.{Endian}
use emlabcpp.Protocol.Serializer.Bytes.{bytes, number, length-bytes}
use emlabcpp.Cfg.{LoadIface, World}
use emlabcpp.Cfg.Cell.{sin_bit_mask, word}
use emlabcpp.Cfg.Cell.RoundTrip.{padded}
use emlabcpp.Cfg.Entry.{Entry, IsEntry, entry_bytes, log, single_bytes, multi_bytes}
use emlabcpp.Cfg.Store.Dump.{AllEntries, dumped, entries, log-entries}
use emlabcpp.Cfg.Load.{load_stored_config}
use emlabcpp.Cfg.Page.{HdrState}
use emlabcpp.Cfg.Store.Turn.{header_cell}
use emlabcpp.Cfg.Load.Log.{deliver, outcome, Reads}
use emlabcpp.Cfg.Load.Page.{load_stored_config-log}

entry_cells :
    (e : Endian) (room : ℕ) (r : Entry)
    → IsEntry room r
    → (c : ℕ) × (length (entry_bytes e r) ≡ c * 8)
entry_cells e room r ok = elim ok.value_fits [
  | inl (some_byte, short) ↦ (
    1,
    ap (λ (t : List ℕ). length t) (single_bytes e r short)
        ∙ length-bytes e 8 ((r.key + sin_bit_mask) * word + number e (padded r.value)),
  )
  | inr (k, wide, long, few, fits) ↦
      let cell = bytes e 8 (r.key * word + (length r.value + 7) / 8) in
      (
        k + 1,
        ap (λ (t : List ℕ). length t) (multi_bytes e r long)
            ∙ omega (
              arith,
              wide,
              length-append r.value cell,
              length-bytes e 8 (r.key * word + (length r.value + 7) / 8),
            ),
      )
]

dumped_cells :
    (e : Endian) (room : ℕ) (value : ℕ → List ℕ) (ks : List ℕ)
    → AllEntries room value ks
    → (c : ℕ) × (length (dumped e value ks) ≡ c * 8)
unfolding dumped
dumped_cells e room value [] ok = (0, refl)
dumped_cells e room value (k ∷ ks) ok =
    let r : Entry = record { key = k; value = value k } in
    let (c, first) = entry_cells e room r ok.0.0 in
    let (d, later) = dumped_cells e room value ks ok.1 in
    (c + d, omega (arith, first, later, length-append (entry_bytes e r) (dumped e value ks)))

entries-All :
    (room : ℕ) (value : ℕ → List ℕ) (ks : List ℕ) (rs : List Entry)
    → AllEntries room value ks
    → All (IsEntry room) rs
    → All (IsEntry room) (entries value ks rs)
entries-All room value [] rs ok ok' = ok'
entries-All room value (k ∷ ks) rs ok ok' =
    entries-All room value ks (record { key = k; value = value k } ∷ rs) ok.1 (ok.0.0, ok')

module _ {T : Type 0} (loader : LoadIface T) (e : Endian) (room : ℕ) (value : ℕ → List ℕ) where
  -- The entries that were dumped are delivered, the last one first.
  pub load_stored_config-dumped :
      (ks mem before after : List ℕ) (z : ℕ) (lw : World T)
      → 4 ≤ room
      → AllEntries room value ks
      → Reads loader mem
      → room ≤ length lw.buffer
      → length (dumped e value ks) ≤ z * 8
      → mem
        ≡ before
          ++ (dumped e value ks
              ++ (drop (length (dumped e value ks)) (replicate (z * 8) 0) ++ after))
      → outcome loader (load_stored_config loader e (length before) (length before + z * 8) lw)
        ≡ some (deliver loader (entries value ks []) lw.object)
  load_stored_config-dumped ks mem before after z lw wide ok law roomy fits split =
      let rs = entries value ks [] in
      let same : log e rs ≡ dumped e value ks = log-entries e value ks [] ∙ unfold log in refl in
      let (c, cells) = dumped_cells e room value ks ok in
      let left : drop (length (dumped e value ks)) (replicate (z * 8) 0)
          ≡ replicate ((z - c) * 8) 0 =
        ap (λ (n : ℕ). drop (length (dumped e value ks)) (replicate n 0)) {x = z * 8}
          {y = length (dumped e value ks) + (z - c) * 8} (omega (arith, cells))
        ∙ drop-replicate (length (dumped e value ks)) ((z - c) * 8) 0 in
      ap (λ (a : ℕ). outcome loader (load_stored_config loader e (length before) a lw))
        {x = length before + z * 8} {y = length before + length (log e rs) + (z - c) * 8}
        (omega (arith, cells, ap (λ (t : List ℕ). length t) same))
      ∙ load_stored_config-log loader e mem law room wide before after rs (z - c) lw
          (split ∙ ap₂ (λ (t u : List ℕ). before ++ (t ++ (u ++ after))) (sym same) left)
          (entries-All room value ks [] ok tt) roomy

-- what a turn leaves in the page: the header, the entries, and free cells
abbrev new_page : HdrState → List ℕ → ℕ → List ℕ
new_page st kvals z = header_cell st ++ (kvals ++ drop (length kvals) (replicate (z * 8) 0))
