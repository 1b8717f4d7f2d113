-- ===== src/Cfg/Store/Turn.antt =====
-- handler.hpp: `update` writes all keys into the next page.
use emlabcpp.Prelude.{
  replicate-add, ℕ, suc, ◌+◌, ◌*◌, ◌≤◌, ◌≡◌, refl, sym, ap, ◌∙◌, arith, true, List, ◌++◌,
  append_assoc, length, length-append, drop, replicate, length-replicate,
}
use emlabcpp.Protocol.Serializer.{Endian}
use emlabcpp.Cfg.{erased_byte, success, UpdateIface, World, returns}
use emlabcpp.Cfg.Page.{HdrState, get_hdr}
use emlabcpp.Cfg.Locate.{locate_next_page, next_at}
use emlabcpp.Cfg.Load.Cells.{copy_to-cell}
use emlabcpp.Cfg.Store.{dump_unseen_keys, turn_page, copy_to}
use emlabcpp.Cfg.Store.Dump.{IsWriter, AllEntries, dumped, dumped_long, dump-entries}

-- What `update` relies on besides: all keys are to be stored again, and a page is filled with zeros.
pub record IsTurner {S : Type 0} (iface : UpdateIface S) (memory : S → List ℕ) (unseen : S → List ℕ)
    (keys : List ℕ) (page_size : ℕ) : Type 0 where
  pub reset :
      (s : S)
      → ((iface.reset_keys s).0 ≡ true)
        × (unseen (iface.reset_keys s).1 ≡ keys)
        × (memory (iface.reset_keys s).1 ≡ memory s)
  pub clear :
      (s : S) (pre page post : List ℕ)
      → memory s ≡ pre ++ (page ++ post)
      → length page ≡ page_size
      → ((iface.clear_page (length pre) s).0 ≡ true)
        × (memory (iface.clear_page (length pre) s).1 ≡ pre ++ (replicate page_size 0 ++ post))
        × (unseen (iface.clear_page (length pre) s).1 ≡ unseen s)

-- the cell at the start of a page
abbrev pub header_cell : HdrState → List ℕ
header_cell st = get_hdr st ++ replicate 6 0

pub length-header_cell : (st : HdrState) → length (header_cell st) ≡ 8
unfolding get_hdr
length-header_cell st = refl

length-get_hdr : (st : HdrState) → length (get_hdr st) ≡ 2
unfolding get_hdr
length-get_hdr st = refl

module _ {S : Type 0} (iface : UpdateIface S) (e : Endian) (mem_size page_size : ℕ) where
  turn_page-dump :
      (addr : ℕ) (st : HdrState) (w : World S)
      → locate_next_page iface.read mem_size page_size w.object
        ≡ returns (next_at success addr st, w.object)
      → (iface.reset_keys w.object).0 ≡ true
      → (iface.clear_page addr (iface.reset_keys w.object).1).0 ≡ true
      → (iface.write addr (get_hdr st) (iface.clear_page addr (iface.reset_keys w.object).1).1).0
        ≡ true
      → turn_page iface e mem_size page_size w
        ≡ dump_unseen_keys iface e
            (suc (addr + 8 + page_size))
            (addr + 8)
            (addr + 8 + page_size)
            (record w {
              object =
                  (iface.write addr
                    (get_hdr st)
                    (iface.clear_page addr (iface.reset_keys w.object).1).1).1;
            })
  unfolding turn_page
  turn_page-dump addr st w next reset cleared wrote = ground (arith, next, reset, cleared, wrote)

  module _ (memory : S → List ℕ) (unseen : S → List ℕ) (value : ℕ → List ℕ) (room : ℕ)
      (keys : List ℕ) (law : IsWriter iface memory unseen value)
      (turner : IsTurner iface memory unseen keys page_size) where
    -- After a turn the page holds its header, the entries of all keys, and free cells.
    pub turn_page-dumped :
        (z : ℕ) (st : HdrState) (pre page post : List ℕ) (w : World S)
        → locate_next_page iface.read mem_size page_size w.object
          ≡ returns (next_at success (length pre) st, w.object)
        → memory w.object ≡ pre ++ (page ++ post)
        → length page ≡ page_size
        → page_size ≡ suc z * 8
        → AllEntries room value keys
        → room + 8 ≤ length w.buffer
        → length (dumped e value keys) ≤ z * 8
        → (w' : World S) × (turn_page iface e mem_size page_size w ≡ returns (success, w'))
          × (memory w'.object
              ≡ (pre ++ header_cell st)
                ++ (dumped e value keys
                    ++ (drop (length (dumped e value keys)) (replicate (z * 8) 0) ++ post)))
    turn_page-dumped z st pre page post w next split whole cells ok roomy fits =
        let s1 = (iface.reset_keys w.object).1 in
        let fresh = turner.reset w.object in
        let cleared = turner.clear s1 pre page post (fresh.2 ∙ split) whole in
        let s2 = (iface.clear_page (length pre) s1).1 in
        let gap = replicate (z * 8) (erased_byte) in
        let grown : replicate page_size erased_byte ≡ replicate 8 erased_byte ++ gap =
          ap (λ (n : ℕ). replicate n erased_byte) {y = 8 + z * 8} (omega (arith, cells))
          ∙ replicate-add 8 (z * 8) erased_byte in
        let split2 : memory s2
            ≡ pre ++ (replicate 2 erased_byte ++ (replicate 6 erased_byte ++ (gap ++ post))) =
          cleared.1 ∙ ap (λ (t : List ℕ). pre ++ (t ++ post)) grown in
        let size = ap (λ (t : List ℕ). length t) split2 in
        let wrote = law.write_at s2 (length pre) (get_hdr st) (
          omega (
            arith,
            size,
            length-get_hdr st,
            length-append pre
                (replicate 2 erased_byte ++ (replicate 6 erased_byte ++ (gap ++ post))),
          )) in
        let s3 = (iface.write (length pre) (get_hdr st) s2).1 in
        let split3 : memory s3 ≡ (pre ++ header_cell st) ++ (gap ++ post) =
          wrote.1
          ∙ ap (λ (t : List ℕ). copy_to t (length pre) (get_hdr st)) split2
          ∙ copy_to-cell pre (replicate 2 erased_byte) (get_hdr st)
              (replicate 6 erased_byte ++ (gap ++ post)) (sym (length-get_hdr st))
          ∙ ap (λ (t : List ℕ). pre ++ t)
              (sym (append_assoc (get_hdr st) (replicate 6 erased_byte) (gap ++ post)))
          ∙ sym (append_assoc pre (header_cell st) (gap ++ post)) in
        let w3 : World S = record w { object = s3 } in
        let front = length-append pre (header_cell st) in
        let eight = length-header_cell st in
        let full = length-replicate {A = ℕ} (z * 8) erased_byte in
        let (w', done, memory') =
          dump-entries iface e memory unseen value law room keys (suc (length pre + 8 + page_size))
            (length pre + 8 + page_size) (pre ++ header_cell st) gap post w3
            (omega (arith, dumped_long e value keys, fits, cells)) (wrote.2 ∙ cleared.2 ∙ fresh.1)
            ok roomy split3 (omega (arith, fits, full))
            (omega (arith, front, eight, full, cells)) in
        (
          w',
          turn_page-dump (length pre) st w next fresh.0 cleared.0 wrote.0
              ∙ ap
                  (λ (k : ℕ).
                    dump_unseen_keys iface e (suc (length pre + 8 + page_size)) k
                      (length pre + 8 + page_size) w3)
                  {x = length pre + 8} (omega (arith, front, eight))
              ∙ done,
          memory',
        )
