-- ===== src/Cfg/Load/Cells.antt =====
-- handler.hpp: the cells that `load` reads.
use emlabcpp.Prelude.{
  ℕ, zero, suc, ◌+◌, ◌*◌, ◌≤◌, ◌≡◌, refl, sym, ap, ap₂, ◌∙◌, arith, true, false, some, List, [],
  ◌∷◌, ◌++◌, append_assoc, length, length-append, length-take, length-drop, take, drop, take-append,
  drop-append, take-append-drop,
}
use emlabcpp.Cfg.{LoadIface, World}
use emlabcpp.Cfg.Store.{decr_addr, manifest, manifest_loop, copy_to}
use emlabcpp.Cfg.Load.Log.{Reads}

pub decr_addr-down : (start low : ℕ) → start ≤ low → decr_addr (low + 8) 1 start ≡ (true, low)
unfolding decr_addr
decr_addr-down start low h = ground arith

pub decr_addr-start : (start : ℕ) → (decr_addr start 1 start).0 ≡ false
unfolding decr_addr
decr_addr-start start = ground arith

pub decr_addr-back : (start low n : ℕ) → (decr_addr (low + n * 8) n start).1 ≡ low
unfolding decr_addr
decr_addr-back start low n = ground arith

pub cell_in :
    (pre cell post : List ℕ) {mem : List ℕ}
    → length cell ≡ 8
    → mem ≡ pre ++ (cell ++ post)
    → take 8 (drop (length pre) mem) ≡ cell
cell_in pre cell post eight split =
    ap (λ (t : List ℕ). take 8 (drop (length pre) t)) split
    ∙ ap (take 8) (drop-append pre (cell ++ post))
    ∙ ap (λ (k : ℕ). take k (cell ++ post)) (sym eight)
    ∙ take-append cell post

pub copy_to-cell :
    (junk old cell rest : List ℕ)
    → length old ≡ length cell
    → copy_to (junk ++ (old ++ rest)) (length junk) cell ≡ junk ++ (cell ++ rest)
copy_to-cell junk old cell rest same =
    ap₂ (λ (t u : List ℕ). t ++ (cell ++ u)) (take-append junk (old ++ rest))
      (ap (λ (k : ℕ). drop k (junk ++ (old ++ rest))) {x = length junk + length cell}
          (omega (arith, same, length-append junk old))
        ∙ ap (drop (length (junk ++ old))) (sym (append_assoc junk old rest))
        ∙ drop-append (junk ++ old) rest)

module _ {S : Type 0} (iface : LoadIface S) (mem : List ℕ) (law : Reads iface mem) where
  pub read_cell :
      (pre cell post : List ℕ) (s : S)
      → length cell ≡ 8
      → mem ≡ pre ++ (cell ++ post)
      → iface.read (length pre) s ≡ (some cell, s)
  read_cell pre cell post s eight split =
      law (length pre) s (
        omega (
          arith,
          ap (λ (t : List ℕ). length t) split,
          length-append pre (cell ++ post),
          length-append cell post,
        ))
      ∙ ap (λ (t : List ℕ). (some t, s)) (cell_in pre cell post eight split)

  manifest_step :
      (n cell_val start : ℕ) (pre cell post junk old rest : List ℕ) (s : S)
      → start ≤ length pre
      → mem ≡ pre ++ (cell ++ post)
      → length cell ≡ 8
      → length old ≡ 8
      → length junk ≡ n * 8
      → manifest_loop iface.read
          (suc n)
          cell_val
          start
          (length pre + 8)
          (record { object = s; buffer = junk ++ (old ++ rest) })
        ≡ manifest_loop iface.read n cell_val start
            (length pre)
            (record { object = s; buffer = junk ++ (cell ++ rest) })
  unfolding manifest_loop
  manifest_step n cell_val start pre cell post junk old rest s above split eight eight' wide =
      let copied : copy_to (junk ++ (old ++ rest)) (n * 8) cell ≡ junk ++ (cell ++ rest) =
        ap (λ (k : ℕ). copy_to (junk ++ (old ++ rest)) k cell) (sym wide)
        ∙ copy_to-cell junk old cell rest (omega arith) in
      ground (
        arith,
        decr_addr-down start (length pre) above,
        read_cell pre cell post s eight split,
        copied,
        length-append junk (old ++ rest),
        length-append old rest,
      )

  manifest_none :
      (cell_val start addr : ℕ) (w : World S)
      → manifest_loop iface.read 0 cell_val start addr w
        ≡ manifest (take (cell_val * 8) w.buffer) addr w
  unfolding manifest_loop
  manifest_none cell_val start addr w = refl

  pub manifest_cells :
      (n cell_val start : ℕ) (pre front back post junk rest : List ℕ) (s : S)
      → start ≤ length pre
      → mem ≡ pre ++ (front ++ (back ++ post))
      → length front ≡ n * 8
      → length junk ≡ n * 8
      → manifest_loop iface.read n cell_val start
          (length pre + length front)
          (record { object = s; buffer = junk ++ (back ++ rest) })
        ≡ manifest
            (take (cell_val * 8) (front ++ (back ++ rest)))
            (length pre)
            (record { object = s; buffer = front ++ (back ++ rest) })
  manifest_cells zero cell_val start pre [] back post [] rest s above split wide wide' =
      ap
        (λ (k : ℕ).
          manifest_loop iface.read 0 cell_val start k
            (record { object = s; buffer = back ++ rest }))
        {x = length pre + 0} (omega arith)
      ∙ manifest_none cell_val start (length pre) (record { object = s; buffer = back ++ rest })
  manifest_cells zero cell_val start pre (x ∷ front) back post junk rest s above split wide wide' =
      absurd (omega arith)
  manifest_cells zero cell_val start pre [] back post (x ∷ junk) rest s above split wide wide' =
      absurd (omega arith)
  manifest_cells (suc n) cell_val start pre front back post junk rest s above split wide wide' =
      let f = take (n * 8) front in
      let c = drop (n * 8) front in
      let fc : f ++ c ≡ front = take-append-drop (n * 8) front in
      let j = take (n * 8) junk in
      let o = drop (n * 8) junk in
      let jo : j ++ o ≡ junk = take-append-drop (n * 8) junk in
      let at = λ (k m : ℕ) (b : List ℕ).
        manifest_loop iface.read m cell_val start k (record { object = s; buffer = b }) in
      let f_wide : length f ≡ n * 8 = omega (arith, length-take (n * 8) front) in
      let c_wide : length c ≡ 8 = omega (arith, length-drop (n * 8) front) in
      let j_wide : length j ≡ n * 8 = omega (arith, length-take (n * 8) junk) in
      let o_wide : length o ≡ 8 = omega (arith, length-drop (n * 8) junk) in
      let joined : (t : List ℕ) → front ++ t ≡ f ++ (c ++ t) =
        λ t. ap (λ (u : List ℕ). u ++ t) (sym fc) ∙ append_assoc f c t in
      let split' : mem ≡ (pre ++ f) ++ (c ++ (back ++ post)) =
        split
        ∙ ap (λ (t : List ℕ). pre ++ t) (joined (back ++ post))
        ∙ sym (append_assoc pre f (c ++ (back ++ post))) in
      let split'' : mem ≡ pre ++ (f ++ ((c ++ back) ++ post)) =
        split
        ∙ ap (λ (t : List ℕ). pre ++ t)
            (joined (back ++ post)
              ∙ ap (λ (t : List ℕ). f ++ t) (sym (append_assoc c back post))) in
      ap₂ (λ (k : ℕ) (b : List ℕ). at k (suc n) b) {x = length pre + length front}
        {y = length (pre ++ f) + 8} (omega (arith, length-append pre f))
        (ap (λ (u : List ℕ). u ++ (back ++ rest)) (sym jo) ∙ append_assoc j o (back ++ rest))
      ∙ manifest_step n cell_val start (pre ++ f) c (back ++ post) j o (back ++ rest) s
          (omega (arith, length-append pre f)) split' c_wide o_wide j_wide
      ∙ ap₂ (λ (k : ℕ) (b : List ℕ). at k n b) (length-append pre f)
          (ap (λ (t : List ℕ). j ++ t) (sym (append_assoc c back rest)))
      ∙ manifest_cells n cell_val start pre f (c ++ back) post j rest s above split'' f_wide j_wide
      ∙ ap
          (λ (t : List ℕ).
            manifest (take (cell_val * 8) t) (length pre) (record { object = s; buffer = t }))
          (ap (λ (t : List ℕ). f ++ t) (append_assoc c back rest) ∙ sym (joined (back ++ rest)))
