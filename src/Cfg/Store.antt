-- ===== src/Cfg/Store.antt =====
-- handler.hpp: the update of what is stored. A loop is on fuel; addresses are below the range of
-- `std::size_t`, and a difference of addresses is not negative where the source takes one.
pub mod Finish
pub mod Bounds
pub mod Dump
pub mod Turn
use emlabcpp.Prelude.{
  ℕ, zero, suc, ◌+◌, ◌-◌, ◌*◌, Bool, true, false, Option, none, some, List, [], ◌∷◌, ◌++◌, length,
  take, drop, ltb, leb, if◌then◌else◌,
}
use emlabcpp.Protocol.Serializer.{Endian}
use emlabcpp.Protocol.Serializer.Bytes.{bytes}
use emlabcpp.Cfg.{
  cell_size, Status, success, full, missing_page, serialize_value_error, write_error, read_error,
  deser_error, reset_keys_error, clear_error, CacheRes, seen, not_seen, UpdateIface, World, Exit,
  returns, undefined, unfinished,
}
use emlabcpp.Cfg.Page.{get_hdr}
use emlabcpp.Cfg.Locate.{LocateCurrentInfo, LocateNextInfo, locate_current_page, locate_next_page}
use emlabcpp.Cfg.Cell.{DeserRes, deser_cell, store_kval_impl, is_free_cell}

-- the result, and `addr` after the call
unfoldable pub decr_addr : ℕ → ℕ → ℕ → Bool × ℕ
decr_addr addr n start_addr =
    if ltb addr (cell_size * n)
    then (false, addr)
    else (leb start_addr (addr - cell_size * n), addr - cell_size * n)

-- what `manifest_value` gives: the span, `addr` and the world after the call
pub record Manifest (S : Type 0) : Type 0 where
  pub value : List ℕ
  pub addr : ℕ
  pub world : World S

abbrev pub manifest : {S : Type 0} → List ℕ → ℕ → World S → Manifest S
manifest value addr world = record { value = value; addr = addr; world = world }

-- `memcpy` into the buffer
abbrev pub copy_to : List ℕ → ℕ → List ℕ → List ℕ
copy_to buffer offset bytes = take offset buffer ++ (bytes ++ drop (offset + length bytes) buffer)

module _ {S : Type 0} (read : ℕ → S → Option (List ℕ) × S) where
  -- The loop with `n` cells left; the offset of the next one is that of the cell before those read.
  unfoldable pub manifest_loop : ℕ → ℕ → ℕ → ℕ → World S → Manifest S
  manifest_loop zero cell_val start_addr addr w =
      manifest (take (cell_val * cell_size) w.buffer) addr w
  manifest_loop (suc n) cell_val start_addr addr w =
      let (above, addr') = decr_addr addr 1 start_addr in
      let buffer_offset = n * cell_size in
      elim above [
        | false ↦ manifest [] addr' w
        | true ↦ elim (ltb (length w.buffer) (buffer_offset + cell_size)) [
          | true ↦ manifest [] addr' w
          | false ↦
              let (cell, s) = read addr' w.object in
              elim cell [
                | none ↦ manifest [] addr' (record w { object = s })
                | some cell ↦
                    manifest_loop n cell_val start_addr addr'
                      (record { object = s; buffer = copy_to w.buffer buffer_offset cell })
              ]
        ]
      ]

  unfoldable pub manifest_value : Endian → DeserRes → ℕ → ℕ → World S → Manifest S
  manifest_value e c start_addr addr w =
      if c.is_seq
      then manifest_loop c.val c.val start_addr addr w
      else manifest (bytes e 4 c.val) addr
          (record w { buffer = copy_to w.buffer 0 (bytes e 4 c.val) })

-- the status, `addr` and the world after a call
abbrev pub Stored : Type 0 → Type 0
Stored S = Status × ℕ × World S

module _ {S : Type 0} (iface : UpdateIface S) (e : Endian) where
  unfoldable pub store_key : ℕ → ℕ → ℕ → World S → Exit (Stored S)
  store_key addr end_addr key w =
      let capacity = end_addr - addr in
      let ((used, buffer), s) = iface.serialize_value key w.buffer w.object in
      elim used [
        | none ↦ returns (serialize_value_error, addr, record { object = s; buffer = buffer })
        | some size ↦
            let (kval, buffer') = store_kval_impl e key buffer size in
            elim kval [
              | none ↦ undefined
              | some kval ↦ elim (ltb capacity (length kval)) [
                | true ↦ returns (full, addr, record { object = s; buffer = buffer' })
                | false ↦
                    let (ok, s') = iface.write addr kval s in
                    let w' : World S = record { object = s'; buffer = buffer' } in
                    if ok
                    then returns (success, addr + length kval, w')
                    else returns (write_error, addr, w')
              ]
            ]
      ]

  unfoldable pub dump_unseen_keys : ℕ → ℕ → ℕ → World S → Exit (Status × World S)
  dump_unseen_keys zero addr end_addr w = unfinished
  dump_unseen_keys (suc fuel) addr end_addr w =
      let (key, s) = iface.take_unseen_key w.object in
      elim key [
        | none ↦ returns (success, record w { object = s })
        | some key ↦ elim (store_key addr end_addr key (record w { object = s })) [
          | returns (success, addr', w') ↦ dump_unseen_keys fuel addr' end_addr w'
          | returns (status, addr', w') ↦ returns (status, w')
          | undefined ↦ undefined
          | unfinished ↦ unfinished
        ]
      ]

  -- The first loop of `update_stored_config`: a status that is not `success` is its result, and
  -- with `success` the second loop goes on from `addr`.
  unfoldable pub free_loop : ℕ → ℕ → ℕ → ℕ → World S → Exit (Status × ℕ × ℕ × World S)
  free_loop zero start_addr addr last_free w = unfinished
  free_loop (suc fuel) start_addr addr last_free w =
      let (above, addr') = decr_addr addr 1 start_addr in
      elim above [
        | false ↦ returns (success, addr', last_free, w)
        | true ↦
            let (tmp, s) = iface.read addr' w.object in
            let w' : World S = record w { object = s } in
            elim tmp [
              | none ↦ returns (read_error, addr', last_free, w')
              | some tmp ↦ elim (is_free_cell tmp) [
                | true ↦ free_loop fuel start_addr addr' addr' w'
                | false ↦ returns (success, addr' + cell_size, last_free, w')
              ]
            ]
      ]

  unfoldable pub change_loop : ℕ → ℕ → ℕ → ℕ → ℕ → World S → Exit (Status × World S)
  change_loop zero start_addr end_addr addr last_free w = unfinished
  change_loop (suc fuel) start_addr end_addr addr last_free w =
      let (above, addr') = decr_addr addr 1 start_addr in
      elim above [
        | false ↦ dump_unseen_keys (suc end_addr) last_free end_addr w
        | true ↦
            let (tmp, s) = iface.read addr' w.object in
            elim tmp [
              | none ↦ returns (read_error, record w { object = s })
              | some tmp ↦ elim (deser_cell e tmp) [
                | none ↦ returns (deser_error, record w { object = s })
                | some c ↦
                    let (cr, s') = iface.check_key_cache c.key s in
                    let w' : World S = record w { object = s' } in
                    elim cr [
                      | seen ↦
                          change_loop fuel start_addr end_addr
                            (if c.is_seq then (decr_addr addr' c.val start_addr).1 else addr')
                            last_free w'
                      | not_seen ↦
                          let m = manifest_value iface.read e c start_addr addr' w' in
                          let (changed, s'') = iface.value_changed c.key m.value m.world.object in
                          let w'' : World S = record m.world { object = s'' } in
                          elim changed [
                            | false ↦ change_loop fuel start_addr end_addr m.addr last_free w''
                            | true ↦ elim (store_key last_free end_addr c.key w'') [
                              | returns (success, last_free', w3) ↦
                                  change_loop fuel start_addr end_addr m.addr last_free' w3
                              | returns (status, last_free', w3) ↦ returns (status, w3)
                              | undefined ↦ undefined
                              | unfinished ↦ unfinished
                            ]
                          ]
                    ]
              ]
            ]
      ]

  unfoldable pub update_stored_config : ℕ → ℕ → World S → Exit (Status × World S)
  update_stored_config start_addr end_addr w =
      elim (free_loop (suc end_addr) start_addr end_addr end_addr w) [
        | returns (success, addr, last_free, w') ↦
            change_loop (suc end_addr) start_addr end_addr addr last_free w'
        | returns (status, addr, last_free, w') ↦ returns (status, w')
        | undefined ↦ undefined
        | unfinished ↦ unfinished
      ]

  -- The second half of `update`: the values go to the next page.
  unfoldable pub turn_page : ℕ → ℕ → World S → Exit (Status × World S)
  turn_page mem_size page_size w = elim (locate_next_page iface.read mem_size page_size w.object) [
    | returns (info, s) ↦ elim info.status [
      | success ↦
          let (reset, s1) = iface.reset_keys s in
          let (clear, s2) = iface.clear_page info.addr s1 in
          let (wrote, s3) = iface.write info.addr (get_hdr info.state) s2 in
          let addr = info.addr + cell_size in
          elim reset [
            | false ↦ returns (reset_keys_error, record w { object = s1 })
            | true ↦ elim clear [
              | false ↦ returns (clear_error, record w { object = s2 })
              | true ↦ elim wrote [
                | false ↦ returns (write_error, record w { object = s3 })
                | true ↦
                    dump_unseen_keys (suc (addr + page_size)) addr (addr + page_size)
                      (record w { object = s3 })
              ]
            ]
          ]
      | status ↦ returns (status, record w { object = s })
    ]
    | undefined ↦ undefined
    | unfinished ↦ unfinished
  ]

  unfoldable pub update : ℕ → ℕ → World S → Exit (Status × World S)
  update mem_size page_size w = elim (locate_current_page iface.read mem_size page_size w.object) [
    | returns (info, s) ↦
        let w' : World S = record w { object = s } in
        elim info.status [
          | missing_page ↦ turn_page mem_size page_size w'
          | success ↦
              elim (update_stored_config (info.addr + cell_size) (info.addr + page_size) w') [
                | returns (full, w'') ↦ turn_page mem_size page_size w''
                | returns (status, w'') ↦ returns (status, w'')
                | undefined ↦ undefined
                | unfinished ↦ unfinished
              ]
          | status ↦ returns (status, w')
        ]
    | undefined ↦ undefined
    | unfinished ↦ unfinished
  ]
