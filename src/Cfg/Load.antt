-- ===== src/Cfg/Load.antt =====
-- handler.hpp: the values of the current page are given to the interface, the last one first; and
-- the functions that callbacks can use.
pub mod Finish
pub mod Log
pub mod Cells
pub mod Page
pub mod Replay
use emlabcpp.Prelude.{
  ℕ, zero, suc, ◌+◌, ◌-◌, Bool, true, false, ◌&&◌, Option, none, some, List, [], ◌∷◌, ◌++◌, length,
  take, drop, set, reverse, ltb, ◌==◌, if◌then◌else◌,
}
use emlabcpp.Protocol.Serializer.{Endian}
use emlabcpp.Cfg.{
  cell_size, Status, success, missing_page, read_error, on_kval_error, CacheRes, seen, not_seen,
  LoadIface, World, Exit, returns, undefined, unfinished,
}
use emlabcpp.Cfg.Locate.{LocateCurrentInfo, locate_current_page}
use emlabcpp.Cfg.Cell.{DeserRes, deser_cell}
use emlabcpp.Cfg.Store.{decr_addr, Manifest, manifest_value}

module _ {S : Type 0} (iface : LoadIface S) (e : Endian) where
  unfoldable pub load_loop : ℕ → ℕ → ℕ → World S → Exit (Status × World S)
  load_loop zero start_addr addr w = unfinished
  load_loop (suc fuel) start_addr addr w =
      let (above, addr') = decr_addr addr 1 start_addr in
      elim above [
        | false ↦ returns (success, w)
        | true ↦
            let (tmp, s) = iface.read addr' w.object in
            elim tmp [
              | none ↦ returns (read_error, record w { object = s })
              | some tmp ↦ elim (deser_cell e tmp) [
                | none ↦ load_loop fuel start_addr addr' (record w { object = s })
                | some c ↦
                    let (cr, s') = iface.check_key_cache c.key s in
                    let w' : World S = record w { object = s' } in
                    elim cr [
                      | seen ↦
                          load_loop fuel start_addr
                            (if c.is_seq then (decr_addr addr' c.val start_addr).1 else addr') w'
                      | not_seen ↦
                          let m = manifest_value iface.read e c start_addr addr' w' in
                          let (ok, s'') = iface.on_kval c.key m.value m.world.object in
                          let w'' : World S = record m.world { object = s'' } in
                          elim ok [
                            | true ↦ load_loop fuel start_addr m.addr w''
                            | false ↦ returns (on_kval_error, w'')
                          ]
                    ]
              ]
            ]
      ]

  unfoldable pub load_stored_config : ℕ → ℕ → World S → Exit (Status × World S)
  load_stored_config start_addr end_addr w = load_loop (suc end_addr) start_addr end_addr w

  unfoldable pub load : ℕ → ℕ → World S → Exit (Status × World S)
  load mem_size page_size w = elim (locate_current_page iface.read mem_size page_size w.object) [
    | returns (info, s) ↦
        let w' : World S = record w { object = s } in
        elim info.status [
          | missing_page ↦ returns (success, w')
          | success ↦ load_stored_config (info.addr + cell_size) (info.addr + page_size) w'
          | status ↦ returns (status, w')
        ]
    | undefined ↦ undefined
    | unfinished ↦ unfinished
  ]
