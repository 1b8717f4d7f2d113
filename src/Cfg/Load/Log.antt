-- ===== src/Cfg/Load/Log.antt =====
-- handler.hpp: what `load` is to make of the entries of a page, and one step of it.
use emlabcpp.Prelude.{
  ℕ, suc, ◌+◌, ◌≤◌, ◌≡◌, arith, true, false, Option, none, some, List, [], ◌∷◌, length, take, drop,
  if◌then◌else◌,
}
use emlabcpp.Protocol.Serializer.{Endian}
use emlabcpp.Cfg.{
  Status, success, on_kval_error, seen, not_seen, LoadIface, World, Exit, returns, undefined,
  unfinished,
}
use emlabcpp.Cfg.Cell.{DeserRes, deser_cell}
use emlabcpp.Cfg.Store.{decr_addr, manifest, manifest_value}
use emlabcpp.Cfg.Entry.{Entry, given}
use emlabcpp.Cfg.Load.{load_loop}

module _ {S : Type 0} (iface : LoadIface S) where
  -- The calls of the interface for the entries, in their order in the list.
  unfoldable pub deliver : List Entry → S → Status × S
  deliver [] s = (success, s)
  deliver (r ∷ rs) s =
      let (cr, s') = iface.check_key_cache r.key s in
      elim cr [
        | seen ↦ deliver rs s'
        | not_seen ↦
            let (ok, s'') = iface.on_kval r.key (given r) s' in
            elim ok [ true ↦ deliver rs s'' | false ↦ (on_kval_error, s'') ]
      ]

  -- the result without the buffer
  unfoldable pub outcome : Exit (Status × World S) → Option (Status × S)
  outcome (returns r) = some (r.0, r.1.object)
  outcome undefined = none
  outcome unfinished = none

  -- Reading gives the cells of a memory and does not change the object.
  abbrev pub Reads : List ℕ → Type 0
  Reads mem =
      (addr : ℕ) (s : S)
      → addr + 8 ≤ length mem
      → iface.read addr s ≡ (some (take 8 (drop addr mem)), s)

  module _ (e : Endian) where
    pub load_free :
        (fuel start addr low : ℕ) (w : World S) {tmp : List ℕ}
        → decr_addr addr 1 start ≡ (true, low)
        → iface.read low w.object ≡ (some tmp, w.object)
        → deser_cell e tmp ≡ none
        → load_loop iface e (suc fuel) start addr w ≡ load_loop iface e fuel start low w
    unfolding load_loop
    load_free fuel start addr low w d rd ds = ground (arith, d, rd, ds)

    pub load_end :
        (fuel start addr : ℕ) (w : World S)
        → (decr_addr addr 1 start).0 ≡ false
        → load_loop iface e (suc fuel) start addr w ≡ returns (success, w)
    unfolding load_loop
    load_end fuel start addr w d = ground (arith, d)

    pub load_entry :
        (fuel start addr low base : ℕ) (object : S) (buffer buffer' : List ℕ) (c : DeserRes)
        (r : Entry) (rs : List Entry) {tmp : List ℕ}
        → decr_addr addr 1 start ≡ (true, low)
        → iface.read low object ≡ (some tmp, object)
        → deser_cell e tmp ≡ some c
        → c.key ≡ r.key
        → ((s : S)
            → manifest_value iface.read e c start low (record { object = s; buffer = buffer })
              ≡ manifest (given r) base (record { object = s; buffer = buffer' }))
        → (if c.is_seq then (decr_addr low c.val start).1 else low) ≡ base
        → ((s : S)
            → outcome (load_loop iface e fuel start base (record { object = s; buffer = buffer }))
              ≡ some (deliver rs s))
        → ((s : S)
            → outcome (load_loop iface e fuel start base (record { object = s; buffer = buffer' }))
              ≡ some (deliver rs s))
        → outcome
            (load_loop iface e (suc fuel) start addr (record { object = object; buffer = buffer }))
          ≡ some (deliver (r ∷ rs) object)
    unfolding load_loop deliver outcome
    load_entry fuel start addr low base object buffer buffer' c r rs d rd ds same m skip ih ih' =
        let s1 = (iface.check_key_cache r.key object).1 in
        let s2 = (iface.on_kval r.key (given r) s1).1 in
        ground (arith, d, rd, ds, same, m s1, skip, ih s1, ih' s2)
