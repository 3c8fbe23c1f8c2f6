-- ===== src/Tux/Output.antt =====
-- mp2_rthakk21/module/tuxctl-ld.c: what `tuxctl_ldisc_put` stores and hands to the serial line.
use ece391_sp.Prelude.{ℕ, ◌+◌, ◌-◌, ◌≡◌, refl, ap, ◌∙◌, List, ◌++◌, some, length, take, drop, arith}
use Prim.Native.Nat.{min}
use ece391_sp.Filesystem.Contents.{take-take}
use ece391_sp.Tux.Ring.{Ring, IsRing, fill, drain}
use ece391_sp.Tux.Fifo.{contents, used, fill_lem, drain_lem, Filled, Drained}
use ece391_sp.Tux.Discipline.{
  Line, LineLaws, LdiscData, Tty, tuxctl_ldisc_write_wakeup, tuxctl_ldisc_put,
}

module _ {D : Type 0} (line : Line D) where
  -- The bytes that wait once a call has stored what there is room for.
  abbrev pub waiting : List ℕ → LdiscData → List ℕ
  waiting bytes ldisc = contents ldisc.tx ++ take (63 - used ldisc.tx) bytes

  abbrev pub room : Tty D → ℕ
  room t = line.write_room t.device + 1

  abbrev filled : List ℕ → LdiscData → Ring
  filled bytes ldisc = (fill bytes ldisc.tx).1

  -- The outcome of a call.
  pub record IsPut (bytes : List ℕ) (ldisc : LdiscData) (t t' : Tty D) (left : ℕ) : Type 0 where
    pub after : LdiscData
    pub buffers : t'.disc_data ≡ some after
    pub device : t'.device ≡ (line.write (take (room t) (waiting bytes ldisc)) t.device).1
    pub keeps : IsRing after.tx
    pub holds : contents after.tx ≡ drop (room t) (waiting bytes ldisc)
    pub same_rx : after.rx ≡ ldisc.rx
    pub not_stored : left ≡ length bytes - (63 - used ldisc.tx)

  -- `tuxctl_ldisc_put` on an open line returns. It stores what the ring has room for and returns
  -- the number of the others; the driver gets the oldest bytes that wait, one more than it has
  -- room for, and the ring keeps the others in order.
  pub put_lem :
      (bytes : List ℕ) (ldisc : LdiscData) (t : Tty D)
      → t.disc_data ≡ some ldisc
      → IsRing ldisc.tx
      → (t' : Tty D) × (left : ℕ) × (tuxctl_ldisc_put line bytes t ≡ some (left, t'))
        × IsPut bytes ldisc t t' left
  unfolding tuxctl_ldisc_put tuxctl_ldisc_write_wakeup
  put_lem bytes ldisc t e v =
      let f : Filled ldisc.tx bytes = fill_lem bytes v in
      let d : Drained (room t) (filled bytes ldisc) = drain_lem (room t) f.keeps in
      let (bytes', tx) = drain (room t) (filled bytes ldisc) in
      let after : LdiscData = record { rx = ldisc.rx; tx = tx } in
      (
        record { disc_data = some after; device = (line.write bytes' t.device).1 },
        (fill bytes ldisc.tx).0,
        rw e,
        record {
          after = after;
          buffers = refl;
          device = ap (λ l. (line.write l t.device).1) (d.out ∙ ap (take (room t)) f.holds);
          keeps = d.keeps;
          holds = d.holds ∙ ap (drop (room t)) f.holds;
          same_rx = refl;
          not_stored = f.left;
        },
      )

  -- On an open line the call returns, and of the bytes that wait once it has stored what there is
  -- room for, all are in the driver's record or in the ring afterwards, in order, less the one
  -- after those that the driver had room for, if there was one. `taken` is the driver's record.
  pub put-conserves :
      (laws : LineLaws line) (bytes : List ℕ) (ldisc : LdiscData) (t : Tty D)
      → t.disc_data ≡ some ldisc
      → IsRing ldisc.tx
      → (t' : Tty D) × (left : ℕ) × (after : LdiscData) × (tuxctl_ldisc_put line bytes t
          ≡ some (left, t'))
        × (t'.disc_data ≡ some after)
        × (laws.taken t'.device ++ contents after.tx
            ≡ (laws.taken t.device ++ take (line.write_room t.device) (waiting bytes ldisc))
              ++ drop (room t) (waiting bytes ldisc))
  put-conserves laws bytes ldisc t e v =
      let (t', left, returns, p) = put_lem bytes ldisc t e v in
      let kept : min (line.write_room t.device) (room t) ≡ line.write_room t.device = omega arith in
      let once : take (line.write_room t.device) (take (room t) (waiting bytes ldisc))
          ≡ take (line.write_room t.device) (waiting bytes ldisc) =
        take-take (line.write_room t.device) (room t) (waiting bytes ldisc)
        ∙ ap (λ n. take n (waiting bytes ldisc)) kept in
      (t', left, p.after, returns, p.buffers, rw (p.device, laws.taken-write, p.holds, once))
