-- ===== src/Tux/Discipline.antt =====
-- mp2_rthakk21/module/tuxctl-ld.c: the line discipline between the serial line's driver and the
-- controller's driver, without `tuxctl_ldisc_rcv_buf`, which Receive has.
use ece391_sp.Prelude.{ℕ, ◌+◌, ◌≡◌, List, ◌++◌, Option, none, some, take, ℤ, pos, negsuc, ◌>>=◌}
use ece391_sp.Tux.Ring.{Ring, fill, drain}

-- The serial line's driver, which is the Linux kernel's: what `write` takes of some bytes.
pub record Line (D : Type 0) : Type 0 where
  pub write_room : D → ℕ
  pub write : List ℕ → D → ℕ × D

-- What the kernel documents of it: the bytes that it has taken, of which `write` adds as many as
-- there is room for.
pub record LineLaws {D : Type 0} (line : Line D) : Type 0 where
  pub taken : D → List ℕ
  pub taken-write :
      (bytes : List ℕ) (d : D)
      → taken (line.write bytes d).1 ≡ taken d ++ take (line.write_room d) bytes

-- `tuxctl_ldisc_data_t`, less its magic number, which nothing reads.
pub record LdiscData : Type 0 where
  pub rx : Ring
  pub tx : Ring

-- A `tty_struct`: `disc_data`, where `none` is NULL, and the line's driver.
pub record Tty (D : Type 0) : Type 0 where
  pub disc_data : Option LdiscData
  pub device : D

abbrev empty_ring : List ℕ → Ring
empty_ring buf = record { buf = buf; start = 0; end = 0 }

module _ {D : Type 0} where
  -- `memory` is what `kmalloc` returns: the two buffers with the bytes that they happen to hold.
  unfoldable pub tuxctl_ldisc_open : Option (List ℕ × List ℕ) → Tty D → ℤ × Tty D
  tuxctl_ldisc_open none t = (negsuc 11, t)
  tuxctl_ldisc_open (some (rx_buf, tx_buf)) t =
      let ldisc : LdiscData = record { rx = empty_ring rx_buf; tx = empty_ring tx_buf } in
      (pos 0, record t { disc_data = some ldisc })

  unfoldable pub tuxctl_ldisc_close : Tty D → Tty D
  tuxctl_ldisc_close t = record t { disc_data = none }

  -- The bytes, whose number the code returns. A NULL `disc_data` is read, which is `none`.
  unfoldable pub tuxctl_ldisc_get : ℕ → Tty D → Option (List ℕ × Tty D)
  tuxctl_ldisc_get n t = do
    ldisc ← t.disc_data
    let (bytes, rx) = drain n ldisc.rx
    some (bytes, record t { disc_data = some (record ldisc { rx = rx }) })

module _ {D : Type 0} (line : Line D) where
  -- The loop runs while `n <= room`: for at most one byte more than the driver has room for.
  unfoldable pub tuxctl_ldisc_write_wakeup : Tty D → Option (Tty D)
  tuxctl_ldisc_write_wakeup t = do
    ldisc ← t.disc_data
    let (bytes, tx) = drain (line.write_room t.device + 1) ldisc.tx
    let (sent, device) = line.write bytes t.device
    some (record { disc_data = some (record ldisc { tx = tx }); device = device })

  -- The number of bytes not stored, beside the state.
  unfoldable pub tuxctl_ldisc_put : List ℕ → Tty D → Option (ℕ × Tty D)
  tuxctl_ldisc_put bytes t = do
    ldisc ← t.disc_data
    let (left, tx) = fill bytes ldisc.tx
    t' ← tuxctl_ldisc_write_wakeup (record t { disc_data = some (record ldisc { tx = tx }) })
    some (left, t')
