-- ===== src/Tux/Receive.antt =====
-- mp2_rthakk21/module/tuxctl-ld.c: the reception of bytes from the controller, from the serial
-- line's interrupt to the packets that the driver handles.
use ece391_sp.Prelude.{ℕ, ◌-◌, List, ◌++◌, Option, none, some, length, ◌>>=◌}
use ece391_sp.Tux.Ring.{fill}
use ece391_sp.Tux.Frames.{look}
use ece391_sp.Tux.Discipline.{Line, LdiscData, tuxctl_ldisc_get}
use ece391_sp.Tux.Driver.{Tux, tuxctl_handle_packet}

module _ {D : Type 0} (line : Line D) where
  -- `packet` holds the saved bytes and as many of the ring as make twelve.
  unfoldable pub tuxctl_ldisc_data_callback : Tux D → Option (Tux D)
  tuxctl_ldisc_data_callback s = do
    (bytes, tty) ← tuxctl_ldisc_get (12 - length s.saved) s.tty
    (rest, s') ← look (tuxctl_handle_packet line) (s.saved ++ bytes) (record s { tty = tty })
    some (record s' { saved = rest })

  -- The ring takes the bytes that there is room for.
  unfoldable pub store_received : List ℕ → LdiscData → Tux D → Tux D
  store_received cp ldisc s =
      let (left, rx) = fill cp ldisc.rx in
      let old = s.tty in
      record s { tty = record old { disc_data = some (record ldisc { rx = rx }) } }

  -- The `count` bytes from `cp` on.
  unfoldable pub tuxctl_ldisc_rcv_buf : List ℕ → Tux D → Option (Tux D)
  tuxctl_ldisc_rcv_buf cp s = elim s.tty.disc_data [
    | none ↦ some s
    | some ldisc ↦ tuxctl_ldisc_data_callback (store_received cp ldisc s)
  ]
