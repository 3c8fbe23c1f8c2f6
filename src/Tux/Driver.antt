-- ===== src/Tux/Driver.antt =====
-- mp2_rthakk21/module/tuxctl-ioctl.c: the driver of the Tux controller, with the state of the line
-- discipline that it writes to.
use ece391_sp.Prelude.{
  ℕ, ◌+◌, ◌*◌, ◌%◌, ◌≡◌, ◌≤◌, ◌<◌, List, [], ◌∷◌, Option, some, length, ◌==◌, if◌then◌else◌, ◌>>=◌,
  ℤ, pos, negsuc,
}
use ece391_sp.Tux.Ring.{IsRing}
use ece391_sp.Tux.Frames.{Packet}
use ece391_sp.Tux.Display.{bit, led_set_buf}
use ece391_sp.Tux.Discipline.{Line, LdiscData, Tty, tuxctl_ldisc_put}

-- The line, the globals of tuxctl-ioctl.c, and the static bytes of `tuxctl_ldisc_data_callback`.
pub record Tux (D : Type 0) : Type 0 where
  pub tty : Tty D
  pub ack_flag : ℕ
  pub button_val : ℕ
  pub prev_state_leds : ℕ
  pub saved : List ℕ

-- The ioctls; `other` is a number that is none of them.
pub data Cmd : Type 0 where
  tux_set_led_cmd tux_read_led_cmd tux_buttons_cmd tux_init_cmd tux_led_request_cmd : Cmd
  tux_led_ack_cmd : Cmd
  other_cmd : ℕ → Cmd

-- MTCP_ACK, MTCP_BIOC_EVENT and MTCP_RESET.
abbrev pub mtcp_ack : ℕ
mtcp_ack = 0x40

abbrev pub mtcp_bioc_event : ℕ
mtcp_bioc_event = 0x41

abbrev pub mtcp_reset : ℕ
mtcp_reset = 0x46

-- -EINVAL
abbrev pub einval : ℤ
einval = negsuc 21

-- The byte of an event's two: [right, left, down, up, C, B, A, START].
unfoldable pub button_byte : ℕ → ℕ → ℕ
button_byte b c =
    let right = bit 3 c * 8 in
    let down = bit 2 c * 2 in
    let left = bit 1 c * 4 in let up = bit 0 c in b % 16 + (right + left + down + up) * 16

-- The user's memory, which `copy_to_user` writes to: the number of bytes not copied, and the memory.
pub record UserMemory (U : Type 0) : Type 0 where
  pub copy_to_user : ℕ → ℕ → U → ℕ × U

module _ {D : Type 0} (line : Line D) where
  -- MTCP_BIOC_ON and MTCP_LED_USR.
  unfoldable pub tux_init : Tux D → Option (ℤ × Tux D)
  tux_init s = do
    (left, tty) ← tuxctl_ldisc_put line (0xC3 ∷ 0xC8 ∷ []) s.tty
    some (pos 0, record s { tty = tty; ack_flag = 1 })

  unfoldable pub tux_set_led : ℕ → Tux D → Option (ℤ × Tux D)
  tux_set_led arg s = do
    (left, tty) ← tuxctl_ldisc_put line (led_set_buf arg) s.tty
    some (pos 0, record s { tty = tty })

  -- The cases of the switch, each of which goes on with the next one's statements.
  unfoldable pub on_reset : Tux D → Option (Tux D)
  on_reset s = do (ret, s1) ← tux_init s; (ret', s2) ← tux_set_led s.prev_state_leds s1; some s2

  unfoldable pub on_ack : Tux D → Option (Tux D)
  on_ack s = on_reset (record s { ack_flag = 1 })

  unfoldable pub on_bioc_event : Packet → Tux D → Option (Tux D)
  on_bioc_event p s = on_ack (record s { button_val = button_byte p.byte1 p.byte2 })

  unfoldable pub tuxctl_handle_packet : Packet → Tux D → Option (Tux D)
  tuxctl_handle_packet p s =
      if p.byte0 == mtcp_bioc_event
      then on_bioc_event p s
      else if p.byte0 == mtcp_ack
      then on_ack s
      else if p.byte0 == mtcp_reset
      then on_reset s
      else some s

  module _ {U : Type 0} (user : UserMemory U) where
    unfoldable pub tux_buttons : ℕ → Tux D → U → ℤ × U
    tux_buttons arg s u =
        let (copy_ret, u') = user.copy_to_user arg s.button_val u in
        if arg == 0 then (einval, u) else if copy_ret == 0 then (pos 0, u') else (einval, u')

    unfoldable pub set_led_ioctl : ℕ → Tux D → Option (ℤ × Tux D)
    set_led_ioctl arg s =
        let sent = tux_set_led arg (record s { ack_flag = 0; prev_state_leds = arg }) in
        if s.ack_flag == 1 then sent else some (pos 0, s)

    unfoldable pub tuxctl_ioctl : Cmd → ℕ → Tux D → U → Option (ℤ × Tux D × U)
    tuxctl_ioctl tux_init_cmd arg s u = do (ret, s') ← tux_init s; some (ret, s', u)
    tuxctl_ioctl tux_buttons_cmd arg s u = do let (ret, u') = tux_buttons arg s u; some (ret, s, u')
    tuxctl_ioctl tux_set_led_cmd arg s u = do (ret, s') ← set_led_ioctl arg s; some (ret, s', u)
    tuxctl_ioctl cmd arg s u = some (einval, s, u)

-- An open line with valid rings, and globals in their ranges.
pub record IsTux {D : Type 0} (s : Tux D) : Type 0 where
  pub ldisc : LdiscData
  pub opened : s.tty.disc_data ≡ some ldisc
  pub rx_valid : IsRing ldisc.rx
  pub tx_valid : IsRing ldisc.tx
  pub few_saved : length s.saved ≤ 2
  pub flag : s.ack_flag ≤ 1
  pub button_valid : s.button_val < 256
