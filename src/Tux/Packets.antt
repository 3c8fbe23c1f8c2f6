-- ===== src/Tux/Packets.antt =====
-- mp2_rthakk21/module/tuxctl-ioctl.c: the driver's state after its operations.
use ece391_sp.Prelude.{
  ℕ, ◌≡◌, ◌≤◌, ◌<◌, refl, ap, ◌∙◌, Bool, ◌||◌, List, [], ◌∷◌, some, ◌==◌, if◌then◌else◌, pos, arith,
  Bool-cases, inl, inr,
}
use ece391_sp.Tux.Frames.{Packet}
use ece391_sp.Tux.Display.{led_set_buf}
use ece391_sp.Tux.Discipline.{Line, LdiscData, Tty, tuxctl_ldisc_put}
use ece391_sp.Tux.Output.{put_lem}
use ece391_sp.Tux.Driver.{
  Tux, IsTux, UserMemory, button_byte, tux_init, tux_set_led, on_reset, on_ack, on_bioc_event,
  tuxctl_handle_packet, set_led_ioctl, mtcp_ack, mtcp_bioc_event, mtcp_reset,
}

-- What no operation but those of the line's input changes, beside validity.
pub record Keeps {D : Type 0} (s s' : Tux D) (v : IsTux s) : Type 0 where
  pub valid : IsTux s'
  pub same_rx : valid.ldisc.rx ≡ v.ldisc.rx
  pub same_saved : s'.saved ≡ s.saved
  pub same_leds : s'.prev_state_leds ≡ s.prev_state_leds

button_byte-IsByte : (b c : ℕ) → button_byte b c < 256
unfolding button_byte
button_byte-IsByte b c = omega arith

module _ {D : Type 0} (line : Line D) where
  -- The line after a `put`, with other values of the globals.
  module _ (bytes : List ℕ) {s : Tux D} (v : IsTux s) where
    put_Keeps :
        (flag : ℕ)
        → flag ≤ 1
        → (tty : Tty D) × (left : ℕ) × (tuxctl_ldisc_put line bytes s.tty ≡ some (left, tty))
          × Keeps s (record s { tty = tty; ack_flag = flag }) v
    put_Keeps flag small =
        let (tty, left, e, p) = put_lem line bytes v.ldisc s.tty v.opened v.tx_valid in
        (
          tty,
          left,
          e,
          record {
            valid = record {
              ldisc = p.after;
              opened = p.buffers;
              rx_valid = rw p.same_rx (v.rx_valid);
              tx_valid = p.keeps;
              few_saved = v.few_saved;
              flag = small;
              button_valid = v.button_valid;
            };
            same_rx = p.same_rx;
            same_saved = refl;
            same_leds = refl;
          },
        )

  pub tux_init_lem :
      {s : Tux D} (v : IsTux s)
      → (s' : Tux D) × (tux_init line s ≡ some (pos 0, s'))
        × Keeps s s' v
        × (s'.ack_flag ≡ 1)
        × (s'.button_val ≡ s.button_val)
  unfolding tux_init
  tux_init_lem {s} v =
      let (tty, left, e, k) = put_Keeps (0xC3 ∷ 0xC8 ∷ []) v 1 (omega arith) in
      (record s { tty = tty; ack_flag = 1 }, rw e, k, refl, refl)

  pub tux_set_led_lem :
      (arg : ℕ) {s : Tux D} (v : IsTux s)
      → (s' : Tux D) × (tux_set_led line arg s ≡ some (pos 0, s'))
        × Keeps s s' v
        × (s'.ack_flag ≡ s.ack_flag)
        × (s'.button_val ≡ s.button_val)
  unfolding tux_set_led
  tux_set_led_lem arg {s} v =
      let (tty, left, e, k) = put_Keeps (led_set_buf arg) v s.ack_flag v.flag in
      (record s { tty = tty }, rw e, k, refl, refl)

module _ {D : Type 0} {s s' s'' : Tux D} where
  pub Keeps-trans : (v : IsTux s) (k : Keeps s s' v) → Keeps s' s'' k.valid → Keeps s s'' v
  Keeps-trans v k l = record {
    valid = l.valid;
    same_rx = l.same_rx ∙ k.same_rx;
    same_saved = l.same_saved ∙ k.same_saved;
    same_leds = l.same_leds ∙ k.same_leds;
  }

module _ {D : Type 0} (line : Line D) where
  on_reset_lem :
      {s : Tux D} (v : IsTux s)
      → (s' : Tux D) × (on_reset line s ≡ some s')
        × Keeps s s' v
        × (s'.ack_flag ≡ 1)
        × (s'.button_val ≡ s.button_val)
  unfolding on_reset
  on_reset_lem {s} v =
      let (s1, e1, k1, f1, b1) = tux_init_lem line v in
      let (s2, e2, k2, f2, b2) = tux_set_led_lem line s.prev_state_leds k1.valid in
      (s2, rw (e1, e2), Keeps-trans v k1 k2, f2 ∙ f1, b2 ∙ b1)

  -- Other values of the two globals, in their ranges.
  with_globals_lem :
      {s : Tux D} (flag button : ℕ)
      → flag ≤ 1
      → button < 256
      → (v : IsTux s)
      → (w : IsTux (record s { ack_flag = flag; button_val = button })) × (w.ldisc ≡ v.ldisc)
  with_globals_lem flag button hf hb v = (
    record {
      ldisc = v.ldisc;
      opened = v.opened;
      rx_valid = v.rx_valid;
      tx_valid = v.tx_valid;
      few_saved = v.few_saved;
      flag = hf;
      button_valid = hb;
    },
    refl,
  )

  reset_after :
      {s : Tux D} (button : ℕ) (v : IsTux s)
      → button < 256
      → (s' : Tux D) × (on_reset line (record s { ack_flag = 1; button_val = button }) ≡ some s')
        × Keeps s s' v
        × (s'.ack_flag ≡ 1)
        × (s'.button_val ≡ button)
  reset_after {s} button v below =
      let (v', same) = with_globals_lem 1 button (omega arith) below v in
      let (s', e, k, f, b) = on_reset_lem v' in
      (
        s',
        e,
        record {
          valid = k.valid;
          same_rx = k.same_rx ∙ ap (λ (l : LdiscData). l.rx) same;
          same_saved = k.same_saved;
          same_leds = k.same_leds;
        },
        f,
        b,
      )

-- Whether a packet is a button event, an acknowledgement or a reset.
abbrev pub is_known : Packet → Bool
is_known p = p.byte0 == mtcp_bioc_event || (p.byte0 == mtcp_ack || p.byte0 == mtcp_reset)

module _ {D : Type 0} (line : Line D) (p : Packet) {s : Tux D} (v : IsTux s) where
  -- The state after a packet.
  pub record Handled (s' : Tux D) : Type 0 where
    pub keeps : Keeps s s' v
    pub button :
        s'.button_val
        ≡ (if p.byte0 == mtcp_bioc_event then button_byte p.byte1 p.byte2 else s.button_val)
    pub acked : s'.ack_flag ≡ (if is_known p then 1 else s.ack_flag)

  -- On an open line the handling of any packet returns. It leaves the line open with its rings
  -- valid, and what came in, the saved bytes and the LEDs' last argument as they were; an event,
  -- and no other packet, sets the button byte; and an event, an acknowledgement or a reset leaves
  -- the flag at 1, so that an event allows the next write of the LEDs as an acknowledgement does.
  pub tuxctl_handle_packet_lem :
      (s' : Tux D) × (tuxctl_handle_packet line p s ≡ some s') × Handled s'
  unfolding tuxctl_handle_packet on_bioc_event on_ack
  tuxctl_handle_packet_lem = elim (Bool-cases (p.byte0 == mtcp_bioc_event)) [
    | inl event ↦
        let button = button_byte p.byte1 p.byte2 in
        let (s', e, k, f, b) = reset_after line button v (button_byte-IsByte p.byte1 p.byte2) in
        (s', rw event e, record { keeps = k; button = rw event b; acked = rw event f })
    | inr not_event ↦ elim (Bool-cases (p.byte0 == mtcp_ack)) [
      | inl ack ↦
          let (s', e, k, f, b) = reset_after line s.button_val v v.button_valid in
          (
            s',
            rw (not_event, ack) e,
            record { keeps = k; button = rw not_event b; acked = rw (not_event, ack) f },
          )
      | inr not_ack ↦ elim (Bool-cases (p.byte0 == mtcp_reset)) [
        | inl reset ↦
            let (s', e, k, f, b) = on_reset_lem line v in
            (
              s',
              rw (not_event, not_ack, reset) e,
              record {
                keeps = k;
                button = rw not_event b;
                acked = rw (not_event, not_ack, reset) f;
              },
            )
        | inr not_reset ↦ (
          s,
          rw (not_event, not_ack, not_reset),
          record {
            keeps = record { valid = v; same_rx = refl; same_saved = refl; same_leds = refl };
            button = rw not_event;
            acked = rw (not_event, not_ack, not_reset);
          },
        )
      ]
    ]
  ]

-- Two states that differ at most in what the LEDs' last argument is.
module _ {D : Type 0} {U : Type 0} (line : Line D) (user : UserMemory U) where
  with_leds_lem :
      {s : Tux D} (flag arg : ℕ)
      → flag ≤ 1
      → (v : IsTux s)
      → (w : IsTux (record s { ack_flag = flag; prev_state_leds = arg })) × (w.ldisc ≡ v.ldisc)
  with_leds_lem flag arg hf v = (
    record {
      ldisc = v.ldisc;
      opened = v.opened;
      rx_valid = v.rx_valid;
      tx_valid = v.tx_valid;
      few_saved = v.few_saved;
      flag = hf;
      button_valid = v.button_valid;
    },
    refl,
  )

  -- TUX_SET_LED on an open line returns 0. After an acknowledgement it remembers its argument,
  -- clears the flag and leaves the line valid; before one it changes nothing.
  pub set_led_ioctl_lem :
      (arg : ℕ) {s : Tux D} (v : IsTux s)
      → (s' : Tux D) × (set_led_ioctl line user arg s ≡ some (pos 0, s'))
        × IsTux s'
        × (s.ack_flag ≡ 1 → (s'.prev_state_leds ≡ arg) × (s'.ack_flag ≡ 0))
        × (s.ack_flag ≡ 0 → s' ≡ s)
  unfolding set_led_ioctl
  set_led_ioctl_lem arg {s} v = elim (Bool-cases (s.ack_flag == 1)) [
    | inl ready ↦
        let (w, same) = with_leds_lem 0 arg (omega arith) v in
        let (s', e, k, f, b) = tux_set_led_lem line arg w in
        (s', rw ready e, k.valid, (λ _. (k.same_leds, f)), λ z. absurd (ground (arith, ready, z)))
    | inr busy ↦ (s, rw busy, v, (λ z. absurd (ground (arith, busy, z))), λ _. refl)
  ]
