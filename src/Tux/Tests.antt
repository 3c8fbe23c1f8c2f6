-- ===== src/Tux/Tests.antt =====
-- Runs of the Tux controller's line discipline and driver, with a serial line that has room for 8 bytes.
use ece391_sp.Prelude.{
  ℕ, ◌≡◌, ◌≢◌, refl, ap, arith, List, [], ◌∷◌, ◌++◌, some, length, take, replicate, ℤ,
}
use ece391_sp.Tux.Ring.{Ring, IsRing}
use ece391_sp.Tux.Fifo.{contents}
use ece391_sp.Tux.Frames.{Packet, packets, leftover}
use ece391_sp.Tux.Discipline.{Line, LineLaws, LdiscData, Tty, tuxctl_ldisc_put}
use ece391_sp.Tux.Output.{put-conserves}
use ece391_sp.Tux.Display.{hex_num_to_byte, lit, shape, shape_p, hex_num_to_byte-shape}
use ece391_sp.Tux.Driver.{
  Tux, IsTux, UserMemory, tuxctl_handle_packet, tuxctl_ioctl, tux_buttons_cmd,
}
use ece391_sp.Tux.Packets.{Handled, tuxctl_handle_packet_lem}
use ece391_sp.Tux.Ioctl.{Called, tuxctl_ioctl_lem}
use ece391_sp.Tux.Reception.{Receives, no_chunk, small_chunk, joined, receives_lem}

-- The line's state is the bytes that it has taken.
abbrev line : Line (List ℕ)
line = record {
  write_room = λ sent. 8;
  write = λ bytes sent. (length (take 8 bytes), sent ++ take 8 bytes);
}

abbrev line_laws : LineLaws line
line_laws = record { taken = λ sent. sent; taken-write = λ bytes sent. refl }

abbrev user : UserMemory (List ℕ)
user = record { copy_to_user = λ at byte u. (0, byte ∷ u) }

abbrev empty : Ring
empty = record { buf = replicate 64 0; start = 0; end = 0 }

empty-IsRing : IsRing empty
empty-IsRing = record { storage = refl; start_in = omega arith; end_in = omega arith }

abbrev rings : LdiscData
rings = record { rx = empty; tx = empty }

abbrev opened : Tux (List ℕ)
opened = record {
  tty = record { disc_data = some rings; device = [] };
  ack_flag = 1;
  button_val = 0xFF;
  prev_state_leds = 0x040F0000;
  saved = [];
}

opened_lem : (v : IsTux opened) × (v.ldisc ≡ rings)
opened_lem = (
  record {
    ldisc = rings;
    opened = refl;
    rx_valid = empty-IsRing;
    tx_valid = empty-IsRing;
    few_saved = omega arith;
    flag = omega arith;
    button_valid = omega arith;
  },
  refl,
)

opened-IsTux : IsTux opened
opened-IsTux = opened_lem.0

-- Ten bytes, of which the line has room for eight: the ninth is lost.
put-conserves_example :
    (t' : Tty (List ℕ)) × (left : ℕ) × (after : LdiscData) × (tuxctl_ldisc_put line
        (1 ∷ 2 ∷ 3 ∷ 4 ∷ 5 ∷ 6 ∷ 7 ∷ 8 ∷ 9 ∷ 10 ∷ [])
        opened.tty
      ≡ some (left, t'))
    × (t'.disc_data ≡ some after)
    × (t'.device ++ contents after.tx ≡ 1 ∷ 2 ∷ 3 ∷ 4 ∷ 5 ∷ 6 ∷ 7 ∷ 8 ∷ 10 ∷ [])
put-conserves_example =
    put-conserves line line_laws (1 ∷ 2 ∷ 3 ∷ 4 ∷ 5 ∷ 6 ∷ 7 ∷ 8 ∷ 9 ∷ 10 ∷ []) rings opened.tty refl
      empty-IsRing

-- A button event in two parts, after a lost byte.
receives_lem_example :
    (s' : Tux (List ℕ)) × (ps : List Packet) × Receives line opened
      ((0xFF ∷ 0x41 ∷ []) ∷ (0x8F ∷ 0x8E ∷ []) ∷ [])
      ps
      s'
    × (ps ≡ packets (0xFF ∷ 0x41 ∷ 0x8F ∷ 0x8E ∷ []))
    × (s'.saved ≡ leftover (0xFF ∷ 0x41 ∷ 0x8F ∷ 0x8E ∷ []))
unfolding joined
receives_lem_example =
    receives_lem line ((0xFF ∷ 0x41 ∷ []) ∷ (0x8F ∷ 0x8E ∷ []) ∷ []) opened_lem.0
      (small_chunk (omega arith) (small_chunk (omega arith) no_chunk))
      (ap (λ (l : LdiscData). contents l.rx) opened_lem.1)

abbrev event : Packet
event = record { byte0 = 0x41; byte1 = 0x8F; byte2 = 0x8E }

tuxctl_handle_packet_lem_example :
    (s' : Tux (List ℕ)) × (tuxctl_handle_packet line event opened ≡ some s')
    × Handled line event opened-IsTux s'
tuxctl_handle_packet_lem_example = tuxctl_handle_packet_lem line event opened-IsTux

tuxctl_ioctl_lem_example :
    (ret : ℤ) × (s' : Tux (List ℕ)) × (u' : List ℕ) × (tuxctl_ioctl line user tux_buttons_cmd 0
        opened []
      ≡ some (ret, s', u'))
    × Called line user tux_buttons_cmd 0 opened s' [] ret
tuxctl_ioctl_lem_example = tuxctl_ioctl_lem line user tux_buttons_cmd 0 [] opened-IsTux

hex_num_to_byte-shape_example :
    (◌≢◌ {A = ℕ} 10 14 → hex_num_to_byte 10 ≡ lit (shape 10))
    × (◌≡◌ {A = ℕ} 10 14 → hex_num_to_byte 10 ≡ lit shape_p)
hex_num_to_byte-shape_example = hex_num_to_byte-shape 10 (omega arith)
