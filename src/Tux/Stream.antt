-- ===== src/Tux/Stream.antt =====
-- mp2_rthakk21/module/tuxctl-ld.c: the packets that the driver handles are those of the bytes that
-- the line has received, however these come in.
use ece391_sp.Prelude.{
  ℕ, ◌-◌, ◌≡◌, ◌≤◌, refl, sym, ap, ◌∙◌, List, [], ◌∷◌, ◌++◌, some, length, take, drop, arith,
  length-append, drop_past, take-append-drop,
}
use mathlib.Core.List.{append_assoc}
use ece391_sp.Tux.Ring.{Ring, IsRing, drain}
use ece391_sp.Tux.Fifo.{contents, Drained, drain_lem}
use ece391_sp.Tux.Frames.{
  Packet, packets, leftover, handle_all, look_lem, packets-append, length-leftover,
}
use ece391_sp.Tux.Discipline.{Line, tuxctl_ldisc_get}
use ece391_sp.Tux.Driver.{Tux, IsTux, tuxctl_handle_packet}
use ece391_sp.Tux.Packets.{Keeps, Keeps-trans, tuxctl_handle_packet_lem}
use ece391_sp.Tux.Receive.{tuxctl_ldisc_data_callback}

-- The bytes received that no packet has been made of.
abbrev pub pending : {D : Type 0} (s : Tux D) → IsTux s → List ℕ
pending s v = s.saved ++ contents v.ldisc.rx

module _ {D : Type 0} (line : Line D) where
  handle_all_lem :
      (ps : List Packet) {s : Tux D} (v : IsTux s)
      → (s' : Tux D) × (handle_all (tuxctl_handle_packet line) ps s ≡ some s') × Keeps s s' v
  unfolding handle_all
  handle_all_lem [] {s} v =
      (s, refl, record { valid = v; same_rx = refl; same_saved = refl; same_leds = refl })
  handle_all_lem (p ∷ ps) {s} v =
      let (s1, e1, h) = tuxctl_handle_packet_lem line p v in
      let (s2, e2, k) = handle_all_lem ps h.keeps.valid in (s2, rw e1 e2, Keeps-trans v h.keeps k)

  -- The state with another receiving ring.
  abbrev with_rx : (s : Tux D) → IsTux s → Ring → Tux D
  with_rx s v rx =
      let old = s.tty in
      let ldisc = v.ldisc in
      record s { tty = record old { disc_data = some (record ldisc { rx = rx }) } }

  with_rx-IsTux :
      {s : Tux D} (v : IsTux s) (rx : Ring)
      → IsRing rx
      → (w : IsTux (with_rx s v rx)) × (w.ldisc.rx ≡ rx)
  with_rx-IsTux v rx ok = (
    record {
      ldisc = record { rx = rx; tx = v.ldisc.tx };
      opened = refl;
      rx_valid = ok;
      tx_valid = v.tx_valid;
      few_saved = v.few_saved;
      flag = v.flag;
      button_valid = v.button_valid;
    },
    refl,
  )

  abbrev resave :
      {s : Tux D} (saved : List ℕ) → length saved ≤ 2 → IsTux s → IsTux (record s { saved = saved })
  resave saved few v = record {
    ldisc = v.ldisc;
    opened = v.opened;
    rx_valid = v.rx_valid;
    tx_valid = v.tx_valid;
    few_saved = few;
    flag = v.flag;
    button_valid = v.button_valid;
  }

  -- The bytes that a callback looks at, and what it leaves in the ring.
  module _ {s : Tux D} (v : IsTux s) where
    abbrev fetch : ℕ
    fetch = 12 - length s.saved

    abbrev looked : List ℕ
    looked = s.saved ++ take fetch (contents v.ldisc.rx)

    abbrev unseen : List ℕ
    unseen = drop fetch (contents v.ldisc.rx)

    pending-eq : pending s v ≡ looked ++ unseen
    pending-eq =
        ap (λ l. s.saved ++ l) (sym (take-append-drop fetch (contents v.ldisc.rx)))
        ∙ sym (append_assoc s.saved (take fetch (contents v.ldisc.rx)) unseen)

    get_lem :
        tuxctl_ldisc_get fetch s.tty
        ≡ some (take fetch (contents v.ldisc.rx), (with_rx s v (drain fetch v.ldisc.rx).1).tty)
    unfolding tuxctl_ldisc_get
    get_lem = let d : Drained fetch v.ldisc.rx = drain_lem fetch v.rx_valid in rw (v.opened, d.out)

    -- What a callback does.
    pub record CalledBack (s' : Tux D) : Type 0 where
      pub valid : IsTux s'
      pub handled : List Packet
      pub after : Tux D
      pub run :
          handle_all (tuxctl_handle_packet line) handled (with_rx s v (drain fetch v.ldisc.rx).1)
          ≡ some after
      pub same :
          s' ≡ record after { saved = leftover (s.saved ++ take fetch (contents v.ldisc.rx)) }
      pub stream : handled ++ packets (pending s' valid) ≡ packets (pending s v)
      pub rest : leftover (pending s' valid) ≡ leftover (pending s v)
      pub all_seen : length (pending s v) ≤ 12 → contents valid.ldisc.rx ≡ []

    pub callback_lem : (s' : Tux D) × (tuxctl_ldisc_data_callback line s ≡ some s') × CalledBack s'
    unfolding tuxctl_ldisc_data_callback
    callback_lem =
        let d : Drained fetch v.ldisc.rx = drain_lem fetch v.rx_valid in
        let (w, same_rx) = with_rx-IsTux v (drain fetch v.ldisc.rx).1 d.keeps in
        let (s2, e, k) = handle_all_lem (packets looked) w in
        let kept : contents k.valid.ldisc.rx ≡ unseen =
          ap contents (k.same_rx ∙ same_rx) ∙ d.holds in
        let (joined, left) = packets-append looked unseen in
        (
          record s2 { saved = leftover looked },
          rw (get_lem, look_lem, e),
          record {
            valid = resave (leftover looked) (length-leftover looked) k.valid;
            handled = packets looked;
            after = s2;
            run = e;
            same = refl;
            stream =
                ap (λ l. packets looked ++ packets (leftover looked ++ l)) kept
                ∙ sym joined
                ∙ ap packets (sym pending-eq);
            rest =
                ap (λ l. leftover (leftover looked ++ l)) kept
                ∙ sym left
                ∙ ap leftover (sym pending-eq);
            all_seen = λ few.
                kept
                ∙ drop_past fetch (contents v.ldisc.rx)
                    (omega (arith, few, length-append s.saved (contents v.ldisc.rx)));
          },
        )
