-- ===== src/Tux/Reception.antt =====
-- mp2_rthakk21/module/tuxctl-ld.c: what a sequence of receptions comes to.
use ece391_sp.Prelude.{
  ℕ, zero, suc, ◌-◌, ◌≡◌, ◌≤◌, refl, sym, ap, ◌∙◌, List, [], ◌∷◌, ◌++◌, some, length, take, arith,
  length-append,
}
use mathlib.Core.List.{append-nil, append_assoc}
use ece391_sp.Tux.Ring.{fill}
use ece391_sp.Tux.Fifo.{contents, used, Filled, fill_lem, length-contents}
use ece391_sp.Tux.Frames.{Packet, packets, leftover, packets-append}
use ece391_sp.Tux.Discipline.{Line, LdiscData}
use ece391_sp.Tux.Driver.{Tux, IsTux}
use ece391_sp.Tux.Receive.{store_received, tuxctl_ldisc_data_callback, tuxctl_ldisc_rcv_buf}
use ece391_sp.Tux.Stream.{pending, CalledBack, callback_lem}

module _ {D : Type 0} (line : Line D) where
  -- What a reception does: the ring takes the bytes that there is room for, and a callback follows.
  pub record Received (cp : List ℕ) {s : Tux D} (v : IsTux s) (s' : Tux D) : Type 0 where
    pub stored : IsTux (store_received line cp v.ldisc s)
    pub bytes :
        pending (store_received line cp v.ldisc s) stored
        ≡ pending s v ++ take (63 - used v.ldisc.rx) cp
    pub callback : CalledBack line stored s'

  stored_lem :
      (cp : List ℕ) {s : Tux D} (v : IsTux s)
      → (w : IsTux (store_received line cp v.ldisc s)) × (pending
            (store_received line cp v.ldisc s)
            w
          ≡ pending s v ++ take (63 - used v.ldisc.rx) cp)
  unfolding store_received
  stored_lem cp {s} v =
      let f : Filled v.ldisc.rx cp = fill_lem cp v.rx_valid in
      (
        record {
          ldisc = record { rx = (fill cp v.ldisc.rx).1; tx = v.ldisc.tx };
          opened = refl;
          rx_valid = f.keeps;
          tx_valid = v.tx_valid;
          few_saved = v.few_saved;
          flag = v.flag;
          button_valid = v.button_valid;
        },
        ap (λ l. s.saved ++ l) f.holds
            ∙ sym (append_assoc s.saved (contents v.ldisc.rx) (take (63 - used v.ldisc.rx) cp)),
      )

  rcv_buf_open :
      (cp : List ℕ) (s : Tux D) {ldisc : LdiscData}
      → s.tty.disc_data ≡ some ldisc
      → tuxctl_ldisc_rcv_buf line cp s
        ≡ tuxctl_ldisc_data_callback line (store_received line cp ldisc s)
  unfolding tuxctl_ldisc_rcv_buf
  rcv_buf_open cp s e = rw e

  -- A reception on an open line returns.
  pub tuxctl_ldisc_rcv_buf_lem :
      (cp : List ℕ) {s : Tux D} (v : IsTux s)
      → (s' : Tux D) × (tuxctl_ldisc_rcv_buf line cp s ≡ some s') × Received cp v s'
  tuxctl_ldisc_rcv_buf_lem cp {s} v =
      let (w, e) = stored_lem cp v in
      let (s', returns, c) = callback_lem line w in
      (s', rcv_buf_open cp s v.opened ∙ returns, record { stored = w; bytes = e; callback = c })

  -- Receptions one after the other, with the packets that they handle.
  pub data Receives : Tux D → List (List ℕ) → List Packet → Tux D → Type 0 where
    nothing : {s : Tux D} → Receives s [] [] s
    next :
        {s s1 s2 : Tux D} {cp : List ℕ} {cps : List (List ℕ)} {ps : List Packet} (v : IsTux s)
        (r : Received cp v s1)
        → tuxctl_ldisc_rcv_buf line cp s ≡ some s1
        → Receives s1 cps ps s2
        → Receives s (cp ∷ cps) (r.callback.handled ++ ps) s2

  -- The chunks in one stream.
  unfoldable pub joined : List (List ℕ) → List ℕ
  joined [] = []
  joined (cp ∷ cps) = cp ++ joined cps

  -- Each chunk has ten bytes or fewer.
  pub data IsSmall : List (List ℕ) → Type 0 where
    no_chunk : IsSmall []
    small_chunk :
        {cp : List ℕ} {cps : List (List ℕ)} → length cp ≤ 10 → IsSmall cps → IsSmall (cp ∷ cps)

  few_packets : (bytes : List ℕ) → length bytes ≤ 2 → packets bytes ≡ []
  unfolding packets
  few_packets [] few = refl
  few_packets (a ∷ []) few = refl
  few_packets (a ∷ b ∷ []) few = refl
  few_packets (a ∷ b ∷ c ∷ rest) few = absurd (omega (arith, few))

  few_leftover : (bytes : List ℕ) → length bytes ≤ 2 → leftover bytes ≡ bytes
  unfolding leftover
  few_leftover [] few = refl
  few_leftover (a ∷ []) few = refl
  few_leftover (a ∷ b ∷ []) few = refl
  few_leftover (a ∷ b ∷ c ∷ rest) few = absurd (omega (arith, few))

  take_enough : (n : ℕ) (xs : List ℕ) → length xs ≤ n → take n xs ≡ xs
  take_enough zero [] h = refl
  take_enough (suc n) [] h = refl
  take_enough zero (x ∷ xs) h = absurd (omega (arith, h))
  take_enough (suc n) (x ∷ xs) h = ap (λ l. x ∷ l) (take_enough n xs (omega (arith, h)))

  -- A line that waits for bytes: the ring is empty.
  abbrev pub IsDrained : {s : Tux D} → IsTux s → Type 0
  IsDrained v = contents v.ldisc.rx ≡ []

  -- One reception of ten bytes or fewer by a line whose ring is empty.
  module _ (cp : List ℕ) {s s' : Tux D} (v : IsTux s) (r : Received cp v s') where
    small_pending :
        length cp ≤ 10
        → IsDrained v
        → pending (store_received line cp v.ldisc s) r.stored ≡ s.saved ++ cp
    small_pending few idle =
        let empty : used v.ldisc.rx ≡ 0 =
          sym (length-contents v.ldisc.rx.buf v.ldisc.rx.start (used v.ldisc.rx))
          ∙ ap length idle in
        r.bytes
        ∙ ap (λ l. (s.saved ++ l) ++ take (63 - used v.ldisc.rx) cp) idle
        ∙ ap (λ l. l ++ take (63 - used v.ldisc.rx) cp) (append-nil s.saved)
        ∙ ap (λ l. s.saved ++ l) (take_enough (63 - used v.ldisc.rx) cp (omega (arith, few)))

    small_seen : length cp ≤ 10 → IsDrained v → IsDrained r.callback.valid
    small_seen few idle = r.callback.all_seen (
        omega
          (arith, few, v.few_saved, length-append s.saved cp, ap length (small_pending few idle)))

    small_handled :
        length cp ≤ 10
        → IsDrained v
        → (r.callback.handled ≡ packets (s.saved ++ cp)) × (s'.saved ≡ leftover (s.saved ++ cp))
    small_handled few idle =
        let after : pending s' r.callback.valid ≡ s'.saved =
          ap (λ l. s'.saved ++ l) (small_seen few idle) ∙ append-nil s'.saved in
        (
          sym (append-nil r.callback.handled)
              ∙ ap (λ l. r.callback.handled ++ l)
                  (sym (ap packets after ∙ few_packets s'.saved r.callback.valid.few_saved))
              ∙ r.callback.stream
              ∙ ap packets (small_pending few idle),
          sym (few_leftover s'.saved r.callback.valid.few_saved)
              ∙ ap leftover (sym after)
              ∙ r.callback.rest
              ∙ ap leftover (small_pending few idle),
        )

  -- On an open line with no byte waiting, receptions of ten bytes or fewer each all return. They
  -- handle, in order, the packets of the stream of bytes that begins with the saved ones, however
  -- it is cut into receptions, and they save what the stream leaves over.
  pub receives_lem :
      (cps : List (List ℕ)) {s : Tux D} (v : IsTux s)
      → IsSmall cps
      → IsDrained v
      → (s' : Tux D) × (ps : List Packet) × Receives s cps ps s'
        × (ps ≡ packets (s.saved ++ joined cps))
        × (s'.saved ≡ leftover (s.saved ++ joined cps))
  unfolding joined
  receives_lem [] {s} v small idle =
      let whole = append-nil s.saved in
      (
        s,
        [],
        nothing,
        sym (few_packets s.saved v.few_saved) ∙ ap packets (sym whole),
        sym (few_leftover s.saved v.few_saved) ∙ ap leftover (sym whole),
      )
  receives_lem (cp ∷ cps) {s} v (small_chunk few small) idle =
      let (s1, e, r) = tuxctl_ldisc_rcv_buf_lem cp v in
      let (handled, saved) = small_handled cp v r few idle in
      let (s2, ps, run, all, end) =
        receives_lem cps r.callback.valid small (small_seen cp v r few idle) in
      let (p, l) = packets-append (s.saved ++ cp) (joined cps) in
      let whole = append_assoc s.saved cp (joined cps) in
      (
        s2,
        r.callback.handled ++ ps,
        next v r e run,
        ap (λ l. l ++ ps) handled
            ∙ ap (λ l. packets (s.saved ++ cp) ++ l)
                (all ∙ ap (λ k. packets (k ++ joined cps)) saved)
            ∙ sym p
            ∙ ap packets whole,
        end ∙ ap (λ k. leftover (k ++ joined cps)) saved ∙ sym l ∙ ap leftover whole,
      )
