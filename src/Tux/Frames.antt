-- ===== src/Tux/Frames.antt =====
-- mp2_rthakk21/module/tuxctl-ld.c: `tuxctl_ldisc_data_callback`'s search for packets in the bytes
-- that have come, and the stream of packets that the bytes stand for.
use ece391_sp.Prelude.{
  ℕ, ◌≡◌, ◌≤◌, refl, ◌∙◌, Bool, true, false, not, ◌&&◌, List, [], ◌∷◌, ◌++◌, Option, some, length,
  leb, ◌>>=◌, arith, Bool-cases, Option-cases, inl, inr,
}

-- The three bytes that `tuxctl_handle_packet` gets.
pub record Packet : Type 0 where
  pub byte0 : ℕ
  pub byte1 : ℕ
  pub byte2 : ℕ

-- The test of the framing bits, each bit 7 of an `unsigned char`.
unfoldable pub is_framed : ℕ → ℕ → ℕ → Bool
is_framed p0 p1 p2 = not (leb 128 p0) && (leb 128 p1 && leb 128 p2)

module _ {ℓ} {S : Type ℓ} (handle_packet : Packet → S → Option S) where
  -- The loop from `packet + i` on: the state, and the bytes left over, of which there are two or
  -- fewer.
  unfoldable pub look : List ℕ → S → Option (List ℕ × S)
  look (p0 ∷ p1 ∷ p2 ∷ rest) s = elim (is_framed p0 p1 p2) [
    | true ↦ handle_packet (record { byte0 = p0; byte1 = p1; byte2 = p2 }) s >>= look rest
    | false ↦ look (p1 ∷ p2 ∷ rest) s
  ]
  look bytes s = some (bytes, s)

  -- The handling of some packets one after the other.
  unfoldable pub handle_all : List Packet → S → Option S
  handle_all [] s = some s
  handle_all (p ∷ ps) s = handle_packet p s >>= handle_all ps

-- The packets of a stream of bytes.
unfoldable pub packets : List ℕ → List Packet
packets (p0 ∷ p1 ∷ p2 ∷ rest) = elim (is_framed p0 p1 p2) [
  | true ↦ record { byte0 = p0; byte1 = p1; byte2 = p2 } ∷ packets rest
  | false ↦ packets (p1 ∷ p2 ∷ rest)
]
packets bytes = []

-- The bytes at the stream's end that may begin a packet.
unfoldable pub leftover : List ℕ → List ℕ
leftover (p0 ∷ p1 ∷ p2 ∷ rest) = elim (is_framed p0 p1 p2) [
  | true ↦ leftover rest
  | false ↦ leftover (p1 ∷ p2 ∷ rest)
]
leftover bytes = bytes

pub length-leftover : (bytes : List ℕ) → length (leftover bytes) ≤ 2
unfolding leftover
length-leftover [] = omega arith
length-leftover (a ∷ []) = omega arith
length-leftover (a ∷ b ∷ []) = omega arith
length-leftover (a ∷ b ∷ c ∷ rest) =
    ground (arith, length-leftover rest, length-leftover (b ∷ c ∷ rest))

abbrev packet : ℕ → ℕ → ℕ → Packet
packet p0 p1 p2 = record { byte0 = p0; byte1 = p1; byte2 = p2 }

module _ (a b c : ℕ) (rest : List ℕ) where
  packets_framed : is_framed a b c ≡ true → packets (a ∷ b ∷ c ∷ rest) ≡ packet a b c ∷ packets rest
  unfolding packets
  packets_framed e = rw (packets, e)

  packets_unframed : is_framed a b c ≡ false → packets (a ∷ b ∷ c ∷ rest) ≡ packets (b ∷ c ∷ rest)
  unfolding packets
  packets_unframed e = rw (packets, e)

  leftover_framed : is_framed a b c ≡ true → leftover (a ∷ b ∷ c ∷ rest) ≡ leftover rest
  unfolding leftover
  leftover_framed e = rw (leftover, e)

  leftover_unframed :
      is_framed a b c ≡ false → leftover (a ∷ b ∷ c ∷ rest) ≡ leftover (b ∷ c ∷ rest)
  unfolding leftover
  leftover_unframed e = rw (leftover, e)

module _ {ℓ} {S : Type ℓ} (handle_packet : Packet → S → Option S) where
  look_framed :
      (a b c : ℕ) (rest : List ℕ) (s : S)
      → is_framed a b c ≡ true
      → look handle_packet (a ∷ b ∷ c ∷ rest) s
        ≡ (handle_packet (packet a b c) s >>= look handle_packet rest)
  unfolding look
  look_framed a b c rest s e = rw (look, e)

  look_unframed :
      (a b c : ℕ) (rest : List ℕ) (s : S)
      → is_framed a b c ≡ false
      → look handle_packet (a ∷ b ∷ c ∷ rest) s ≡ look handle_packet (b ∷ c ∷ rest) s
  unfolding look
  look_unframed a b c rest s e = rw (look, e)

  -- What the loop comes to, in terms of the stream.
  abbrev outcome : List ℕ → S → Option (List ℕ × S)
  outcome bytes s = handle_all handle_packet (packets bytes) s >>= λ s'. some (leftover bytes, s')

  outcome_framed :
      (a b c : ℕ) (rest : List ℕ) (s : S)
      → is_framed a b c ≡ true
      → ((s' : S) → look handle_packet rest s' ≡ outcome rest s')
      → look handle_packet (a ∷ b ∷ c ∷ rest) s ≡ outcome (a ∷ b ∷ c ∷ rest) s
  unfolding handle_all
  outcome_framed a b c rest s e ih =
      rw (look_framed a b c rest s e, packets_framed a b c rest e, leftover_framed a b c rest e)
        (elim (Option-cases (handle_packet (packet a b c) s)) [
          | inl fails ↦ rw fails
          | inr (s', eq) ↦ rw eq (ih s')
        ])

  -- The loop handles the packets of the bytes and leaves their end.
  pub look_lem : (bytes : List ℕ) (s : S) → look handle_packet bytes s ≡ outcome bytes s
  unfolding look handle_all packets leftover
  look_lem [] s = refl
  look_lem (a ∷ []) s = refl
  look_lem (a ∷ b ∷ []) s = refl
  look_lem (a ∷ b ∷ c ∷ rest) s = elim (Bool-cases (is_framed a b c)) [
    | inl framed ↦ outcome_framed a b c rest s framed (look_lem rest)
    | inr unframed ↦
        rw
          (
            look_unframed a b c rest s unframed,
            packets_unframed a b c rest unframed,
            leftover_unframed a b c rest unframed,
          )
          (look_lem (b ∷ c ∷ rest) s)
  ]

-- Handling two runs of packets is handling the one and then the other.
pub handle_all-append {ℓ} :
    {S : Type ℓ} (handle_packet : Packet → S → Option S) (ps qs : List Packet) (s : S)
    → handle_all handle_packet (ps ++ qs) s
      ≡ (handle_all handle_packet ps s >>= handle_all handle_packet qs)
unfolding handle_all
handle_all-append handle_packet [] qs s = refl
handle_all-append handle_packet (p ∷ ps) qs s = elim (Option-cases (handle_packet p s)) [
  | inl fails ↦ rw fails
  | inr (s', eq) ↦ rw eq (handle_all-append handle_packet ps qs s')
]

-- The bytes that are left over stand for themselves: cutting a stream anywhere, and beginning the
-- second search at the bytes that the first left over, gives the packets of the whole stream and
-- leaves over what the whole stream leaves.
pub packets-append :
    (xs ys : List ℕ)
    → (packets (xs ++ ys) ≡ packets xs ++ packets (leftover xs ++ ys))
      × (leftover (xs ++ ys) ≡ leftover (leftover xs ++ ys))
unfolding packets leftover
packets-append [] ys = (refl, refl)
packets-append (a ∷ []) ys = (refl, refl)
packets-append (a ∷ b ∷ []) ys = (refl, refl)
packets-append (a ∷ b ∷ c ∷ rest) ys = elim (Bool-cases (is_framed a b c)) [
  | inl framed ↦
      let (p, l) = packets-append rest ys in
      (
        packets_framed a b c (rest ++ ys) framed
            ∙ rw (packets_framed a b c rest framed, leftover_framed a b c rest framed, p),
        leftover_framed a b c (rest ++ ys) framed ∙ rw (leftover_framed a b c rest framed) l,
      )
  | inr unframed ↦
      let (p, l) = packets-append (b ∷ c ∷ rest) ys in
      (
        packets_unframed a b c (rest ++ ys) unframed
            ∙ rw (packets_unframed a b c rest unframed, leftover_unframed a b c rest unframed) p,
        leftover_unframed a b c (rest ++ ys) unframed
            ∙ rw (leftover_unframed a b c rest unframed) l,
      )
]
