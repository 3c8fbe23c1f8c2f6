-- ===== src/Tux/Display.antt =====
-- mp2_rthakk21/module/tuxctl-ioctl.c: the bytes that light the controller's four displays.
use ece391_sp.Prelude.{
  ℕ, ◌+◌, ◌*◌, ◌/◌, ◌%◌, ◌^◌, ◌≡◌, ◌≢◌, ◌<◌, refl, ap, Bool, true, false, ◌&&◌, ◌||◌, List, [], ◌∷◌,
  get_or, ◌==◌, if◌then◌else◌, arith, checked, checked-true,
}

-- SS0 to SSF, as `display_byte_array` lists them.
abbrev display_byte_array : List ℕ
display_byte_array =
    0xE7 ∷ 0x06 ∷ 0xCB ∷ 0x8F ∷ 0x2E ∷ 0xAD ∷ 0xED ∷ 0x86 ∷ 0xEF ∷ 0xAF ∷ 0xEE ∷ 0x6D ∷ 0xE1 ∷ 0x4F
    ∷ 0xEA ∷ 0xE8 ∷ []

-- The callers pass digits under 16, so no index is out of range.
unfoldable pub hex_num_to_byte : ℕ → ℕ
hex_num_to_byte input = get_or display_byte_array input 0

-- Bit `k` of a number: the masks BITWISE_MASK2 >> (3 - k) and the shift that follows.
abbrev pub bit : ℕ → ℕ → ℕ
bit k n = n / 2 ^ k % 2

-- One of the last four bytes of the packet: the digit with its decimal point, or 0 for a display
-- that is off.
unfoldable pub led_byte : ℕ → ℕ → ℕ → ℕ
led_byte led_status led_hex d =
    if led_status == 0 then 0 else (hex_num_to_byte led_hex + d * 16) % 256

-- The six bytes that `tux_set_led` sends for its argument, the first MTCP_LED_SET.
unfoldable pub led_set_buf : ℕ → List ℕ
led_set_buf arg =
    let extract_leds = arg / 2 ^ 16 % 16 in
    let extract_decimals = arg / 2 ^ 24 % 16 in
    0xC6
    ∷ extract_leds
    ∷ led_byte (bit 0 extract_leds) (arg % 16) (bit 0 extract_decimals)
    ∷ led_byte (bit 1 extract_leds) (arg / 16 % 16) (bit 1 extract_decimals)
    ∷ led_byte (bit 2 extract_leds) (arg / 16 / 16 % 16) (bit 2 extract_decimals)
    ∷ led_byte (bit 3 extract_leds) (arg / 16 / 16 / 16 % 16) (bit 3 extract_decimals)
    ∷ []

-- The segments of a display, and their bits: the drawing and the table over `hex_num_to_byte`.
pub data Segment : Type 0 where
  a b c d e f g : Segment

weight : Segment → ℕ
weight a = 128
weight e = 64
weight f = 32
weight g = 8
weight c = 4
weight b = 2
weight d = 1

unfoldable pub lit : List Segment → ℕ
unfolding weight
lit [] = 0
lit (s ∷ ss) = weight s + lit ss

-- How a seven-segment display shows a hexadecimal digit.
abbrev shapes : List (List Segment)
shapes =
    (a ∷ b ∷ c ∷ d ∷ e ∷ f ∷ [])
    ∷ (b ∷ c ∷ [])
    ∷ (a ∷ b ∷ d ∷ e ∷ g ∷ [])
    ∷ (a ∷ b ∷ c ∷ d ∷ g ∷ [])
    ∷ (b ∷ c ∷ f ∷ g ∷ [])
    ∷ (a ∷ c ∷ d ∷ f ∷ g ∷ [])
    ∷ (a ∷ c ∷ d ∷ e ∷ f ∷ g ∷ [])
    ∷ (a ∷ b ∷ c ∷ [])
    ∷ (a ∷ b ∷ c ∷ d ∷ e ∷ f ∷ g ∷ [])
    ∷ (a ∷ b ∷ c ∷ d ∷ f ∷ g ∷ [])
    ∷ (a ∷ b ∷ c ∷ e ∷ f ∷ g ∷ [])
    ∷ (c ∷ d ∷ e ∷ f ∷ g ∷ [])
    ∷ (a ∷ d ∷ e ∷ f ∷ [])
    ∷ (b ∷ c ∷ d ∷ e ∷ g ∷ [])
    ∷ (a ∷ d ∷ e ∷ f ∷ g ∷ [])
    ∷ (a ∷ e ∷ f ∷ g ∷ [])
    ∷ []

unfoldable pub shape : ℕ → List Segment
shape k = get_or shapes k []

-- A 'P'.
abbrev pub shape_p : List Segment
shape_p = a ∷ b ∷ e ∷ f ∷ g ∷ []

abbrev shape_test : ℕ → Bool
shape_test k = (k == 14) || (hex_num_to_byte k == lit (shape k))

shape_table : checked shape_test 16 ≡ true
unfolding checked hex_num_to_byte lit shape
shape_table = refl

-- A hexadecimal digit other than E is sent as the segments that show it; E is sent as the
-- segments of a P.
pub hex_num_to_byte-shape :
    (k : ℕ)
    → k < 16
    → (k ≢ 14 → hex_num_to_byte k ≡ lit (shape k)) × (k ≡ 14 → hex_num_to_byte k ≡ lit shape_p)
unfolding hex_num_to_byte lit
hex_num_to_byte-shape k below = (
  λ other. ground (arith, checked-true shape_test 16 k below shape_table),
  λ e. ap hex_num_to_byte e,
)

-- The segments that a byte lights, in the order of their letters.
unfoldable pub is_lit : ℕ → Segment → Bool
unfolding weight
is_lit byte s = byte / weight s % 2 == 1

unfoldable pub among : ℕ → List Segment → List Segment
among byte [] = []
among byte (s ∷ ss) = let rest = among byte ss in if is_lit byte s then s ∷ rest else rest

-- What a display shows of a byte: the segments that are lit, and the decimal point.
unfoldable pub shown : ℕ → List Segment × ℕ
shown byte = (among byte (a ∷ b ∷ c ∷ d ∷ e ∷ f ∷ g ∷ []), bit 4 byte)

-- The segments that the digits are sent as: their own, but those of a P for E.
abbrev pub glyph : ℕ → List Segment
glyph k = if k == 14 then shape_p else shape k

of_weight : ℕ → Segment
of_weight w =
    if w == 128
    then a
    else if w == 64
    then e
    else if w == 32
    then f
    else if w == 8
    then g
    else if w == 4
    then c
    else if w == 2
    then b
    else d

same_segments : List Segment → List Segment → Bool
same_segments [] [] = true
same_segments (s ∷ ss) (t ∷ ts) = (weight s == weight t) && same_segments ss ts
same_segments _ _ = false

abbrev as_sent : ℕ → ℕ → List Segment × ℕ → Bool
as_sent digit dot (ss, p) = same_segments ss (glyph digit) && (p == dot)

abbrev table_test : ℕ → Bool
table_test n = as_sent (n % 16) (n / 16) (shown (led_byte 1 (n % 16) (n / 16)))

abbrev pub dark : List Segment × ℕ
dark = ([], 0)

-- What display `k` shows of the packet that `tux_set_led` sends.
abbrev pub display : ℕ → ℕ → List Segment × ℕ
display k arg = shown (get_or (led_set_buf arg) (2 + k) 0)

-- What the argument asks for, by the comment over `tux_set_led`, but for a P where it has the digit E.
abbrev pub wanted : ℕ → ℕ → List Segment × ℕ
wanted k arg = if bit (16 + k) arg == 0 then dark else (glyph (arg / 16 ^ k % 16), bit (24 + k) arg)
