-- ===== src/Filesystem/Contents.antt =====
-- The data of files in mp3_group_59/student-distrib/filesystem.c: `read_data` against the sequence of
-- bytes that an inode's blocks make up.
use ece391_sp.Prelude.{
  ℕ, zero, suc, ◌+◌, ◌-◌, ◌/◌, ◌%◌, ◌^◌, ◌≤◌, ◌<◌, ◌≡◌, refl, sym, ap, ◌∙◌, some, List, [], ◌∷◌,
  ◌++◌, ◌==◌, ltb, leb, arith, length, take, drop, get_elem?, get_or, true, false, ℤ, pos, fail,
  to_u32, to_s32, u32_mod, length-append, length-take,
}
use Prim.Native.Nat.{min}
use native.Mathlib.Decide.{dec_lt, ℕ_discrete}
use ece391_sp.Filesystem.{Inode, Filesystem, bytes_4kb, file_byte, copy_bytes, read_data}

-- The bytes of the blocks that a list of block numbers names, in order.
unfoldable pub stream : Filesystem → List ℤ → List ℕ
stream fs [] = []
stream fs (num ∷ nums) = get_or fs.data_blocks (to_u32 num) [] ++ stream fs nums

-- The first `size` bytes lie in blocks that exist and are whole.
abbrev pub Holds : Filesystem → List ℤ → ℕ → Type 0
Holds fs [] size = size ≡ 0
Holds fs (num ∷ nums) size =
    (0 < size
      → (to_u32 num < length fs.data_blocks)
        × (length (get_or fs.data_blocks (to_u32 num) []) ≡ bytes_4kb))
    × Holds fs nums (size - bytes_4kb)

module _ {ℓ} {A : Type ℓ} where
  get_elem?-eq-get_or :
      (xs : List A) (i : ℕ) (d : A) → i < length xs → get_elem? xs i ≡ some (get_or xs i d)
  get_elem?-eq-get_or [] i d h = absurd (omega arith)
  get_elem?-eq-get_or (x ∷ xs) zero d h = refl
  get_elem?-eq-get_or (x ∷ xs) (suc i) d h = get_elem?-eq-get_or xs i d (omega arith)

  get_or-append_left :
      (xs ys : List A) (i : ℕ) (d : A) → i < length xs → get_or (xs ++ ys) i d ≡ get_or xs i d
  get_or-append_left [] ys i d h = absurd (omega arith)
  get_or-append_left (x ∷ xs) ys zero d h = refl
  get_or-append_left (x ∷ xs) ys (suc i) d h = get_or-append_left xs ys i d (omega arith)

  get_or-append_right :
      (xs ys : List A) (i : ℕ) (d : A)
      → length xs ≤ i
      → get_or (xs ++ ys) i d ≡ get_or ys (i - length xs) d
  get_or-append_right [] ys i d h = ap (λ k. get_or ys k d) (omega arith)
  get_or-append_right (x ∷ xs) ys zero d h = absurd (omega arith)
  get_or-append_right (x ∷ xs) ys (suc i) d h =
      get_or-append_right xs ys i d (omega arith) ∙ ap (λ k. get_or ys k d) (omega arith)

  drop-cons_get :
      (xs : List A) (i : ℕ) (d : A) → i < length xs → drop i xs ≡ get_or xs i d ∷ drop (i + 1) xs
  drop-cons_get [] i d h = absurd (omega arith)
  drop-cons_get (x ∷ xs) zero d h = refl
  drop-cons_get (x ∷ xs) (suc i) d h =
      let step : suc i + 1 ≡ suc (i + 1) = omega arith in
      rw step (drop-cons_get xs i d (omega arith))

-- A file's blocks hold at least its bytes.
pub length-stream :
    (fs : Filesystem) (nums : List ℤ) (size : ℕ)
    → Holds fs nums size
    → size ≤ length (stream fs nums)
unfolding stream
length-stream fs [] size h = omega arith
length-stream fs (num ∷ nums) size h = elim (dec_lt 0 size) [
  | yes p ↦ omega (
    arith,
    length-append {0} (get_or fs.data_blocks (to_u32 num) []) (stream fs nums),
    length-stream fs nums (size - bytes_4kb) h.1,
    h.0 p,
  )
  | no q ↦ omega arith
]

-- Every byte of the file is read at its place in the stream.
file_byte-stream :
    (fs : Filesystem) (nums : List ℤ) (size i : ℕ)
    → Holds fs nums size
    → i < size
    → file_byte fs nums i ≡ some (get_or (stream fs nums) i 0)
unfolding stream file_byte
file_byte-stream fs [] size i h lt = absurd (omega arith)
file_byte-stream fs (num ∷ nums) size i h lt = elim (dec_lt i bytes_4kb) [
  | yes p ↦
      let first : i / bytes_4kb ≡ 0 = omega arith in
      let place : i % bytes_4kb ≡ i = omega arith in
      let (known, whole) = h.0 (omega arith) in
      rw (
        first,
        place,
        get_elem?-eq-get_or fs.data_blocks (to_u32 num) [] known,
        get_elem?-eq-get_or (get_or fs.data_blocks (to_u32 num) []) i 0 (omega arith),
        get_or-append_left (get_or fs.data_blocks (to_u32 num) []) (stream fs nums) i 0
            (omega arith),
      )
  | no q ↦
      let later : i / bytes_4kb ≡ suc ((i - bytes_4kb) / bytes_4kb) = omega arith in
      let place : i % bytes_4kb ≡ (i - bytes_4kb) % bytes_4kb = omega arith in
      let (known, whole) = h.0 (omega arith) in
      let ih = file_byte-stream fs nums (size - bytes_4kb) (i - bytes_4kb) h.1 (omega arith) in
      rw
        (
          later,
          place,
          get_or-append_right (get_or fs.data_blocks (to_u32 num) []) (stream fs nums) i 0
              (omega arith),
          whole,
        )
        ih
]

-- The loop copies the bytes from its index on, up to the end of the file or of its rounds.
copy_bytes-stream :
    (fs : Filesystem) (ino : Inode) (size : ℕ)
    → to_u32 ino.length ≡ size
    → Holds fs ino.data_block_num size
    → (rounds offset copied i : ℕ) → i ≡ offset + copied
    → i ≤ size
    → copy_bytes fs ino offset rounds i copied
      ≡ some (
        copied + min rounds (size - i),
        take (min rounds (size - i)) (drop i (stream fs ino.data_block_num)),
      )
unfolding copy_bytes
copy_bytes-stream fs ino size e h zero offset copied i at le =
    let empty : min 0 (size - i) ≡ 0 = omega arith in
    rw empty (ap (λ (k : ℕ). some (k, [])) (omega arith))
copy_bytes-stream fs ino size e h (suc rounds) offset copied i at le = elim (ℕ_discrete i size) [
  | yes p ↦
      let stop : (i == to_u32 ino.length) ≡ true = ground arith in
      let empty : min (suc rounds) (size - i) ≡ 0 = omega arith in
      rw (stop, empty) (ap (λ (k : ℕ). some (k, [])) (omega arith))
  | no q ↦
      let go : (i == to_u32 ino.length) ≡ false = ground arith in
      let one : min (suc rounds) (size - i) ≡ suc (min rounds (size - (i + 1))) = omega arith in
      let fits : i < length (stream fs ino.data_block_num) =
        omega (arith, length-stream fs ino.data_block_num size h) in
      rw
        (
          go,
          one,
          drop-cons_get (stream fs ino.data_block_num) i 0 fits,
          file_byte-stream fs ino.data_block_num size i h (omega arith),
          copy_bytes-stream fs ino size e h rounds offset (copied + 1) (i + 1) (omega arith)
              (omega arith),
        )
        (ap
          (λ (k : ℕ). some (
            k,
            get_or (stream fs ino.data_block_num) i 0
                ∷ take (min rounds (size - (i + 1))) (drop (i + 1) (stream fs ino.data_block_num)),
          ))
          (omega arith))
]

-- An inode that the image holds: its number is in range and its blocks hold its bytes.
pub record IsFile (fs : Filesystem) (inode : ℕ) (ino : Inode) (size : ℕ) : Type 0 where
  pub listed : get_elem? fs.inodes inode ≡ some ino
  pub counted : inode < to_u32 fs.boot_block.inode_count
  pub sized : to_u32 ino.length ≡ size
  pub small : size < 2 ^ 31
  pub held : Holds fs ino.data_block_num size

-- The bytes of a file.
abbrev pub contents : Filesystem → Inode → ℕ → List ℕ
contents fs ino size = take size (stream fs ino.data_block_num)

pub length-contents :
    (fs : Filesystem) (inode : ℕ) (ino : Inode) (size : ℕ)
    → IsFile fs inode ino size
    → length (contents fs ino size) ≡ size
length-contents fs inode ino size f = omega (
  arith,
  length-take {0} size (stream fs ino.data_block_num),
  length-stream fs ino.data_block_num size f.held,
)

-- The bytes from `offset` on, at most `count` of them.
abbrev pub slice : ℕ → ℕ → List ℕ → List ℕ
slice offset count bytes = take count (drop offset bytes)

to_s32_small : (n : ℕ) → n < 2 ^ 31 → to_s32 n ≡ pos n
to_s32_small n h = ground arith

take-nil : (n : ℕ) → take {A = ℕ} n [] ≡ []
take-nil zero = refl
take-nil (suc n) = refl

pub take-take : (a b : ℕ) (xs : List ℕ) → take a (take b xs) ≡ take (min a b) xs
take-take zero b xs = let e : min 0 b ≡ 0 = omega arith in rw e
take-take (suc a) zero xs = let e : min (suc a) 0 ≡ 0 = omega arith in rw e
take-take (suc a) (suc b) [] = let e : min (suc a) (suc b) ≡ suc (min a b) = omega arith in rw e
take-take (suc a) (suc b) (x ∷ xs) =
    let e : min (suc a) (suc b) ≡ suc (min a b) = omega arith in rw (e, take-take a b xs)

drop-take : (o s : ℕ) (xs : List ℕ) → drop o (take s xs) ≡ take (s - o) (drop o xs)
drop-take zero s xs = ap (λ k. take k xs) (omega arith)
drop-take (suc o) zero xs = let e : 0 - suc o ≡ 0 = omega arith in rw e
drop-take (suc o) (suc s) [] = sym (take-nil (suc s - suc o))
drop-take (suc o) (suc s) (x ∷ xs) = drop-take o s xs ∙ ap (λ k. take k (drop o xs)) (omega arith)

take-drop-take :
    (count offset size : ℕ) (xs : List ℕ)
    → take count (drop offset (take size xs)) ≡ take (min count (size - offset)) (drop offset xs)
take-drop-take count offset size xs =
    rw (drop-take offset size xs) (take-take count (size - offset) (drop offset xs))

-- For an inode of the image and a range that does not wrap, `read_data` faults nowhere and returns
-- the number of the file's bytes from `offset` on, `count` at most, and exactly those bytes are what it
-- copies to the buffer.
pub read_data_lem :
    (fs : Filesystem) (inode : ℕ) (ino : Inode) (size offset count : ℕ)
    → IsFile fs inode ino size
    → offset + count < u32_mod
    → read_data fs inode offset count
      ≡ some (pos (min count (size - offset)), slice offset count (contents fs ino size))
unfolding read_data
read_data_lem fs inode ino size offset count f r = elim (dec_lt offset size) [
  | yes p ↦
      let open_end : leb (to_u32 ino.length) offset ≡ false = ground (arith, f.sized) in
      let rounds : (offset + count) % u32_mod - offset ≡ count = omega arith in
      rw
        (
          range,
          f.listed,
          open_end,
          rounds,
          copy_bytes-stream fs ino size f.sized f.held count offset 0 offset (omega arith)
              (omega arith),
          take-drop-take count offset size (stream fs ino.data_block_num),
        )
        (ap
          (λ n.
            some (n, take (min count (size - offset)) (drop offset (stream fs ino.data_block_num))))
          (to_s32_small (0 + min count (size - offset)) (omega (arith, f.small))
            ∙ ap pos (omega arith)))
  | no q ↦
      let ended : leb (to_u32 ino.length) offset ≡ true = ground (arith, f.sized) in
      let empty : min count (size - offset) ≡ 0 = omega arith in
      rw (
        range,
        f.listed,
        ended,
        take-drop-take count offset size (stream fs ino.data_block_num),
        empty,
      )
]
  where
    range : ltb ((to_u32 fs.boot_block.inode_count + u32_mod - 1) % u32_mod) inode ≡ false
    range = ground (arith, f.counted)

-- An inode number that is not below the image's count is refused with -1, and nothing is copied.
pub read_data_range :
    (fs : Filesystem) (inode offset count : ℕ)
    → 0 < to_u32 fs.boot_block.inode_count
    → to_u32 fs.boot_block.inode_count ≤ inode
    → read_data fs inode offset count ≡ some (fail, [])
unfolding read_data
read_data_range fs inode offset count h k = ground arith
