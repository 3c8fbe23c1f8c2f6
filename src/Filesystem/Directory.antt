-- ===== src/Filesystem/Directory.antt =====
-- The directory of mp3_group_59/student-distrib/filesystem.c: which entry a lookup returns.
use mathlib.Core.Logic.{ite, if_pos, if_neg}
use native.Mathlib.Decide.{ℕ_discrete, dec_lt}
use ece391_sp.Prelude.{
  ℕ, zero, suc, ◌+◌, ◌-◌, ◌≤◌, ◌<◌, ◌≡◌, refl, sym, ap, ◌∙◌, Option, none, some, List, [], ◌∷◌,
  arith, length, take, get_elem?, Bool-cases, inl, inr, ◌≢◌, ℤ, pos, fail, ltb_ℤ, eqb_ℤ, true,
  false,
}
use ece391_sp.Strings.{chars}
use ece391_sp.Strings.Compare.{AllBytes, strncmp_zero_iff}
use ece391_sp.Filesystem.{
  Dentry, Bootblock, num_max_files, bytes_32b, read_dentry_by_index, find_dentry,
  read_dentry_by_name, below,
}

-- A file name fills its field, with or without a terminator.
abbrev pub AllNames : List Dentry → Type 0
AllNames [] = Unit
AllNames (e ∷ es) = (length e.file_name ≡ 32) × AllBytes e.file_name × AllNames es

-- A boot block with n entries in use.
pub record IsDirectory (n : ℕ) (b : Bootblock) : Type 0 where
  pub counted : b.dir_count ≡ pos n
  pub room : length b.direntries ≡ num_max_files
  pub fits : n ≤ num_max_files
  pub names : AllNames b.direntries

unfoldable pub names_discrete : Discrete (List ℕ)
names_discrete = hlevel ℕ_discrete

-- The specification of a lookup: the first entry whose name has the same first 32 characters.
unfoldable pub first_named : List ℕ → List Dentry → Option Dentry
first_named key [] = none
first_named key (e ∷ es) =
    ite (names_discrete key (take bytes_32b (chars e.file_name))) (some e) (first_named key es)

-- What a lookup returns and leaves in `*dentry`.
abbrev pub reply : Dentry → Option Dentry → ℤ × Dentry
reply dentry none = (fail, dentry)
reply dentry (some e) = (pos 0, e)

below-true : (i n : ℕ) {c : ℤ} → c ≡ pos n → i < n → below i c ≡ true
unfolding below
below-true i n e h = rw e (ground arith)

below-false : (i n : ℕ) {c : ℤ} → c ≡ pos n → n ≤ i → below i c ≡ false
unfolding below
below-false i n e h = rw e (ground arith)

past_count : (i n : ℕ) {c : ℤ} → c ≡ pos n → n < i → ltb_ℤ c i ≡ true
past_count i n e h = rw e (ground arith)

in_count : (i n : ℕ) {c : ℤ} → c ≡ pos n → i ≤ n → ltb_ℤ c i ≡ false
in_count i n e h = rw e (ground arith)

take-nil : (n : ℕ) → take {A = Dentry} n [] ≡ []
take-nil zero = refl
take-nil (suc n) = refl

-- For a directory of n entries: an index above n is refused, and an index up to n that has an entry,
-- n itself included, is answered with that entry.
pub read_dentry_by_index_lem :
    (b : Bootblock) (n i : ℕ) (dentry : Dentry)
    → IsDirectory n b
    → (n < i → read_dentry_by_index b i dentry ≡ some (fail, dentry))
      × ((e : Dentry)
          → i ≤ n
          → get_elem? b.direntries i ≡ some e
          → read_dentry_by_index b i dentry ≡ some (pos 0, e))
unfolding read_dentry_by_index
read_dentry_by_index_lem b n i dentry d = (
  (λ h. rw (past_count i n d.counted h)),
  λ e h g. rw (in_count i n d.counted h, g) (ground (arith, d.fits)),
)

eqb_ℤ_zero : (r : ℤ) → eqb_ℤ r (pos 0) ≡ true → r ≡ pos 0
eqb_ℤ_zero r h = ground arith

eqb_ℤ_ne_zero : (r : ℤ) → eqb_ℤ r (pos 0) ≡ false → r ≢ pos 0
eqb_ℤ_ne_zero r h = ground arith

-- The loop from index i on finds the first entry of that name among those in use.
find_dentry_lem :
    (b : Bootblock) (n : ℕ) (fname : List ℕ) (dentry : Dentry)
    → IsDirectory n b
    → 32 ≤ length fname
    → AllBytes fname
    → (es : List Dentry) (i : ℕ) → n ≤ i + length es
    → AllNames es
    → ((j : ℕ) → get_elem? es j ≡ get_elem? b.direntries (i + j))
    → find_dentry b fname dentry i es
      ≡ some (reply dentry (first_named (take bytes_32b (chars fname)) (take (n - i) es)))
unfolding find_dentry first_named
find_dentry_lem b n fname dentry d lf bf [] i h ns at =
    rw (below-false i n d.counted (omega arith), take-nil (n - i))
find_dentry_lem b n fname dentry d lf bf (e ∷ es) i h ns at = elim (dec_lt i n) [
  | yes p ↦
      let more : n - i ≡ suc (n - (i + 1)) = omega arith in
      let here : get_elem? b.direntries i ≡ some e =
        sym (at 0 ∙ ap (get_elem? b.direntries) (omega arith)) in
      let ih =
        find_dentry_lem b n fname dentry d lf bf es (i + 1) (omega arith) ns.2
          (λ j. at (suc j) ∙ ap (get_elem? b.direntries) (omega arith)) in
      let (r, ran, same) = strncmp_zero_iff 32 fname e.file_name lf (omega arith) bf ns.1 in
      rw (below-true i n d.counted p, more, ran)
        (elim (Bool-cases (eqb_ℤ r (pos 0))) [
          | inl z ↦ rw (
            z,
            if_pos (names_discrete _ _) (same.0 (eqb_ℤ_zero r z)),
            (read_dentry_by_index_lem b n i dentry d).1 e (omega arith) here,
          )
          | inr z ↦ rw (z, if_neg (names_discrete _ _) (λ a. eqb_ℤ_ne_zero r z (same.1 a))) ih
        ])
  | no q ↦
      let none_left : n - i ≡ 0 = omega arith in
      rw (below-false i n d.counted (omega arith), none_left)
]

-- In a directory of n entries, for a name that stands in at least 32 bytes, `read_dentry_by_name`
-- faults nowhere: it returns 0 with the first of the n entries whose name has the same first 32
-- characters, and -1 with `*dentry` as it was when there is none.
pub read_dentry_by_name_lem :
    (b : Bootblock) (n : ℕ) (fname : List ℕ) (dentry : Dentry)
    → IsDirectory n b
    → 32 ≤ length fname
    → AllBytes fname
    → read_dentry_by_name b fname dentry
      ≡ some (reply dentry (first_named (take bytes_32b (chars fname)) (take n b.direntries)))
unfolding read_dentry_by_name
read_dentry_by_name_lem b n fname dentry d lf bf =
    find_dentry_lem b n fname dentry d lf bf b.direntries 0 (omega (arith, d.room, d.fits)) d.names
      (λ j. ap (get_elem? b.direntries) (omega arith))
    ∙ ap
        (λ k.
          some (reply dentry (first_named (take bytes_32b (chars fname)) (take k b.direntries))))
        (omega arith)
