-- ===== src/Filesystem/Tests.antt =====
-- Runs of mp3_group_59/student-distrib/filesystem.c on a small image.
use ece391_sp.Prelude.{ℕ, ◌≡◌, refl, some, List, [], ◌∷◌, ◌++◌, arith, pos, fail, take, replicate}
use native.Mathlib.Decide.{ℕ_discrete}
use ece391_sp.Strings.{strncmp}
use ece391_sp.Filesystem.{
  Dentry, Bootblock, Inode, Datablock, Filesystem, read_dentry_by_index, read_dentry_by_name,
  read_data,
}
use ece391_sp.Filesystem.Directory.{
  IsDirectory, read_dentry_by_name_lem, first_named, names_discrete,
}
use ece391_sp.Filesystem.Contents.{IsFile, read_data_lem, read_data_range, stream}

-- "." and "shell", and 61 entries that are not in use
abbrev name_of : List ℕ → List ℕ
name_of s = take 32 (s ++ replicate 32 0)

abbrev dot : Dentry
dot = record { file_name = name_of (b'.' ∷ []); file_type = pos 1; inode_num = pos 0 }

abbrev shell : Dentry
shell = record {
  file_name = name_of (b's' ∷ b'h' ∷ b'e' ∷ b'l' ∷ b'l' ∷ []);
  file_type = pos 2;
  inode_num = pos 1;
}

abbrev unused : Dentry
unused = record { file_name = name_of []; file_type = pos 0; inode_num = pos 0 }

abbrev boot : Bootblock
boot = record {
  dir_count = pos 2;
  inode_count = pos 2;
  data_count = pos 3;
  direntries = dot ∷ shell ∷ replicate 61 unused;
}

boot-IsDirectory : IsDirectory 2 boot
boot-IsDirectory = record { counted = refl; room = refl; fits = omega arith; names = omega arith }

-- Inode 1 is a file of 4098 bytes in blocks 2 and 0.
abbrev block : ℕ → Datablock
block c = replicate 4096 c

long : Inode
long = record { length = pos 4098; data_block_num = pos 2 ∷ pos 0 ∷ [] }

image : Filesystem
unfolding long
image = record {
  boot_block = boot;
  inodes = record { length = pos 0; data_block_num = [] } ∷ long ∷ [];
  data_blocks = block b'a' ∷ block b'b' ∷ block b'c' ∷ [];
}

read_across_blocks : read_data image 1 4094 10 ≡ some (pos 4, b'c' ∷ b'c' ∷ b'a' ∷ b'a' ∷ [])
unfolding read_data image
read_across_blocks = refl

find_shell :
    read_dentry_by_name boot (name_of (b's' ∷ b'h' ∷ b'e' ∷ b'l' ∷ b'l' ∷ [])) dot
    ≡ some (pos 0, shell)
unfolding read_dentry_by_name read_dentry_by_index strncmp
find_shell = refl

read_dentry_by_name_lem_example :
    read_dentry_by_name boot (name_of (b'l' ∷ [])) dot ≡ some (fail, dot)
unfolding first_named names_discrete ℕ_discrete
read_dentry_by_name_lem_example =
    read_dentry_by_name_lem boot 2 (name_of (b'l' ∷ [])) dot boot-IsDirectory (omega arith)
      (omega arith)

long-IsFile : IsFile image 1 long 4098
unfolding long image
long-IsFile = record {
  listed = refl;
  counted = omega arith;
  sized = refl;
  small = omega arith;
  held = ((λ _. (omega arith, refl)), ((λ _. (omega arith, refl)), refl));
}

read_data_lem_example : read_data image 1 4094 10 ≡ some (pos 4, b'c' ∷ b'c' ∷ b'a' ∷ b'a' ∷ [])
unfolding long image stream
read_data_lem_example = read_data_lem image 1 long 4098 4094 10 long-IsFile (omega arith)

read_data_range_example : read_data image 7 0 10 ≡ some (fail, [])
unfolding image
read_data_range_example = read_data_range image 7 0 10 (omega arith) (omega arith)
