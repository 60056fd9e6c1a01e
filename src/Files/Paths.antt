-- ===== src/Files/Paths.antt =====
-- Paths.
pub mod Match
use sysres_os.Base.{
  ℕ, zero, suc, ◌+◌, Bool, true, false, not, ltb, leb, ◌==◌, ◌&&◌, ◌||◌, if◌then◌else◌, minus_one32,
  lt_int,
}
use sysres_os.Bytes.{Memory}
use sysres_os.Step.{◌>>=◌, ◌>>◌, state, give, stuck}
use sysres_os.Files.State.{Files, Cmd, filename_max_size}
use sysres_os.Files.Blocks.{read_inode}
use sysres_os.Files.Descriptors.{is_at_end_of_file, iopen, fclose, change_descriptor}
use sysres_os.Files.Content.{read_dirent}

-- `/`
abbrev pub slash : ℕ
slash = 47

-- Whether a part of a path ends at a byte.
abbrev pub ends : ℕ → Bool
ends c = (c == slash) || (c == 0)

-- The loop of `filename_match`, from `cur` on.
unfoldable pub match_from : (rounds cur : ℕ) → (path dirname : Memory) → ℕ
match_from zero cur path dirname = if ends (path cur) then cur else minus_one32
match_from (suc rounds) cur path dirname =
    let rest = match_from rounds (cur + 1) path dirname in
    if ends (path cur) && (dirname cur == 0)
    then cur
    else if not (path cur == dirname cur)
    then minus_one32
    else rest

unfoldable pub filename_match : (path dirname : Memory) → ℕ
filename_match path dirname = match_from filename_max_size 0 path dirname

-- The loop of `inode_of_path`, with the rest of the path at `path`. `dir` is the area of the entries.
unfoldable pub search_path : (fuel dir fdesc path : ℕ) → Cmd ℕ
search_path zero dir fdesc path = λ _. stuck
search_path (suc fuel) dir fdesc path = do
  at_end ← is_at_end_of_file fdesc
  if at_end then (do fclose fdesc; give minus_one32) else do
    dirent ← read_dirent fuel dir fdesc
    s ← state
    let match = filename_match (λ i. s.memory (path + i)) dirent.name
    if not (lt_int 0 match)
        then search_path fuel dir fdesc path
        else if s.memory (path + match) == 0
        then give dirent.inode
        else do
          inode ← read_inode dirent.inode
          change_descriptor fdesc (λ fd. record fd { inode = inode; pos = 0 })
          search_path fuel dir fdesc (path + match + 1)

unfoldable pub inode_of_path : (fuel dir path : ℕ) → Cmd ℕ
inode_of_path fuel dir path = do
  s ← state
  fdesc ← iopen s.filesystem.root_inode
  search_path fuel dir fdesc (if s.memory path == slash then path + 1 else path)

unfoldable pub fopen : (fuel dir path oflag : ℕ) → Cmd ℕ
fopen fuel dir path oflag = do inode ← inode_of_path fuel dir path; iopen inode

unfoldable pub is_special_directory : Memory → Bool
is_special_directory name = (name 0 == 46) && ((name 1 == 0) || ((name 1 == 46) && (name 2 == 0)))
