-- ===== src/Directory.antt =====
-- fs/dir.hpp and fs/dir.cpp, class Directory: the entries, and the cursor of `Readdir`.
pub mod Scan
pub mod Names
use dcfs_client.Base.{
  ℕ, zero, suc, ◌+◌, Bool, Option, none, some, List, [], ◌∷◌, ◌++◌, Bytes, length, ◌==◌,
  if◌then◌else◌, strcmp_eq,
}

pub record DirectoryEntry : Type 0 where
  pub filename : Bytes
  pub hashname : Bytes

-- `it` is the distance of the cursor `it_` from `entries_.begin()`.
pub record Directory : Type 0 where
  pub entries : List DirectoryEntry
  pub it : ℕ

abbrev pub nth : List DirectoryEntry → ℕ → Option DirectoryEntry
nth [] i = none
nth (e ∷ es) zero = some e
nth (e ∷ es) (suc i) = nth es i

unfoldable pub new_directory : Directory
new_directory = record { entries = []; it = 0 }

unfoldable pub init_readdir : Directory → Directory
init_readdir d = record d { it = 0 }

-- `none` is NULL. At the end the cursor goes back to the start.
unfoldable pub readdir : Directory → Option DirectoryEntry × Directory
readdir d =
    if d.it == length d.entries
    then (none, record d { it = 0 })
    else (nth d.entries d.it, record d { it = d.it + 1 })

-- `Addent` returns NO_ERR.
unfoldable pub addent : DirectoryEntry → Directory → Directory
addent e d = record d { entries = d.entries ++ e ∷ []; it = 0 }

-- The body of the loop below, on what `Readdir` returned: the end, the entry looked for, or `next`.
unfoldable pub found :
    Bytes
    → Option DirectoryEntry × Directory
    → (Directory → Option DirectoryEntry × Directory)
    → Option DirectoryEntry × Directory
found path (none, d) next = (none, d)
found path (some e, d) next = if strcmp_eq path e.filename then (some e, d) else next d

-- fs/dcfs.cpp, the loop after `InitReaddir` with which the operations look a path up; the path is
-- what follows its first character. The rounds left are fuel, one for each call of `Readdir`.
unfoldable pub find_from : ℕ → Bytes → Directory → Option DirectoryEntry × Directory
find_from zero path d = (none, d)
find_from (suc rounds) path d = found path (readdir d) (find_from rounds path)

unfoldable pub find_entry : Bytes → Directory → Option DirectoryEntry × Directory
find_entry path d = find_from (suc (length d.entries)) path (init_readdir d)
