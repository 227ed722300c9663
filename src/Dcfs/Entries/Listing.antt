-- ===== src/Dcfs/Entries/Listing.antt =====
-- What `dcfs_readdir` lists.
use dcfs_client.Base.{
  ℕ, suc, ◌+◌, ◌≡◌, refl, ap, true, List, [], ◌∷◌, map, Bytes, length, ascii, c_str, strcmp_eq,
}
use dcfs_client.Directory.{DirectoryEntry, Directory, init_readdir}
use dcfs_client.Directory.Scan.{At, At-entry, readdir-end, readdir-entry}
use dcfs_client.Dcfs.{done, Dcfs}
use dcfs_client.Dcfs.Entries.{list_from, dcfs_readdir}

-- The text of a file's name.
abbrev pub names_of : List DirectoryEntry → List Bytes
names_of es = map (λ e. c_str e.filename) es

list_rest :
    (es : List DirectoryEntry) (i : ℕ) (rest : List DirectoryEntry)
    → At es i rest
    → list_from (suc (length rest)) (record { entries = es; it = i })
      ≡ (names_of rest, record { entries = es; it = 0 })
unfolding list_from
list_rest es i [] a = rw (readdir-end es i a) refl
list_rest es i (e ∷ rest) a =
    let (_, _, b) = At-entry es i e rest a in
    rw (readdir-entry es i e rest a) (
      ap (λ (x : List Bytes × Directory). (c_str e.filename ∷ x.0, x.1))
        (list_rest es (i + 1) rest b))

-- Listing the root, wherever the cursor stood, gives ".", ".." and then the name of every file once,
-- in the order in which they were made: a call of `Readdir` for each and one more is enough for the
-- loop. The entries stay, and the cursor goes to the start.
pub dcfs_readdir_all :
    {S : Type 0} (path : Bytes) (s : Dcfs S)
    → strcmp_eq path (ascii "/") ≡ true
    → dcfs_readdir path s ≡ (
      done (ascii "." ∷ ascii ".." ∷ names_of s.root.entries),
      record s { root = init_readdir s.root },
    )
unfolding dcfs_readdir init_readdir
dcfs_readdir_all path s e = rw (e, list_rest s.root.entries 0 s.root.entries ([], refl, refl)) refl
