-- ===== src/Directory/Scan.antt =====
-- What a sequence of `Readdir` calls returns.
use dcfs_client.Base.{
  ℕ, zero, suc, ◌+◌, ◌≡◌, refl, sym, ap, ap₂, ◌∙◌, true, false, Option, none, some, List, [], ◌∷◌,
  ◌++◌, map, length, length-append, arith, ◌==◌, if◌then◌else◌, Bytes, strcmp_eq, Bool-cases, inl,
  inr,
}
use mathlib.Core.List.{append_assoc}
use dcfs_client.Directory.{
  DirectoryEntry, Directory, nth, init_readdir, readdir, addent, found, find_from, find_entry,
}

-- The results of `n` calls, and the directory after them.
pub readdirs : ℕ → Directory → List (Option DirectoryEntry) × Directory
readdirs zero d = ([], d)
readdirs (suc n) d = let (e, d1) = readdir d in let (es, d2) = readdirs n d1 in (e ∷ es, d2)

nth-append :
    (before : List DirectoryEntry) (e : DirectoryEntry) (rest : List DirectoryEntry)
    → nth (before ++ e ∷ rest) (length before) ≡ some e
nth-append [] e rest = refl
nth-append (x ∷ before) e rest = nth-append before e rest

-- The cursor `i` in a directory of the entries `es`, of which `rest` have not been returned.
abbrev pub At : List DirectoryEntry → ℕ → List DirectoryEntry → Type 0
At es i rest = (before : List DirectoryEntry) × (es ≡ before ++ rest) × (i ≡ length before)

At-end : (es : List DirectoryEntry) (i : ℕ) → At es i [] → (i == length es) ≡ true
At-end es i (before, q, k) = ground (arith, ap length q, length-append before [])

pub At-entry :
    (es : List DirectoryEntry) (i : ℕ) (e : DirectoryEntry) (rest : List DirectoryEntry)
    → At es i (e ∷ rest)
    → ((i == length es) ≡ false) × (nth es i ≡ some e) × At es (i + 1) rest
At-entry es i e rest (before, q, k) = (
  ground (arith, ap length q, length-append before (e ∷ rest)),
  ap₂ nth q k ∙ nth-append before e rest,
  (
    before ++ e ∷ [],
    q ∙ sym (append_assoc before (e ∷ []) rest),
    omega (arith, length-append before (e ∷ [])),
  ),
)

pub readdir-end :
    (es : List DirectoryEntry) (i : ℕ)
    → At es i []
    → readdir (record { entries = es; it = i }) ≡ (none, record { entries = es; it = 0 })
unfolding readdir
readdir-end es i a = rw (At-end es i a) refl

pub readdir-entry :
    (es : List DirectoryEntry) (i : ℕ) (e : DirectoryEntry) (rest : List DirectoryEntry)
    → At es i (e ∷ rest)
    → readdir (record { entries = es; it = i }) ≡ (some e, record { entries = es; it = i + 1 })
unfolding readdir
readdir-entry es i e rest a = let (t, n, b) = At-entry es i e rest a in rw (t, n) refl

scan_rest :
    (es : List DirectoryEntry) (i : ℕ) (rest : List DirectoryEntry)
    → At es i rest
    → readdirs (suc (length rest)) (record { entries = es; it = i })
      ≡ (map some rest ++ none ∷ [], record { entries = es; it = 0 })
unfolding readdirs
scan_rest es i [] a = rw (readdir-end es i a) refl
scan_rest es i (e ∷ rest) a =
    let (t, n, b) = At-entry es i e rest a in
    let r = scan_rest es (i + 1) rest b in
    rw (readdir-entry es i e rest a)
      (ap (λ (x : List (Option DirectoryEntry) × Directory). (some e ∷ x.0, x.1)) r)

-- After `InitReaddir`, as many calls of `Readdir` as there are entries return each of them once, in
-- order; the call after them returns NULL, and leaves the directory as `InitReaddir` did.
pub scan_all :
    (d : Directory)
    → readdirs (suc (length d.entries)) (init_readdir d)
      ≡ (map some d.entries ++ none ∷ [], init_readdir d)
unfolding init_readdir
scan_all d = scan_rest d.entries 0 d.entries ([], refl, refl)

-- The first entry with a name, as `strcmp` compares names.
unfoldable pub first : Bytes → List DirectoryEntry → Option DirectoryEntry
first path [] = none
first path (e ∷ es) = let rest = first path es in if strcmp_eq path e.filename then some e else rest

find_rest :
    (path : Bytes) (es : List DirectoryEntry) (i : ℕ) (rest : List DirectoryEntry)
    → At es i rest
    → let (r, d) = find_from (suc (length rest)) path (record { entries = es; it = i }) in
      (r ≡ first path rest) × (d.entries ≡ es)
unfolding find_from found first
find_rest path es i [] a = rw (readdir-end es i a) (refl, refl)
find_rest path es i (e ∷ rest) a =
    let (t, n, b) = At-entry es i e rest a in
    let r = find_rest path es (i + 1) rest b in
    rw (readdir-entry es i e rest a)
      (elim (Bool-cases (strcmp_eq path e.filename)) [ inl y ↦ rw y (refl, refl) | inr y ↦ rw y r ])

pub first-append :
    (path : Bytes) (es : List DirectoryEntry) (e : DirectoryEntry)
    → first path es ≡ none
    → strcmp_eq path e.filename ≡ true
    → first path (es ++ e ∷ []) ≡ some e
unfolding first
first-append path [] e h y = rw y refl
first-append path (x ∷ es) e h y = elim (Bool-cases (strcmp_eq path x.filename)) [
  | inl t ↦ let k : some x ≡ none = rw t at h in cc
  | inr t ↦ rw t (first-append path es e (rw t at h) y)
]

-- Looking a path up, wherever the cursor stood, returns the first entry with that name, or NULL
-- where there is none, and changes no entry: one call of `Readdir` more than there are entries is
-- enough for the loop.
pub find_entry_lem :
    (path : Bytes) (d : Directory)
    → ((find_entry path d).0 ≡ first path d.entries) × ((find_entry path d).1.entries ≡ d.entries)
unfolding find_entry init_readdir
find_entry_lem path d = find_rest path d.entries 0 d.entries ([], refl, refl)

-- When no entry is found under a path and one with that name is added, a look-up finds it.
pub find_entry-addent :
    (path : Bytes) (d : Directory) (e : DirectoryEntry)
    → (find_entry path d).0 ≡ none
    → strcmp_eq path e.filename ≡ true
    → (find_entry path (addent e d)).0 ≡ some e
unfolding addent
find_entry-addent path d e h y =
    (find_entry_lem path (addent e d)).0
    ∙ first-append path d.entries e (sym (find_entry_lem path d).0 ∙ h) y
