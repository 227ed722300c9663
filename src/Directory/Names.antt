-- ===== src/Directory/Names.antt =====
-- No two entries of a directory have the same name, as `strcmp` compares names.
use dcfs_client.Base.{
  ◌≡◌, refl, ap, ap₂, ◌∙◌, Bool, false, Option, none, some, List, [], ◌∷◌, ◌++◌, Bytes, c_str,
  bytes_eq, bytes_eq_iff, strcmp_eq, if◌then◌else◌, Bool-cases, inl, inr, arith, ◌==◌,
}
use dcfs_client.Directory.{DirectoryEntry}
use dcfs_client.Directory.Scan.{first}

abbrev pub Distinct : List DirectoryEntry → Type 0
Distinct [] = Unit {0}
Distinct (e ∷ es) = (first e.filename es ≡ none) × Distinct es

bytes_eq_comm : (a b : Bytes) → bytes_eq a b ≡ bytes_eq b a
bytes_eq_comm a b = ground (arith, bytes_eq_iff a b, bytes_eq_iff b a)

strcmp_eq_comm : (a b : Bytes) → strcmp_eq a b ≡ strcmp_eq b a
unfolding strcmp_eq
strcmp_eq_comm a b = bytes_eq_comm (c_str a) (c_str b)

c_str-c_str : (a : Bytes) → c_str (c_str a) ≡ c_str a
unfolding c_str
c_str-c_str [] = refl
c_str-c_str (x ∷ a) = elim (Bool-cases (x == 0)) [
  | inl t ↦ rw t refl
  | inr t ↦ rw (t, t) (ap (◌∷◌ x) (c_str-c_str a))
]

-- A name is as good as its copy in a `std::string`.
pub strcmp_eq-c_str : (a b : Bytes) → strcmp_eq a (c_str b) ≡ strcmp_eq a b
unfolding strcmp_eq
strcmp_eq-c_str a b = ap (bytes_eq (c_str a)) (c_str-c_str b)

first-append_none :
    (name : Bytes) (es : List DirectoryEntry) (e : DirectoryEntry)
    → first name es ≡ none
    → strcmp_eq name e.filename ≡ false
    → first name (es ++ e ∷ []) ≡ none
unfolding first
first-append_none name [] e h n = rw n refl
first-append_none name (x ∷ es) e h n = elim (Bool-cases (strcmp_eq name x.filename)) [
  | inl t ↦ let k : some x ≡ none = rw t at h in cc
  | inr t ↦ rw t (first-append_none name es e (rw t at h) n)
]

-- An entry under a name that is not there keeps the names distinct.
pub Distinct-append :
    (es : List DirectoryEntry) (e : DirectoryEntry)
    → Distinct es
    → first e.filename es ≡ none
    → Distinct (es ++ e ∷ [])
unfolding first
Distinct-append [] e d h = (refl, tt)
Distinct-append (x ∷ es) e d h = elim (Bool-cases (strcmp_eq e.filename x.filename)) [
  | inl t ↦ let k : some x ≡ none = rw t at h in cc
  | inr t ↦ (
    first-append_none x.filename es e d.0 (strcmp_eq_comm x.filename e.filename ∙ t),
    Distinct-append es e d.1 (rw t at h),
  )
]

pub first-c_str : (name : Bytes) (es : List DirectoryEntry) → first (c_str name) es ≡ first name es
unfolding first
first-c_str name [] = refl
first-c_str name (e ∷ es) =
    ap₂ (λ (b : Bool) (r : Option DirectoryEntry). if b then some e else r)
      (strcmp_eq_comm (c_str name) e.filename
        ∙ strcmp_eq-c_str e.filename name
        ∙ strcmp_eq_comm e.filename name)
      (first-c_str name es)
