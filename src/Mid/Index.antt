-- ===== src/Mid/Index.antt =====
-- The laws of the middleware's index.
use dcfs_client.Base.{
  ◌≡◌, refl, some, List, [], ◌∷◌, Bytes, bytes_eq, bytes_eq_iff, bytes_eq_refl, arith,
  if◌then◌else◌,
}
use dcfs_client.Mid.{find, assign, latest, touch}

pub find-assign :
    (k j v : Bytes) (m : List (Bytes × Bytes))
    → find j (assign k v m) ≡ (if bytes_eq k j then some v else find j m)
unfolding find assign
find-assign k j v [] = refl
find-assign k j v ((i, w) ∷ m) =
    ground (arith, bytes_eq_iff k j, bytes_eq_iff i k, bytes_eq_iff i j, find-assign k j v m)

pub latest-assign :
    (k j v : Bytes) (m : List (Bytes × Bytes))
    → latest j (assign k v m) ≡ (if bytes_eq k j then v else latest j m)
unfolding latest
latest-assign k j v m = ground (arith, find-assign k j v m)

-- Making the missing entry does not change what any entry reads as.
pub latest-touch : (k j : Bytes) (m : List (Bytes × Bytes)) → latest j (touch k m) ≡ latest j m
unfolding latest touch
latest-touch k j m = ground (arith, find-assign k j [] m, bytes_eq_iff k j)

pub find-touch : (k : Bytes) (m : List (Bytes × Bytes)) → find k (touch k m) ≡ some (latest k m)
unfolding latest touch
find-touch k m = ground (arith, find-assign k k [] m, bytes_eq_refl k)
