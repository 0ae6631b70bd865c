-- ===== src/Map/Laws.antt =====
-- What a look-up finds after a write.
use gooselake.Base.{[], ◌∷◌, none, some, String, ◌≡◌, refl, ◌==◌, eq_iff, arith, if◌then◌else◌}
use gooselake.Map.{Map, get, insert, remove}

module _ {ℓ} {V : Type ℓ} where
  pub get-insert :
      (k j : String) (v : V) (m : Map V)
      → get j (insert k v m) ≡ (if k == j then some v else get j m)
  unfolding get insert
  get-insert k j v [] = refl
  get-insert k j v ((i, w) ∷ m) =
      ground (arith, eq_iff k j, eq_iff i k, eq_iff i j, get-insert k j v m)

  pub get-remove :
      (k j : String) (m : Map V) → get j (remove k m) ≡ (if k == j then none else get j m)
  unfolding get remove
  get-remove k j [] = ground (arith, eq_iff k j)
  get-remove k j ((i, w) ∷ m) = ground (arith, eq_iff k j, eq_iff i k, eq_iff i j, get-remove k j m)
