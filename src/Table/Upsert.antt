-- ===== src/Table/Upsert.antt =====
-- An implementation of `save`, which shows that its laws can be met.
use hexagonal.Base.{◌≡◌, refl, some, List, [], ◌∷◌, String, ◌==◌, arith, if◌then◌else◌, eq_iff}
use hexagonal.Table.Defs.{find_by, HasUniqueKeys, Saves}

module _ {ℓ} {R : Type ℓ} (key : R → String) where
  abbrev pub upsert : R → List R → List R
  upsert r [] = r ∷ []
  upsert r (x ∷ t) = if key x == key r then r ∷ t else x ∷ upsert r t

  pub find_by-upsert :
      (k : String) (r : R) (t : List R)
      → find_by key k (upsert r t) ≡ (if key r == k then some r else find_by key k t)
  find_by-upsert k r [] = refl
  find_by-upsert k r (x ∷ t) =
      ground
        (arith, eq_iff (key x) (key r), eq_iff (key x) k, eq_iff (key r) k, find_by-upsert k r t)

  pub upsert-HasUniqueKeys :
      (r : R) (t : List R) → HasUniqueKeys key t → HasUniqueKeys key (upsert r t)
  upsert-HasUniqueKeys r [] u = (refl, tt)
  upsert-HasUniqueKeys r (x ∷ t) (fresh, u) = ground (
    arith,
    eq_iff (key x) (key r),
    eq_iff (key r) (key x),
    find_by-upsert (key x) r t,
    upsert-HasUniqueKeys r t u,
  )

  abbrev pub upserting : Saves R key
  upserting = record {
    save = upsert;
    find_by-save = find_by-upsert;
    save-HasUniqueKeys = upsert-HasUniqueKeys;
  }
