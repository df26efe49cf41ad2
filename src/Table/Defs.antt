-- ===== src/Table/Defs.antt =====
-- Rows with a text as primary key, and the meaning of the SQL statements over them.
use hexagonal.Base.{
  ◌≡◌, Bool, not, Option, none, some, List, [], ◌∷◌, String, map, ◌==◌, if◌then◌else◌, filter,
}

module _ {ℓ} {R : Type ℓ} (key : R → String) where
  -- `SELECT … WHERE "id" = $1`
  abbrev pub find_by : String → List R → Option R
  find_by k [] = none
  find_by k (r ∷ t) = if key r == k then some r else find_by k t

  -- No two rows share a primary key.
  abbrev pub HasUniqueKeys : List R → Type ℓ
  HasUniqueKeys [] = Unit
  HasUniqueKeys (r ∷ t) = (find_by (key r) t ≡ none) × HasUniqueKeys t

module _ {ℓ} {R : Type ℓ} where
  -- `UPDATE … SET … WHERE …`
  abbrev pub update_where : (R → Bool) → (R → R) → List R → List R
  update_where p f = map (λ r. if p r then f r else r)

  -- `DELETE … WHERE …`
  abbrev pub delete_where : (R → Bool) → List R → List R
  delete_where p = filter (λ r. not (p r))

-- `repository.save` of the object mapper, which is not part of the repository: it writes the row
-- with the entity's primary key, and adds it if there is none. The other rows stay.
pub record Saves {ℓ} (R : Type ℓ) (key : R → String) : Type ℓ where
  pub save : R → List R → List R
  pub find_by-save :
      (k : String) (r : R) (t : List R)
      → find_by key k (save r t) ≡ (if key r == k then some r else find_by key k t)
  pub save-HasUniqueKeys : (r : R) (t : List R) → HasUniqueKeys key t → HasUniqueKeys key (save r t)
