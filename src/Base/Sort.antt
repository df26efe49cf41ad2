-- ===== src/Base/Sort.antt =====
-- A stable sort by a numeric key, as `Array.prototype.sort` and SQL's `ORDER BY` are used, and its
-- laws: it permutes, and orders.
use Prim.Native.Nat.{ℕ, zero, suc, ◌≤◌}
use mathlib.Core.Path.{◌≡◌, refl, ap, ◌∙◌}
use mathlib.Core.List.{List, [], ◌∷◌, Memᴰ}
use mathlib.Core.List.Memᴰ
use native.Mathlib.Omega.{arith}
use hexagonal.Base.Tests.{leb, if◌then◌else◌, Bool-cases, leb→le}
use hexagonal.Base.Lists.{length, take, drop, All, All-mem}
use mathlib.Core.Logic.{◌⊎◌, inl, inr}

module _ {ℓ} {A : Type ℓ} (key : A → ℕ) where
  abbrev pub insert_by : A → List A → List A
  insert_by x [] = x ∷ []
  insert_by x (y ∷ ys) = if leb (key x) (key y) then x ∷ y ∷ ys else y ∷ insert_by x ys

  abbrev pub sort_by : List A → List A
  sort_by [] = []
  sort_by (x ∷ xs) = insert_by x (sort_by xs)

  -- Keys ascend.
  abbrev pub IsSorted : List A → Type 0
  IsSorted [] = Unit
  IsSorted (x ∷ xs) = All (λ y. key x ≤ key y) xs × IsSorted xs

  pub length-insert_by : (x : A) (ys : List A) → length (insert_by x ys) ≡ suc (length ys)
  length-insert_by x [] = refl
  length-insert_by x (y ∷ ys) = ground (arith, length-insert_by x ys)

  pub length-sort_by : (xs : List A) → length (sort_by xs) ≡ length xs
  length-sort_by [] = refl
  length-sort_by (x ∷ xs) = length-insert_by x (sort_by xs) ∙ ap suc (length-sort_by xs)

  pub All-insert_by {κ} :
      (P : A → Type κ) (x : A) (ys : List A) → P x → All P ys → All P (insert_by x ys)
  All-insert_by P x [] h hs = (h, tt)
  All-insert_by P x (y ∷ ys) h (g, gs) = elim (Bool-cases (leb (key x) (key y))) [
    | inl low ↦ rw low (h, (g, gs))
    | inr high ↦ rw high (g, All-insert_by P x ys h gs)
  ]

  pub All-sort_by {κ} : (P : A → Type κ) (xs : List A) → All P xs → All P (sort_by xs)
  All-sort_by P [] h = tt
  All-sort_by P (x ∷ xs) (h, hs) = All-insert_by P x (sort_by xs) h (All-sort_by P xs hs)

  insert_by_head : (x : A) (ys : List A) {a : A} → a ≡ x → Memᴰ a (insert_by x ys)
  insert_by_head x [] e = Memᴰ.head e
  insert_by_head x (y ∷ ys) e = elim (Bool-cases (leb (key x) (key y))) [
    | inl low ↦ rw low (Memᴰ.head e)
    | inr high ↦ rw high (Memᴰ.tail (insert_by_head x ys e))
  ]

  insert_by_tail : (x : A) (ys : List A) {a : A} → Memᴰ a ys → Memᴰ a (insert_by x ys)
  insert_by_tail x [] m = elim m [ ]
  insert_by_tail x (y ∷ ys) (Memᴰ.head e) = elim (Bool-cases (leb (key x) (key y))) [
    | inl low ↦ rw low (Memᴰ.tail (Memᴰ.head e))
    | inr high ↦ rw high (Memᴰ.head e)
  ]
  insert_by_tail x (y ∷ ys) (Memᴰ.tail m) = elim (Bool-cases (leb (key x) (key y))) [
    | inl low ↦ rw low (Memᴰ.tail (Memᴰ.tail m))
    | inr high ↦ rw high (Memᴰ.tail (insert_by_tail x ys m))
  ]

  pub mem-sort_by : (xs : List A) {a : A} → Memᴰ a xs → Memᴰ a (sort_by xs)
  mem-sort_by [] m = elim m [ ]
  mem-sort_by (x ∷ xs) (Memᴰ.head e) = insert_by_head x (sort_by xs) e
  mem-sort_by (x ∷ xs) (Memᴰ.tail m) = insert_by_tail x (sort_by xs) (mem-sort_by xs m)

  of_mem-insert_by : (x : A) (ys : List A) {a : A} → Memᴰ a (insert_by x ys) → (a ≡ x) ⊎ Memᴰ a ys
  of_mem-insert_by x [] (Memᴰ.head e) = inl e
  of_mem-insert_by x [] (Memᴰ.tail m) = elim m [ ]
  of_mem-insert_by x (y ∷ ys) m = elim (Bool-cases (leb (key x) (key y))) [
    | inl low ↦ Memᴰ.cases_cons (rw low at m)
    | inr high ↦ elim (Memᴰ.cases_cons (rw high at m)) [
      | inl e ↦ inr (Memᴰ.head e)
      | inr later ↦ elim (of_mem-insert_by x ys later) [
        | inl e ↦ inl e
        | inr old ↦ inr (Memᴰ.tail old)
      ]
    ]
  ]

  pub of_mem-sort_by : (xs : List A) {a : A} → Memᴰ a (sort_by xs) → Memᴰ a xs
  of_mem-sort_by [] m = m
  of_mem-sort_by (x ∷ xs) m = elim (of_mem-insert_by x (sort_by xs) m) [
    | inl e ↦ Memᴰ.head e
    | inr later ↦ Memᴰ.tail (of_mem-sort_by xs later)
  ]

  All-le_trans : (a b : ℕ) (ys : List A) → a ≤ b → All (λ y. b ≤ key y) ys → All (λ y. a ≤ key y) ys
  All-le_trans a b [] le h = tt
  All-le_trans a b (y ∷ ys) le (h, hs) = (omega arith, All-le_trans a b ys le hs)

  insert_by-IsSorted : (x : A) (ys : List A) → IsSorted ys → IsSorted (insert_by x ys)
  insert_by-IsSorted x [] h = (tt, tt)
  insert_by-IsSorted x (y ∷ ys) (h, hs) = elim (Bool-cases (leb (key x) (key y))) [
    | inl low ↦
        let le = leb→le (key x) (key y) low in
        rw low ((le, All-le_trans (key x) (key y) ys le h), (h, hs))
    | inr high ↦
        rw high
          (All-insert_by (λ z. key y ≤ key z) x ys (ground arith) h, insert_by-IsSorted x ys hs)
  ]

  pub sort_by-IsSorted : (xs : List A) → IsSorted (sort_by xs)
  sort_by-IsSorted [] = tt
  sort_by-IsSorted (x ∷ xs) = insert_by-IsSorted x (sort_by xs) (sort_by-IsSorted xs)

  drop-lower :
      (n : ℕ) (xs : List A) (k : ℕ) {b : A}
      → All (λ y. k ≤ key y) xs
      → Memᴰ b (drop n xs)
      → k ≤ key b
  drop-lower zero xs k h m = All-mem (λ y. k ≤ key y) xs h m
  drop-lower (suc n) [] k h m = elim m [ ]
  drop-lower (suc n) (x ∷ xs) k (h, hs) m = drop-lower n xs k hs m

  -- In a sorted list nothing behind a prefix is smaller than anything in it.
  pub take-le-drop :
      (n : ℕ) (xs : List A) {b : A}
      → IsSorted xs
      → Memᴰ b (drop n xs)
      → All (λ y. key y ≤ key b) (take n xs)
  take-le-drop zero xs s m = tt
  take-le-drop (suc n) [] s m = tt
  take-le-drop (suc n) (x ∷ xs) (h, s) m = (drop-lower n xs (key x) h m, take-le-drop n xs s m)
