-- ===== src/Base/Lists.antt =====
-- Lists measured by native numbers and filtered by Boolean tests.
use Prim.Native.Nat.{ℕ, zero, suc, ◌≤◌, min}
use Prim.Native.String.{String}
use mathlib.Core.Path.{◌≡◌, refl, ap, sym, ◌∙◌}
use mathlib.Core.Logic.{◌⊎◌, inl, inr}
use mathlib.Core.Bool.{Bool, true, false, ◌||◌}
use mathlib.Core.Option.{Option, none, some}
use mathlib.Core.List.{List, [], ◌∷◌, ◌++◌, map, Memᴰ}
use mathlib.Core.List.Memᴰ
use native.Mathlib.Omega.{arith}
use text.Mathlib.Text.{◌==◌}
use text.Mathlib.TextEquality.{eq_iff}
use hexagonal.Base.Tests.{if◌then◌else◌, Bool-cases}

module _ {ℓ} {A : Type ℓ} where
  abbrev pub length : List A → ℕ
  length [] = 0
  length (_ ∷ xs) = suc (length xs)

  abbrev pub take : ℕ → List A → List A
  take zero xs = []
  take (suc n) [] = []
  take (suc n) (x ∷ xs) = x ∷ take n xs

  abbrev pub drop : ℕ → List A → List A
  drop zero xs = xs
  drop (suc n) [] = []
  drop (suc n) (x ∷ xs) = drop n xs

  -- `array.filter(test)`
  abbrev pub filter : (A → Bool) → List A → List A
  filter p [] = []
  filter p (x ∷ xs) = if p x then x ∷ filter p xs else filter p xs

  -- `array.some(test)`
  abbrev pub any : (A → Bool) → List A → Bool
  any p [] = false
  any p (x ∷ xs) = p x || any p xs

-- `array.includes(text)`
-- `xs.find(p)`
module _ {ℓ} {A : Type ℓ} where
  abbrev pub find : (A → Bool) → List A → Option A
  find p [] = none
  find p (x ∷ xs) = if p x then some x else find p xs

  pub mem_of_any :
      (p : A → Bool) (xs : List A) → any p xs ≡ true → (a : A) × Memᴰ a xs × (p a ≡ true)
  mem_of_any p [] h = absurd (cc)
  mem_of_any p (x ∷ xs) h = elim (Bool-cases (p x)) [
    | inl here ↦ (x, Memᴰ.head refl, here)
    | inr later ↦ let (a, m, e) = mem_of_any p xs (ground arith) in (a, Memᴰ.tail m, e)
  ]

  pub any_of_mem : (p : A → Bool) (xs : List A) {a : A} → Memᴰ a xs → p a ≡ true → any p xs ≡ true
  any_of_mem p [] m h = elim m [ ]
  any_of_mem p (x ∷ xs) {a} (Memᴰ.head e) h = ground (arith, ap p e)
  any_of_mem p (x ∷ xs) (Memᴰ.tail m) h = ground (arith, any_of_mem p xs m h)

  pub find_of_mem :
      (p : A → Bool) (xs : List A) {a : A}
      → Memᴰ a xs
      → p a ≡ true
      → (b : A) × (find p xs ≡ some b) × Memᴰ b xs × (p b ≡ true)
  find_of_mem p [] m h = elim m [ ]
  find_of_mem p (x ∷ xs) {a} m h = elim (Bool-cases (p x)) [
    | inl here ↦ (x, rw here refl, Memᴰ.head refl, here)
    | inr later ↦ elim m [
      | Memᴰ.head e ↦ absurd (ground (arith, ap p e))
      | Memᴰ.tail n ↦
          let (b, found, n, e) = find_of_mem p xs n h in (b, rw later found, Memᴰ.tail n, e)
    ]
  ]

module _ {ℓ} {A : Type ℓ} where
  pub of_find : (p : A → Bool) (xs : List A) {a : A} → find p xs ≡ some a → Memᴰ a xs × (p a ≡ true)
  of_find p [] e = absurd (cc)
  of_find p (x ∷ xs) {a} e = elim (Bool-cases (p x)) [
    | inl here ↦ let same : x ≡ a = ground arith in (Memᴰ.head (sym same), ap p (sym same) ∙ here)
    | inr later ↦ let (m, h) = of_find p xs {a = a} (ground arith) in (Memᴰ.tail m, h)
  ]

abbrev pub includes : String → List String → Bool
includes s = any (λ t. t == s)

module _ {ℓ} {A : Type ℓ} where
  pub length-take : (n : ℕ) (xs : List A) → length (take n xs) ≡ min n (length xs)
  length-take zero xs = omega arith
  length-take (suc n) [] = omega arith
  length-take (suc n) (x ∷ xs) = omega (arith, length-take n xs)

  pub length-map {κ} : {B : Type κ} (f : A → B) (xs : List A) → length (map f xs) ≡ length xs
  length-map f [] = refl
  length-map f (x ∷ xs) = ap suc (length-map f xs)

  pub length-filter-le : (p : A → Bool) (xs : List A) → length (filter p xs) ≤ length xs
  length-filter-le p [] = omega arith
  length-filter-le p (x ∷ xs) = ground (arith, length-filter-le p xs)

  pub take-append-drop : (n : ℕ) (xs : List A) → take n xs ++ drop n xs ≡ xs
  take-append-drop zero xs = refl
  take-append-drop (suc n) [] = refl
  take-append-drop (suc n) (x ∷ xs) = ap (λ t. x ∷ t) (take-append-drop n xs)

  -- What is left out of a prefix of `n` elements shows that the prefix is full.
  pub take_or_drop :
      (n : ℕ) (xs : List A) {a : A} → Memᴰ a xs → Memᴰ a (take n xs) ⊎ Memᴰ a (drop n xs)
  take_or_drop zero xs m = inr m
  take_or_drop (suc n) [] m = elim m [ ]
  take_or_drop (suc n) (x ∷ xs) (Memᴰ.head e) = inl (Memᴰ.head e)
  take_or_drop (suc n) (x ∷ xs) (Memᴰ.tail m) = elim (take_or_drop n xs m) [
    | inl front ↦ inl (Memᴰ.tail front)
    | inr back ↦ inr back
  ]

  pub take_full : (n : ℕ) (xs : List A) {a : A} → Memᴰ a (drop n xs) → length (take n xs) ≡ n
  take_full zero xs m = refl
  take_full (suc n) [] m = elim m [ ]
  take_full (suc n) (x ∷ xs) m = ap suc (take_full n xs m)

  pub mem-filter :
      (p : A → Bool) (xs : List A) {a : A} → Memᴰ a xs → p a ≡ true → Memᴰ a (filter p xs)
  mem-filter p [] m h = elim m [ ]
  mem-filter p (x ∷ xs) {a} (Memᴰ.head e) h =
      let here : p x ≡ true = rw (← e) h in rw here (Memᴰ.head e)
  mem-filter p (x ∷ xs) (Memᴰ.tail m) h = elim (Bool-cases (p x)) [
    | inl kept ↦ rw kept (Memᴰ.tail (mem-filter p xs m h))
    | inr dropped ↦ rw dropped (mem-filter p xs m h)
  ]

  pub of_mem-filter :
      (p : A → Bool) (xs : List A) {a : A} → Memᴰ a (filter p xs) → Memᴰ a xs × (p a ≡ true)
  of_mem-filter p [] m = elim m [ ]
  of_mem-filter p (x ∷ xs) {a} m = elim (Bool-cases (p x)) [
    | inl kept ↦ elim (Memᴰ.cases_cons (rw kept at m)) [
      | inl e ↦ (Memᴰ.head e, rw e kept)
      | inr later ↦ let (old, test) = of_mem-filter p xs later in (Memᴰ.tail old, test)
    ]
    | inr dropped ↦ let (old, test) = of_mem-filter p xs (rw dropped at m) in (Memᴰ.tail old, test)
  ]

  pub of_mem-take : (n : ℕ) (xs : List A) {a : A} → Memᴰ a (take n xs) → Memᴰ a xs
  of_mem-take zero xs m = elim m [ ]
  of_mem-take (suc n) [] m = elim m [ ]
  of_mem-take (suc n) (x ∷ xs) (Memᴰ.head e) = Memᴰ.head e
  of_mem-take (suc n) (x ∷ xs) (Memᴰ.tail m) = Memᴰ.tail (of_mem-take n xs m)

-- `P` holds of every element.
abbrev pub All {ℓ κ} : {A : Type ℓ} → (A → Type κ) → List A → Type κ
All P [] = Unit
All P (x ∷ xs) = P x × All P xs

module _ {ℓ} {A : Type ℓ} where
  pub All-filter_test : (p : A → Bool) (xs : List A) → All (λ x. p x ≡ true) (filter p xs)
  All-filter_test p [] = tt
  All-filter_test p (x ∷ xs) = elim (Bool-cases (p x)) [
    | inl kept ↦ rw kept (kept, All-filter_test p xs)
    | inr dropped ↦ rw dropped (All-filter_test p xs)
  ]

module _ {ℓ κ} {A : Type ℓ} (P : A → Type κ) where
  pub All-filter : (p : A → Bool) (xs : List A) → All P xs → All P (filter p xs)
  All-filter p [] h = tt
  All-filter p (x ∷ xs) (h, hs) = elim (Bool-cases (p x)) [
    | inl kept ↦ rw kept (h, All-filter p xs hs)
    | inr dropped ↦ rw dropped (All-filter p xs hs)
  ]

  pub All-take : (n : ℕ) (xs : List A) → All P xs → All P (take n xs)
  All-take zero xs h = tt
  All-take (suc n) [] h = tt
  All-take (suc n) (x ∷ xs) (h, hs) = (h, All-take n xs hs)

  pub All-mem : (xs : List A) {a : A} → All P xs → Memᴰ a xs → P a
  All-mem [] h m = elim m [ ]
  All-mem (x ∷ xs) (h, hs) (Memᴰ.head e) = rw e h
  All-mem (x ∷ xs) (h, hs) (Memᴰ.tail m) = All-mem xs hs m

  pub All-intro : (xs : List A) → ((a : A) → Memᴰ a xs → P a) → All P xs
  All-intro [] h = tt
  All-intro (x ∷ xs) h = (h x (Memᴰ.head refl), All-intro xs (λ a m. h a (Memᴰ.tail m)))

-- Membership of texts, tested and proved.
pub includes_of_mem : (s : String) (xs : List String) → Memᴰ s xs → includes s xs ≡ true
includes_of_mem s [] m = elim m [ ]
includes_of_mem s (x ∷ xs) (Memᴰ.head e) = ground (arith, eq_iff x s)
includes_of_mem s (x ∷ xs) (Memᴰ.tail m) = ground (arith, includes_of_mem s xs m)

pub mem_of_includes : (s : String) (xs : List String) → includes s xs ≡ true → Memᴰ s xs
mem_of_includes s [] h = absurd (cc)
mem_of_includes s (x ∷ xs) h = elim (Bool-cases (x == s)) [
  | inl same ↦ Memᴰ.head (sym ((eq_iff x s).0 same))
  | inr other ↦ Memᴰ.tail (mem_of_includes s xs (ground arith))
]
