-- ===== src/Base/Keys.antt =====
-- Lists of keys: lengths, how often a key occurs, and Rust's `position` with `Vec::swap_remove`.
use Prim.Native.Nat.{ℕ, zero, suc, ◌+◌}
use mathlib.Core.Path.{◌≡◌, refl}
use mathlib.Core.Logic.{inl, inr}
use mathlib.Core.Bool.{Bool, true, false}
use mathlib.Core.Option.{Option, none, some, some-injective}
use mathlib.Core.List.{List, [], ◌∷◌}
use native.Mathlib.Omega.{arith}
use stendar_l.Base.Tests.{◌==◌, if◌then◌else◌, Option-cases}

abbrev pub length {ℓ} : {A : Type ℓ} → List A → ℕ
length [] = 0
length (x ∷ xs) = suc (length xs)

abbrev pub is_empty {ℓ} : {A : Type ℓ} → List A → Bool
is_empty [] = true
is_empty (x ∷ xs) = false

abbrev pub count : ℕ → List ℕ → ℕ
count k [] = 0
count k (x ∷ xs) = (if x == k then 1 else 0) + count k xs

-- `xs.iter().position(|x| x == k)`
unfoldable pub position : ℕ → List ℕ → Option ℕ
position k [] = none
position k (x ∷ xs) =
    if x == k then some 0 else elim (position k xs) [ none ↦ none | some i ↦ some (suc i) ]

-- A write out of bounds changes nothing.
pub set : List ℕ → ℕ → ℕ → List ℕ
set [] i v = []
set (x ∷ xs) zero v = v ∷ xs
set (x ∷ xs) (suc i) v = x ∷ set xs i v

pub last : ℕ → List ℕ → ℕ
last x [] = x
last x (y ∷ ys) = last y ys

pub init : ℕ → List ℕ → List ℕ
init x [] = []
init x (y ∷ ys) = x ∷ init y ys

-- `Vec::swap_remove`: the last element takes the place of the one removed.
unfoldable pub swap_remove : List ℕ → ℕ → List ℕ
unfolding set last init
swap_remove [] i = []
swap_remove (x ∷ xs) i = set (init x xs) i (last x xs)

-- The removal of a key as the program writes it: find its position, and swap-remove that.
unfoldable pub remove_key : ℕ → List ℕ → Option (List ℕ)
remove_key k xs = elim (position k xs) [ none ↦ none | some i ↦ some (swap_remove xs i) ]

count-init :
    (j x : ℕ) (xs : List ℕ) → count j (x ∷ xs) ≡ count j (init x xs) + count j (last x xs ∷ [])
unfolding init last
count-init j x [] = omega arith
count-init j x (y ∷ ys) = omega (arith, count-init j y ys)

-- The element at a position, as a one-element list; past the end, the given one.
get_or : List ℕ → ℕ → ℕ → ℕ
get_or [] i d = d
get_or (x ∷ xs) zero d = x
get_or (x ∷ xs) (suc i) d = get_or xs i d

count-set :
    (j v : ℕ) (xs : List ℕ) (i : ℕ)
    → count j (set xs i v) + count j (get_or xs i v ∷ []) ≡ count j xs + count j (v ∷ [])
unfolding set get_or
count-set j v [] i = refl
count-set j v (x ∷ xs) zero = omega arith
count-set j v (x ∷ xs) (suc i) = omega (arith, count-set j v xs i)

position-nil : (k : ℕ) → position k [] ≡ none
unfolding position
position-nil k = refl

-- The position of a key is where it stands, also when that is the end of the list.
get_or-position :
    (k x : ℕ) (xs : List ℕ) (i : ℕ)
    → position k (x ∷ xs) ≡ some i
    → get_or (init x xs) i (last x xs) ≡ k
unfolding position init last get_or
get_or-position k x [] i h = ground arith
get_or-position k x (y ∷ ys) zero h = ground arith
get_or-position k x (y ∷ ys) (suc i) h = ground (arith, get_or-position k y ys i)

removed :
    (k j x : ℕ) (xs : List ℕ) (i : ℕ)
    → position k (x ∷ xs) ≡ some i
    → count j (x ∷ xs) ≡ count j (k ∷ set (init x xs) i (last x xs))
removed k j x xs i e =
    let taken : count j (get_or (init x xs) i (last x xs) ∷ []) ≡ count j (k ∷ []) =
      rw (get_or-position k x xs i e) in
    omega (arith, count-set j (last x xs) (init x xs) i, count-init j x xs)

-- Removing a key takes exactly one occurrence of it.
pub count-remove_key :
    (k j : ℕ) (xs rest : List ℕ) → remove_key k xs ≡ some rest → count j xs ≡ count j (k ∷ rest)
unfolding remove_key swap_remove
count-remove_key k j [] rest h = ground (arith, position-nil k)
count-remove_key k j (x ∷ xs) rest h = elim (Option-cases (position k (x ∷ xs))) [
  | inl e ↦ cc (rw (e, remove_key) at h)
  | inr (i, e) ↦ rw (← some-injective _ _ (rw (e, remove_key) at h)) (removed k j x xs i e)
]

length-set : (xs : List ℕ) (i v : ℕ) → length (set xs i v) ≡ length xs
unfolding set
length-set [] i v = refl
length-set (x ∷ xs) zero v = refl
length-set (x ∷ xs) (suc i) v = omega (arith, length-set xs i v)

length-init : (x : ℕ) (xs : List ℕ) → length (init x xs) ≡ length xs
unfolding init
length-init x [] = refl
length-init x (y ∷ ys) = omega (arith, length-init y ys)

-- Removing a key makes a list shorter by one.
pub length-remove_key :
    (k : ℕ) (xs rest : List ℕ) → remove_key k xs ≡ some rest → length rest + 1 ≡ length xs
unfolding remove_key swap_remove
length-remove_key k [] rest h = ground (arith, position-nil k)
length-remove_key k (x ∷ xs) rest h = elim (Option-cases (position k (x ∷ xs))) [
  | inl e ↦ cc (rw (e, remove_key) at h)
  | inr (i, e) ↦
      rw (← some-injective _ _ (rw (e, remove_key) at h))
        (omega (arith, length-set (init x xs) i (last x xs), length-init x xs))
]
