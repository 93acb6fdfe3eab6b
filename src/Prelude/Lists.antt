-- ===== src/Prelude/Lists.antt =====
-- Lists measured by native numbers, Boolean filters, and the predicates over lists that the
-- components share.
use Prim.Native.Nat.{ℕ, zero, suc, ◌+◌, ◌≤◌}
use mathlib.Core.Path.{◌≡◌, refl, ap, sym}
use mathlib.Core.Logic.{inl, inr}
use mathlib.Core.Bool.{Bool, true, false, ◌&&◌, ◌||◌}
use mathlib.Core.List.{List, [], ◌∷◌, ◌++◌, map, Memᴰ}
use mathlib.Core.Option
use mathlib.Core.Option.{Option, none, some, some-injective}
use native.Mathlib.Omega.{arith}
use openzigs_social.Prelude.Tests.{if◌then◌else◌, ◌==◌, Bool-cases}

module _ {ℓ} {A : Type ℓ} where
  abbrev pub length : List A → ℕ
  length [] = 0
  length (x ∷ xs) = suc (length xs)

  abbrev pub take : ℕ → List A → List A
  take zero xs = []
  take (suc n) [] = []
  take (suc n) (x ∷ xs) = x ∷ take n xs

  abbrev pub drop : ℕ → List A → List A
  drop zero xs = xs
  drop (suc n) [] = []
  drop (suc n) (x ∷ xs) = drop n xs

  -- `Array.prototype.filter`, by a Boolean test.
  abbrev pub keep : (A → Bool) → List A → List A
  keep p [] = []
  keep p (x ∷ xs) = if p x then x ∷ keep p xs else keep p xs

  abbrev pub any : (A → Bool) → List A → Bool
  any p [] = false
  any p (x ∷ xs) = p x || any p xs

  abbrev pub all : (A → Bool) → List A → Bool
  all p [] = true
  all p (x ∷ xs) = p x && all p xs

  pub length-append : (xs ys : List A) → length (xs ++ ys) ≡ length xs + length ys
  length-append [] ys = omega arith
  length-append (x ∷ xs) ys = omega (arith, length-append xs ys)

  pub length-take : (n : ℕ) (xs : List A) → length (take n xs) ≤ n
  length-take zero xs = omega arith
  length-take (suc n) [] = omega arith
  length-take (suc n) (x ∷ xs) = omega (arith, length-take n xs)

  pub take-append-drop : (n : ℕ) (xs : List A) → take n xs ++ drop n xs ≡ xs
  take-append-drop zero xs = refl
  take-append-drop (suc n) [] = refl
  take-append-drop (suc n) (x ∷ xs) = rw (take-append-drop n xs)

  pub mem_of_mem-drop : (n : ℕ) (xs : List A) (a : A) → Memᴰ a (drop n xs) → Memᴰ a xs
  mem_of_mem-drop zero xs a m = m
  mem_of_mem-drop (suc n) [] a m = m
  mem_of_mem-drop (suc n) (x ∷ xs) a m = Memᴰ.tail (mem_of_mem-drop n xs a m)

  pub mem-keep : (p : A → Bool) (a : A) (xs : List A) → p a ≡ true → Memᴰ a xs → Memᴰ a (keep p xs)
  mem-keep p a [] h m = elim m [ ]
  mem-keep p a (x ∷ xs) h (Memᴰ.head e) = rw (← e, h) (Memᴰ.head refl)
  mem-keep p a (x ∷ xs) h (Memᴰ.tail m) = elim (Bool-cases (p x)) [
    | inl t ↦ rw t (Memᴰ.tail (mem-keep p a xs h m))
    | inr f ↦ rw f (mem-keep p a xs h m)
  ]

  mem-keep-cons :
      (p : A → Bool) (a x : A) (xs : List A)
      → p x ≡ true
      → (Memᴰ a (keep p xs) → Memᴰ a xs × (p a ≡ true))
      → Memᴰ a (x ∷ keep p xs)
      → Memᴰ a (x ∷ xs) × (p a ≡ true)
  mem-keep-cons p a x xs t ih (Memᴰ.head e) = (Memᴰ.head e, rw e t)
  mem-keep-cons p a x xs t ih (Memᴰ.tail m) = (Memᴰ.tail (ih m).0, (ih m).1)

  pub mem_of_mem-keep :
      (p : A → Bool) (a : A) (xs : List A) → Memᴰ a (keep p xs) → Memᴰ a xs × (p a ≡ true)
  mem_of_mem-keep p a [] m = elim m [ ]
  mem_of_mem-keep p a (x ∷ xs) m = elim (Bool-cases (p x)) [
    | inl t ↦ mem-keep-cons p a x xs t (mem_of_mem-keep p a xs) (rw t at m)
    | inr f ↦ let r = mem_of_mem-keep p a xs (rw f at m) in (Memᴰ.tail r.0, r.1)
  ]

  abbrev pub All {κ} : (A → Type κ) → List A → Type κ
  All P [] = Unit
  All P (x ∷ xs) = P x × All P xs

  pub All-mem {κ} : (P : A → Type κ) {a : A} {xs : List A} → Memᴰ a xs → All P xs → P a
  All-mem P (Memᴰ.head e) h = rw e h.0
  All-mem P (Memᴰ.tail m) h = All-mem P m h.1

  pub All-of_mem {κ} : (P : A → Type κ) (xs : List A) → ((a : A) → Memᴰ a xs → P a) → All P xs
  All-of_mem P [] h = tt
  All-of_mem P (x ∷ xs) h = (h x (Memᴰ.head refl), All-of_mem P xs (λ a m. h a (Memᴰ.tail m)))

  pub All-take {κ} : (P : A → Type κ) (n : ℕ) (xs : List A) → All P xs → All P (take n xs)
  All-take P zero xs h = tt
  All-take P (suc n) [] h = tt
  All-take P (suc n) (x ∷ xs) h = (h.0, All-take P n xs h.1)

module _ {ℓ κ} {A : Type ℓ} {B : Type κ} (f : A → B) where
  pub length-map : (xs : List A) → length (map f xs) ≡ length xs
  length-map [] = refl
  length-map (x ∷ xs) = ap suc (length-map xs)

-- Membership of a number in a list, by `===`.
abbrev pub includes : ℕ → List ℕ → Bool
includes k xs = any (λ x. x == k) xs

-- A number in the keys of a list is the key of one of its entries.
pub includes-map {ℓ} :
    {A : Type ℓ} (key : A → ℕ) (k : ℕ) (xs : List A)
    → includes k (map key xs) ≡ true
    → (x : A) × Memᴰ x xs × (key x ≡ k)
includes-map key k [] h = cc
includes-map key k (x ∷ xs) h = elim (Bool-cases (key x == k)) [
  | inl hit ↦ (x, Memᴰ.head refl, ground arith)
  | inr miss ↦ let (y, m, e) = includes-map key k xs (rw miss at h) in (y, Memᴰ.tail m, e)
]

pub includes-map_of_mem {ℓ} :
    {A : Type ℓ} (key : A → ℕ) {x : A} (xs : List A)
    → Memᴰ x xs
    → includes (key x) (map key xs) ≡ true
includes-map_of_mem key [] m = elim m [ ]
includes-map_of_mem key (y ∷ xs) (Memᴰ.head e) = rw (← e) (ground arith)
includes-map_of_mem key (y ∷ xs) (Memᴰ.tail m) = ground (arith, includes-map_of_mem key xs m)

module _ {ℓ κ} {A : Type ℓ} {B : Type κ} where
  pub map_same :
      (g g' : A → B) (o : Option A)
      → ((a : A) → o ≡ some a → g a ≡ g' a)
      → Option.map g o ≡ Option.map g' o
  map_same g g' none h = refl
  map_same g g' (some a) h = ap some (h a refl)

-- A map that changes no value that is there.
pub map_fixed {ℓ} :
    {A : Type ℓ} (g : A → A) (o : Option A) → ((a : A) → o ≡ some a → g a ≡ a) → o ≡ Option.map g o
map_fixed g none h = refl
map_fixed g (some a) h = ap some (sym (h a refl))

pub some_inj {ℓ} : {A : Type ℓ} {a b : A} → some a ≡ some b → a ≡ b
some_inj h = some-injective _ _ h
