-- ===== src/Common/Lists.antt =====
-- Lists with Boolean tests: length, membership by recursion, `any`, `all`, and their laws.
use Prim.Native.Nat.{ℕ, suc, ◌≤◌}
use mathlib.Core.Path.{◌≡◌, refl}
use mathlib.Core.Logic.{◌⊎◌, inl, inr}
use mathlib.Core.Bool.{Bool, true, false, ◌&&◌, ◌||◌}
use mathlib.Core.List.{List, [], ◌∷◌, ◌++◌}
use native.Mathlib.Omega.{arith}
use district_scheduler.Common.Tests.{if◌then◌else◌, Bool-cases}

module _ {ℓ} {A : Type ℓ} where
  abbrev pub length : List A → ℕ
  length [] = 0
  length (x ∷ xs) = suc (length xs)

  abbrev pub any : (A → Bool) → List A → Bool
  any p [] = false
  any p (x ∷ xs) = p x || any p xs

  abbrev pub all : (A → Bool) → List A → Bool
  all p [] = true
  all p (x ∷ xs) = p x && all p xs

  -- The entries that pass a test, in order.
  abbrev pub select : (A → Bool) → List A → List A
  select p [] = []
  select p (x ∷ xs) = let rest = select p xs in if p x then x ∷ rest else rest

  pub any-append : (p : A → Bool) (xs ys : List A) → any p (xs ++ ys) ≡ (any p xs || any p ys)
  any-append p [] ys = refl
  any-append p (x ∷ xs) ys = ground (arith, any-append p xs ys)

  pub length-select-le : (p : A → Bool) (xs : List A) → length (select p xs) ≤ length xs
  length-select-le p [] = omega arith
  length-select-le p (x ∷ xs) = ground (arith, length-select-le p xs)

module _ {A : Type 0} where
  abbrev pub In : A → List A → Type 0
  In a [] = ⊥
  In a (x ∷ xs) = (a ≡ x) ⊎ In a xs

  pub In-append_left : (a : A) (xs ys : List A) → In a xs → In a (xs ++ ys)
  In-append_left a [] ys h = elim h [ ]
  In-append_left a (x ∷ xs) ys (inl e) = inl e
  In-append_left a (x ∷ xs) ys (inr h) = inr (In-append_left a xs ys h)

  pub In-append_right : (a : A) (xs ys : List A) → In a ys → In a (xs ++ ys)
  In-append_right a [] ys h = h
  In-append_right a (x ∷ xs) ys h = inr (In-append_right a xs ys h)

  pub In-append : (a : A) (xs ys : List A) → In a (xs ++ ys) → In a xs ⊎ In a ys
  In-append a [] ys h = inr h
  In-append a (x ∷ xs) ys (inl e) = inl (inl e)
  In-append a (x ∷ xs) ys (inr h) = elim (In-append a xs ys h) [
    | inl l ↦ inl (inr l)
    | inr r ↦ inr r
  ]

  pub any_of_In : (p : A → Bool) (a : A) (xs : List A) → In a xs → p a ≡ true → any p xs ≡ true
  any_of_In p a [] h e = elim h [ ]
  any_of_In p a (x ∷ xs) (inl q) e = ground arith
  any_of_In p a (x ∷ xs) (inr h) e = ground (arith, any_of_In p a xs h e)

  pub In-of_any : (p : A → Bool) (xs : List A) → any p xs ≡ true → (a : A) × In a xs × (p a ≡ true)
  In-of_any p [] h = absurd (cc)
  In-of_any p (x ∷ xs) h = elim (Bool-cases (p x)) [
    | inl e ↦ (x, inl refl, e)
    | inr e ↦ let r = In-of_any p xs (ground arith) in (r.0, inr r.1, r.2)
  ]

  pub not-any_of_In :
      (p : A → Bool) (a : A) (xs : List A) → any p xs ≡ false → In a xs → p a ≡ false
  not-any_of_In p a xs h i = elim (Bool-cases (p a)) [
    | inl e ↦ absurd (ground (arith, any_of_In p a xs i e))
    | inr e ↦ e
  ]

  pub all_of_In : (p : A → Bool) (a : A) (xs : List A) → all p xs ≡ true → In a xs → p a ≡ true
  all_of_In p a [] h i = elim i [ ]
  all_of_In p a (x ∷ xs) h (inl e) = ground arith
  all_of_In p a (x ∷ xs) h (inr i) = all_of_In p a xs (ground arith) i

  pub In-select : (p : A → Bool) (a : A) (xs : List A) → In a (select p xs) → In a xs × (p a ≡ true)
  In-select p a [] h = elim h [ ]
  In-select p a (x ∷ xs) h = ground (arith, In-select p a xs)

  pub In-select_of :
      (p : A → Bool) (a : A) (xs : List A) → In a xs → p a ≡ true → In a (select p xs)
  In-select_of p a [] h e = elim h [ ]
  In-select_of p a (x ∷ xs) (inl q) e = ground arith
  In-select_of p a (x ∷ xs) (inr h) e = ground (arith, In-select_of p a xs h e)

  pub any_mono :
      (p q : A → Bool) (xs : List A)
      → ((a : A) → p a ≡ true → q a ≡ true)
      → any p xs ≡ true
      → any q xs ≡ true
  any_mono p q [] h e = e
  any_mono p q (x ∷ xs) h e = ground (arith, h x, any_mono p q xs h)
