-- ===== src/Base/Lists.antt =====
-- Lists over the native numbers, and predicates on lists by recursion, which the tactics read.
use Prim.Native.Nat.{ℕ, zero, suc, ◌+◌, ◌≤◌}
use mathlib.Core.Path.{◌≡◌, refl, ap, subst}
use mathlib.Core.Logic.{◌↔◌, ◌⊎◌, inl, inr}
use mathlib.Core.List.{List, [], ◌∷◌, ◌++◌}
use native.Mathlib.Omega.{arith}

module _ {ℓ} {A : Type ℓ} where
  abbrev pub length : List A → ℕ
  length [] = 0
  length (x ∷ xs) = suc (length xs)

  -- The first elements, as the slice `s[:n]` keeps them where `n` is at most the length.
  abbrev pub take : ℕ → List A → List A
  take zero xs = []
  take (suc n) [] = []
  take (suc n) (x ∷ xs) = x ∷ take n xs

  abbrev pub drop : ℕ → List A → List A
  drop zero xs = xs
  drop (suc n) [] = []
  drop (suc n) (x ∷ xs) = drop n xs

  pub take-append : (xs ys : List A) → take (length xs) (xs ++ ys) ≡ xs
  take-append [] ys = refl
  take-append (x ∷ xs) ys = ap (λ l. x ∷ l) (take-append xs ys)

  pub drop-append : (xs ys : List A) → drop (length xs) (xs ++ ys) ≡ ys
  drop-append [] ys = refl
  drop-append (x ∷ xs) ys = drop-append xs ys

  pub drop-append_past :
      (xs : List A) (y : A) (ys : List A) → drop (suc (length xs)) (xs ++ y ∷ ys) ≡ ys
  drop-append_past [] y ys = refl
  drop-append_past (x ∷ xs) y ys = drop-append_past xs y ys

  pub length-append : (xs ys : List A) → length (xs ++ ys) ≡ length xs + length ys
  length-append [] ys = omega arith
  length-append (x ∷ xs) ys = omega (arith, length-append xs ys)

  pub length-take : (n : ℕ) (xs : List A) → length (take n xs) ≤ n
  length-take zero xs = omega arith
  length-take (suc n) [] = omega arith
  length-take (suc n) (x ∷ xs) = omega (arith, length-take n xs)

module _ {ℓ κ} {A : Type ℓ} (P : A → Type κ) where
  abbrev pub All : List A → Type κ
  All [] = Unit
  All (x ∷ xs) = P x × All xs

  pub All-append : (xs ys : List A) → All xs → All ys → All (xs ++ ys)
  All-append [] ys _ hy = hy
  All-append (x ∷ xs) ys (px, hx) hy = (px, All-append xs ys hx hy)

module _ {ℓ κ μ} {A : Type ℓ} {P : A → Type κ} {Q : A → Type μ} where
  pub All-imp : (f : (x : A) → P x → Q x) (xs : List A) → All P xs → All Q xs
  All-imp f [] _ = tt
  All-imp f (x ∷ xs) (p, h) = (f x p, All-imp f xs h)

module _ {ℓ} {A : Type ℓ} where
  abbrev pub Exists : (A → Type 0) → List A → Type 0
  Exists P [] = ⊥
  Exists P (x ∷ xs) = P x ⊎ Exists P xs

  pub Exists-imp :
      {P Q : A → Type 0} (f : (x : A) → P x → Q x) (xs : List A) → Exists P xs → Exists Q xs
  Exists-imp f [] h = absurd h
  Exists-imp f (x ∷ xs) (inl p) = inl (f x p)
  Exists-imp f (x ∷ xs) (inr h) = inr (Exists-imp f xs h)

module _ {A : Type 0} where
  abbrev pub Elem : A → List A → Type 0
  Elem a = Exists (λ x. x ≡ a)

  -- The element of which the property holds.
  pub Exists-pick : (P : A → Type 0) (xs : List A) → Exists P xs → (x : A) × Elem x xs × P x
  Exists-pick P [] h = absurd h
  Exists-pick P (x ∷ xs) (inl p) = (x, inl refl, p)
  Exists-pick P (x ∷ xs) (inr h) = let (y, m, p) = Exists-pick P xs h in (y, inr m, p)

  pub All-self : (xs : List A) → All (λ x. Elem x xs) xs
  All-self [] = tt
  All-self (x ∷ xs) = (inl refl, All-imp (λ y m. inr m) xs (All-self xs))

  pub Exists-append_left : (P : A → Type 0) (xs ys : List A) → Exists P xs → Exists P (xs ++ ys)
  Exists-append_left P [] ys h = absurd h
  Exists-append_left P (x ∷ xs) ys (inl p) = inl p
  Exists-append_left P (x ∷ xs) ys (inr h) = inr (Exists-append_left P xs ys h)

  pub Exists-append_last : (P : A → Type 0) (xs : List A) (x : A) → P x → Exists P (xs ++ x ∷ [])
  Exists-append_last P [] x p = inl p
  Exists-append_last P (y ∷ xs) x p = inr (Exists-append_last P xs x p)

  -- What holds of one element of a list to which one is added.
  pub Exists-append_cases :
      (P : A → Type 0) (xs : List A) (x : A) → Exists P (xs ++ x ∷ []) → Exists P xs ⊎ P x
  Exists-append_cases P [] x (inl p) = inr p
  Exists-append_cases P [] x (inr h) = absurd h
  Exists-append_cases P (y ∷ xs) x (inl p) = inl (inl p)
  Exists-append_cases P (y ∷ xs) x (inr h) = elim (Exists-append_cases P xs x h) [
    | inl m ↦ inl (inr m)
    | inr p ↦ inr p
  ]

  pub All-not_of_not-Exists : (P : A → Type 0) (xs : List A) → ¬ Exists P xs → All (λ x. ¬ P x) xs
  All-not_of_not-Exists P [] h = tt
  All-not_of_not-Exists P (x ∷ xs) h = (λ p. h (inl p), All-not_of_not-Exists P xs (λ e. h (inr e)))

module _ {A : Type 0} (P : A → Type 0) where
  pub All-split : (xs ys : List A) → All P (xs ++ ys) → All P xs × All P ys
  All-split [] ys h = (tt, h)
  All-split (x ∷ xs) ys (p, h) = let (hx, hy) = All-split xs ys h in ((p, hx), hy)

  pub All-at : (xs : List A) (x : A) → All P xs → Elem x xs → P x
  All-at [] x h m = absurd m
  All-at (y ∷ ys) x (p, h) (inl e) = subst P e p
  All-at (y ∷ ys) x (p, h) (inr m) = All-at ys x h m

module _ {A : Type 0} where
  -- The list of which an element of a concatenation is one.
  pub Elem-append : (xs ys : List A) (x : A) → Elem x (xs ++ ys) ↔ (Elem x xs ⊎ Elem x ys)
  Elem-append [] ys x = (λ m. inr m, λ h. elim h [ inl m ↦ absurd m | inr m ↦ m ])
  Elem-append (y ∷ xs) ys x = (
    λ h. elim h [
      | inl e ↦ inl (inl e)
      | inr m ↦ elim ((Elem-append xs ys x).0 m) [ inl l ↦ inl (inr l) | inr r ↦ inr r ]
    ],
    λ h. elim h [
      | inl l ↦ elim l [ inl e ↦ inl e | inr m ↦ inr ((Elem-append xs ys x).1 (inl m)) ]
      | inr r ↦ inr ((Elem-append xs ys x).1 (inr r))
    ],
  )
