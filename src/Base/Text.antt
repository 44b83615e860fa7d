-- ===== src/Base/Text.antt =====
-- Go strings as their bytes, with the functions of package `strings` that the program calls.
use Prim.Native.Nat.{ℕ, suc}
use Prim.Native.Char.{code}
use Prim.Native.String.{String}
use mathlib.Core.Path.{◌≡◌, refl}
use mathlib.Core.Logic.{◌≢◌, ◌↔◌, inl, inr}
use mathlib.Core.Bool.{Bool, true, false, ◌&&◌, ◌||◌}
use mathlib.Core.Option
use mathlib.Core.Option.{Option, none, some}
use mathlib.Core.List.{List, [], ◌∷◌, ◌++◌}
use native.Mathlib.Omega.{arith}
use fortsa.Base.Tests.{eqb, if◌then◌else◌}
use fortsa.Base.Lists.{All, Exists, length}

abbrev pub Bytes : Type 0
Bytes = List ℕ

-- The code points of a literal: its bytes, since every literal of the program is ASCII.
abbrev pub codes : String → Bytes
codes String.[] = []
codes (String.◌∷◌ c s) = code c ∷ codes s

infix 50 ◌==◌
unfoldable pub ◌==◌ : Bytes → Bytes → Bool
[] == [] = true
[] == (y ∷ ys) = false
(x ∷ xs) == [] = false
(x ∷ xs) == (y ∷ ys) = eqb x y && xs == ys

pub eq_iff : (s t : Bytes) → ((s == t) ≡ true) ↔ (s ≡ t)
unfolding ◌==◌
eq_iff [] [] = (λ _. refl, λ _. refl)
eq_iff [] (y ∷ ys) = (λ h. cc, λ h. cc)
eq_iff (x ∷ xs) [] = (λ h. cc, λ h. cc)
eq_iff (x ∷ xs) (y ∷ ys) = ground (arith, eq_iff xs ys)

pub eq_refl : (s : Bytes) → (s == s) ≡ true
eq_refl s = (eq_iff s s).1 refl

-- `s != ""`.
abbrev pub is_empty : Bytes → Bool
is_empty [] = true
is_empty (_ ∷ _) = false

pub is_empty_iff : (s : Bytes) → (is_empty s ≡ true) ↔ (s ≡ [])
is_empty_iff [] = (λ _. refl, λ _. refl)
is_empty_iff (c ∷ s) = (λ h. cc, λ h. cc)

-- `_, ok := set[k]`, for a set of texts.
unfoldable pub contains : List Bytes → Bytes → Bool
contains [] k = false
contains (x ∷ xs) k = x == k || contains xs k

-- `set := map[string]struct{}{}; for _, k := range ks { if k != "" { set[k] = struct{}{} } }`
unfoldable pub add_keys : List Bytes → List Bytes → List Bytes
add_keys set [] = set
add_keys set (k ∷ ks) = add_keys (if is_empty k || contains set k then set else set ++ k ∷ []) ks

-- `strings.HasPrefix(s, prefix)`
unfoldable pub has_prefix : Bytes → Bytes → Bool
has_prefix s [] = true
has_prefix [] (p ∷ ps) = false
has_prefix (x ∷ xs) (p ∷ ps) = eqb x p && has_prefix xs ps

pub has_prefix-append : (p rest : Bytes) → has_prefix (p ++ rest) p ≡ true
unfolding has_prefix
has_prefix-append [] rest = refl
has_prefix-append (x ∷ p) rest = ground (arith, has_prefix-append p rest)

-- The rest of a text behind its prefix.
pub has_prefix-split : (s p : Bytes) → has_prefix s p ≡ true → (rest : Bytes) × (s ≡ p ++ rest)
unfolding has_prefix
has_prefix-split s [] h = (s, refl)
has_prefix-split [] (p ∷ ps) h = cc
has_prefix-split (x ∷ xs) (p ∷ ps) h =
    let (rest, e) = has_prefix-split xs ps (ground arith) in (rest, ground arith)

-- `strings.Index` and `strings.LastIndex` of a text of one byte; `none` is -1.
unfoldable pub index : Bytes → ℕ → Option ℕ
index [] c = none
index (x ∷ xs) c = if eqb x c then some 0 else Option.map suc (index xs c)

unfoldable pub last_index : Bytes → ℕ → Option ℕ
last_index [] c = none
last_index (x ∷ xs) c = elim (last_index xs c) [
  | some i ↦ some (suc i)
  | none ↦ if eqb x c then some 0 else none
]

abbrev pub Lacks : ℕ → Bytes → Type 0
Lacks b = All (λ c. c ≢ b)

pub index_of_Lacks : (s : Bytes) (c : ℕ) → Lacks c s → index s c ≡ none
unfolding index
index_of_Lacks [] c h = refl
index_of_Lacks (x ∷ xs) c (n, h) = ground (arith, index_of_Lacks xs c h)

pub index-append : (s t : Bytes) (c : ℕ) → Lacks c s → index (s ++ c ∷ t) c ≡ some (length s)
unfolding index
index-append [] t c h = ground arith
index-append (x ∷ xs) t c (n, h) = ground (arith, index-append xs t c h)

pub last_index_of_Lacks : (s : Bytes) (c : ℕ) → Lacks c s → last_index s c ≡ none
unfolding last_index
last_index_of_Lacks [] c h = refl
last_index_of_Lacks (x ∷ xs) c (n, h) = ground (arith, last_index_of_Lacks xs c h)

pub last_index-append :
    (s t : Bytes) (c : ℕ) → Lacks c t → last_index (s ++ c ∷ t) c ≡ some (length s)
unfolding last_index
last_index-append [] t c h = ground (arith, last_index_of_Lacks t c h)
last_index-append (x ∷ xs) t c h = ground (arith, last_index-append xs t c h)

contains-append_last :
    (set : List Bytes) (k j : Bytes) → contains (set ++ k ∷ []) j ≡ (contains set j || k == j)
unfolding contains
contains-append_last [] k j = ground arith
contains-append_last (x ∷ set) k j = ground (arith, contains-append_last set k j)

add_keys-contains_old :
    (set ks : List Bytes) (j : Bytes) → contains set j ≡ true → contains (add_keys set ks) j ≡ true
unfolding add_keys
add_keys-contains_old set [] j h = h
add_keys-contains_old set (k ∷ ks) j h =
    add_keys-contains_old (if is_empty k || contains set k then set else set ++ k ∷ []) ks j
      (ground (arith, contains-append_last set k j))

-- A key that is added and not empty is in the set.
pub add_keys-contains :
    (set ks : List Bytes) (j : Bytes)
    → j ≢ []
    → Exists (λ k. k ≡ j) ks
    → contains (add_keys set ks) j ≡ true
unfolding add_keys
add_keys-contains set [] j n h = absurd h
add_keys-contains set (k ∷ ks) j n (inl e) =
    add_keys-contains_old (if is_empty k || contains set k then set else set ++ k ∷ []) ks j
      (ground (arith, contains-append_last set k j, is_empty_iff k, eq_iff k j))
add_keys-contains set (k ∷ ks) j n (inr h) =
    add_keys-contains (if is_empty k || contains set k then set else set ++ k ∷ []) ks j n h
