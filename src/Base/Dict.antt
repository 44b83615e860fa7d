-- ===== src/Base/Dict.antt =====
-- Go maps with text keys, as association lists. A write replaces the entry of its key.
use mathlib.Core.Path.{◌≡◌, refl}
use mathlib.Core.Option.{Option, none, some}
use mathlib.Core.List.{List, [], ◌∷◌}
use native.Mathlib.Omega.{arith}
use fortsa.Base.Tests.{if◌then◌else◌}
use fortsa.Base.Text.{Bytes, ◌==◌, eq_iff}

abbrev pub Dict {ℓ} : Type ℓ → Type ℓ
Dict V = List (Bytes × V)

-- `v, ok := m[k]`
unfoldable pub lookup {ℓ} : {V : Type ℓ} → Bytes → Dict V → Option V
lookup key [] = none
lookup key ((there, value) ∷ entries) = if there == key then some value else lookup key entries

-- `m[k] = v`
unfoldable pub insert {ℓ} : {V : Type ℓ} → Bytes → V → Dict V → Dict V
insert key value [] = (key, value) ∷ []
insert key value ((there, old) ∷ entries) =
    if there == key then (key, value) ∷ entries else (there, old) ∷ insert key value entries

-- After a write, a read of its key gives what was written, and every other read what it gave.
pub lookup-insert {ℓ} :
    {V : Type ℓ} (key asked : Bytes) (value : V) (entries : Dict V)
    → lookup asked (insert key value entries)
      ≡ (if key == asked then some value else lookup asked entries)
unfolding insert lookup
lookup-insert key asked value [] = refl
lookup-insert key asked value ((there, old) ∷ entries) = ground (
  arith,
  lookup-insert key asked value entries,
  eq_iff there key,
  eq_iff there asked,
  eq_iff key asked,
)

-- `m[k]` of a map of texts: the zero value, "", where the key is absent.
abbrev pub get : Bytes → Dict Bytes → Bytes
get k m = elim (lookup k m) [ none ↦ [] | some v ↦ v ]
