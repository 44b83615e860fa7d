-- ===== src/Base/Results.antt =====
-- The result of a Go call: a value, an error, a panic, or none because the fuel of a recursion ran
-- out. An error of an outside library is wrapped by `fmt.Errorf` with a text before it.
use mathlib.Core.Path.{◌≡◌, refl}
use mathlib.Core.Logic.{◌≢◌}
use fortsa.Base.Text.{Bytes}

pub data Error (E : Type 0) : Type 0 where
  outside : E → Error E
  message : Bytes → Error E
  wrap : Bytes → Error E → Error E

pub data Result (E A : Type 0) : Type 0 where
  ok : A → Result E A
  err : Error E → Result E A
  panic : Result E A
  out_of_fuel : Result E A

-- `x, err := action; if err != nil { return err }; next`
infixl 5 ◌>>=◌
abbrev pub ◌>>=◌ : {E A B : Type 0} → Result E A → (A → Result E B) → Result E B
panic >>= next = panic
out_of_fuel >>= next = out_of_fuel
err e >>= next = err e
ok value >>= next = next value

-- `if err != nil { return fmt.Errorf("…: %w", err) }`
abbrev pub wrapping : {E A : Type 0} → Bytes → Result E A → Result E A
wrapping text (ok a) = ok a
wrapping text (err e) = err (wrap text e)
wrapping text panic = panic
wrapping text out_of_fuel = out_of_fuel

-- A chain succeeds only where both of its parts do.
pub >>=-eq-ok :
    {E A B : Type 0} (action : Result E A) (next : A → Result E B) {b : B}
    → (action >>= next) ≡ ok b
    → (value : A) × (action ≡ ok value) × (next value ≡ ok b)
>>=-eq-ok panic next h = cc
>>=-eq-ok out_of_fuel next h = cc
>>=-eq-ok (err e) next h = cc
>>=-eq-ok (ok value) next h = (value, refl, h)

pub ok_injective : {E A : Type 0} {a b : A} → ◌≡◌ {A = Result E A} (ok a) (ok b) → a ≡ b
ok_injective h = cc

pub wrapping-eq-ok :
    {E A : Type 0} (t : Bytes) (m : Result E A) {a : A} → wrapping t m ≡ ok a → m ≡ ok a
wrapping-eq-ok t (ok a) h = h
wrapping-eq-ok t (err e) h = cc
wrapping-eq-ok t panic h = cc
wrapping-eq-ok t out_of_fuel h = cc

-- A chain panics only where one of its parts does.
pub >>=-eq-panic :
    {E A B : Type 0} (action : Result E A) (next : A → Result E B)
    → (action >>= next) ≡ panic
    → action ≢ panic
    → (value : A) × (action ≡ ok value) × (next value ≡ panic)
>>=-eq-panic panic next h calm = absurd (calm refl)
>>=-eq-panic out_of_fuel next h calm = cc
>>=-eq-panic (err e) next h calm = cc
>>=-eq-panic (ok value) next h calm = (value, refl, h)

pub wrapping-ne-panic :
    {E A : Type 0} (t : Bytes) (m : Result E A) → m ≢ panic → wrapping t m ≢ panic
wrapping-ne-panic t (ok a) calm h = cc
wrapping-ne-panic t (err e) calm h = cc
wrapping-ne-panic t panic calm h = calm refl
wrapping-ne-panic t out_of_fuel calm h = cc
