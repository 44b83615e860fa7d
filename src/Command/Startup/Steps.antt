-- ===== src/Command/Startup/Steps.antt =====
-- What a chain of steps that end the program on an error does, for `main` of cmd/main.go.
use fortsa.Base.{ℕ, Option, none, some, ◌≡◌, refl, ◌⊎◌, inl, inr}
use fortsa.Command.Startup.{Program, continue, obtained, attempted, ◌>>=◌, obtain, attempt}

module _ {S : Type 0} where
  -- A step that ends the program does so with status 1; one that goes through meets `R`.
  pub data Ends {A : Type 0} (R : S → A → Type 0) : S × (ℕ ⊎ A) → Type 0 where
    failed : (t : S) → Ends R (t, inl 1)
    passed : {t : S} {a : A} → R t a → Ends R (t, inr a)

  pub >>=-Ends :
      {A C : Type 0} {Q : S → A → Type 0} {R : S → C → Type 0} (step : Program S A)
      (next : A → Program S C) (s : S)
      → Ends Q (step s)
      → ((t : S) (a : A) → Q t a → Ends R (next a t))
      → Ends R ((step >>= next) s)
  unfolding ◌>>=◌
  >>=-Ends {A} {C} {Q} {R} step next s first rest = go (step s) first
    where
      go : (reply : S × (ℕ ⊎ A)) → Ends Q reply → Ends R (continue reply next)
      go _ (failed t) = failed t
      go _ (passed {t} {a} q) = rest t a q

  pub attempt-Ends :
      {E : Type 0} (call : S → S × Option E) (s : S)
      → Ends (λ t (_ : Unit {0}). call s ≡ (t, none)) (attempt call s)
  unfolding attempt
  attempt-Ends {E} call s = go (call s) refl
    where
      go :
          (reply : S × Option E)
          → call s ≡ reply
          → Ends (λ t (_ : Unit {0}). call s ≡ (t, none)) (attempted reply)
      go (t, none) e = passed e
      go (t, some x) e = failed t

  pub passed_by :
      {A : Type 0} {Q R : S → A → Type 0} {reply : S × (ℕ ⊎ A)}
      → Ends Q reply
      → ((t : S) (a : A) → Q t a → R t a)
      → Ends R reply
  passed_by (failed t) weaken = failed t
  passed_by (passed {t} {a} q) weaken = passed (weaken t a q)

  pub obtain-Ends :
      {E A : Type 0} (call : S → S × (E ⊎ A)) (s : S)
      → Ends (λ t a. call s ≡ (t, inr a)) (obtain call s)
  unfolding obtain
  obtain-Ends {E} {A} call s = go (call s) refl
    where
      go :
          (reply : S × (E ⊎ A))
          → call s ≡ reply
          → Ends (λ t a. call s ≡ (t, inr a)) (obtained reply)
      go (t, inl x) e = failed t
      go (t, inr a) e = passed e

  pub pass_step :
      {A C : Type 0} (step : Program S A) (next : A → Program S C) (s : S) {t : S} {a : A}
      {r : S × (ℕ ⊎ C)}
      → step s ≡ (t, inr a)
      → next a t ≡ r
      → (step >>= next) s ≡ r
  unfolding ◌>>=◌
  pass_step step next s e f = rw e f

  pub attempt-pass :
      {E : Type 0} (call : S → S × Option E) (s : S) {t : S}
      → call s ≡ (t, none)
      → attempt call s ≡ (t, inr tt)
  unfolding attempt
  attempt-pass call s e = rw e

  pub obtain-pass :
      {E A : Type 0} (call : S → S × (E ⊎ A)) (s : S) {t : S} {a : A}
      → call s ≡ (t, inr a)
      → obtain call s ≡ (t, inr a)
  unfolding obtain
  obtain-pass call s e = rw e
