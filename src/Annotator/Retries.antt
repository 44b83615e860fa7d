-- ===== src/Annotator/Retries.antt =====
-- The outcomes of a patch that is tried again on a conflict.
use fortsa.Base.{
  ◌∙◌, Bool-cases, ℕ, zero, suc, ◌+◌, true, false, Option, none, some, ◌≡◌, refl, arith,
}
use fortsa.Platform.{Platform}
use fortsa.Annotator.{
  after_wait, after_patch, inr, inl, patch_conflict_backoff, patch_rounds, patch_with_retry,
}

module _ (P : Platform) (patch : P.World → P.World × Option P.Err) where
  -- From the first world, the second is reached by so many patches that met a conflict, with a
  -- wait that ran to its end after each.
  pub data Conflicts : ℕ → P.World → P.World → Type 0 where
    no_conflict : {w : P.World} → Conflicts 0 w w
    conflict_then :
        {k : ℕ} {w tried waited v : P.World} (e : P.Err)
        → patch w ≡ (tried, some e)
        → P.is_conflict e ≡ true
        → P.wait tried patch_conflict_backoff ≡ (waited, none)
        → Conflicts k waited v
        → Conflicts (suc k) w v

  -- How the last patch ended, where so many rounds are left after it.
  pub data Ends (rounds_left : ℕ) (v : P.World) : P.World × Option P.Err → Type 0 where
    patched : {done : P.World} → patch v ≡ (done, none) → Ends rounds_left v (done, none)
    refused :
        {done : P.World} {e : P.Err}
        → patch v ≡ (done, some e)
        → P.is_conflict e ≡ false
        → Ends rounds_left v (done, some e)
    gave_up :
        {done : P.World} {e : P.Err}
        → patch v ≡ (done, some e)
        → P.is_conflict e ≡ true
        → rounds_left ≡ 0
        → Ends rounds_left v (done, some e)
    cancelled :
        {tried done : P.World} {e c : P.Err}
        → patch v ≡ (tried, some e)
        → P.is_conflict e ≡ true
        → P.wait tried patch_conflict_backoff ≡ (done, some c)
        → Ends rounds_left v (done, some c)

  -- What a run of the loop with so many rounds does.
  abbrev pub Outcome : ℕ → P.World → P.World × Option P.Err → Type 0
  Outcome rounds w result =
      (k : ℕ) × (left : ℕ) × (v : P.World) × (suc (k + left) ≡ rounds)
      × Conflicts k w v
      × Ends left v result

  one_more :
      {n : ℕ} {w tried waited : P.World} {result : P.World × Option P.Err} (e : P.Err)
      → patch w ≡ (tried, some e)
      → P.is_conflict e ≡ true
      → P.wait tried patch_conflict_backoff ≡ (waited, none)
      → Outcome n waited result
      → Outcome (suc n) w result
  one_more e p c t (k, left, v, count, conflicts, ends) =
      (suc k, left, v, omega arith, conflict_then e p c t conflicts, ends)

  -- The wait after a conflict, where a round is left.
  after_wait-Outcome :
      (n : ℕ) (w tried : P.World) (e : P.Err) (next : P.World → P.World × Option P.Err)
      → patch w ≡ (tried, some e)
      → P.is_conflict e ≡ true
      → ((waited : P.World) → Outcome (suc n) waited (next waited))
      → (reply : P.World × Option P.Err) → P.wait tried patch_conflict_backoff ≡ reply
      → Outcome (suc (suc n)) w (after_wait P next reply)
  unfolding after_wait
  after_wait-Outcome n w tried e next p c rest (waited, none) t = one_more e p c t (rest waited)
  after_wait-Outcome n w tried e next p c rest (waited, some x) t =
      (0, suc n, w, omega arith, no_conflict, cancelled p c t)

  -- What is asked of the rounds that follow one that met a conflict.
  abbrev IsNext : ℕ → (Option P.Err → P.World → P.World × Option P.Err) → Type 0
  IsNext zero next = (e : P.Err) (v : P.World) → next (some e) v ≡ (v, some e)
  IsNext (suc n) next = (e : P.Err) (v : P.World) → Outcome (suc n) v (next (some e) v)

  after_patch-Outcome :
      (n : ℕ) (next : Option P.Err → P.World → P.World × Option P.Err)
      → IsNext n next
      → (w : P.World) → (reply : P.World × Option P.Err) → patch w ≡ reply
      → Outcome (suc n) w (after_patch P n next reply)
  unfolding after_patch
  after_patch-Outcome n next is w (tried, none) p = (0, n, w, omega arith, no_conflict, patched p)
  after_patch-Outcome zero next is w (tried, some e) p = elim (Bool-cases (P.is_conflict e)) [
    | inl c ↦ rw (after_patch, c, is e tried) (0, 0, w, omega arith, no_conflict, gave_up p c refl)
    | inr c ↦ rw (after_patch, c) (0, 0, w, omega arith, no_conflict, refused p c)
  ]
  after_patch-Outcome (suc n) next is w (tried, some e) p = elim (Bool-cases (P.is_conflict e)) [
    | inl c ↦
        rw (after_patch, c)
          (after_wait-Outcome n w tried e (next (some e)) p c (is e)
            (P.wait tried patch_conflict_backoff) refl)
    | inr c ↦ rw (after_patch, c) (0, suc n, w, omega arith, no_conflict, refused p c)
  ]

  patch_rounds-Outcome :
      (n : ℕ) (last : Option P.Err) (w : P.World)
      → Outcome (suc n) w (patch_rounds P patch (suc n) last w)
  unfolding patch_rounds
  patch_rounds-Outcome zero last w =
      after_patch-Outcome 0 (patch_rounds P patch 0) (λ e v. refl) w (patch w) refl
  patch_rounds-Outcome (suc n) last w =
      after_patch-Outcome (suc n) (patch_rounds P patch (suc n))
        (λ e v. patch_rounds-Outcome n (some e) v) w (patch w) refl

  -- The patch is tried one to three times: up to two tries meet a conflict, with a wait that ran
  -- to its end after each; then the last try succeeds, or meets an error that is no conflict, or
  -- is the third and meets a conflict, or meets a conflict and the wait after it is cancelled. The
  -- call returns the world and the error, if any, of that last try or that wait.
  pub patch_with_retry-Outcome : (w : P.World) → Outcome 3 w (patch_with_retry P patch w)
  unfolding patch_with_retry
  patch_with_retry-Outcome w = patch_rounds-Outcome 2 none w

  -- A success is that of a try.
  pub patch_with_retry-success :
      (w v : P.World)
      → patch_with_retry P patch w ≡ (v, none)
      → (u : P.World) × (patch u ≡ (v, none))
  patch_with_retry-success w v h =
      let (k, left, u, count, conflicts, ends) = patch_with_retry-Outcome w in
      (u, go left u (patch_with_retry P patch w) ends h)
    where
      go :
          (left : ℕ) (u : P.World) (result : P.World × Option P.Err)
          → Ends left u result
          → result ≡ (v, none)
          → patch u ≡ (v, none)
      go left u result (patched p) e = p ∙ e
      go left u result (refused p c) e = cc
      go left u result (gave_up p c z) e = cc
      go left u result (cancelled p c t) e = cc
