-- ===== src/Command/Startup/Started.antt =====
-- When the program ends with status 0.
use fortsa.Command.Startup.Served.{Served, serve-Ends, Served-pass}
use fortsa.Base.{
  ◌∙◌, arith, subst, ◌≤◌, ℕ, codes, true, false, Option, none, some, ◌≡◌, ◌↔◌, refl, ap, ◌⊎◌, inl,
  inr, Bool-cases,
}
use fortsa.Platform.{Platform}
use fortsa.Webhook.Call.{Backend}
use fortsa.Command.Host.{Host}
use fortsa.Command.Startup.Steps.{Ends, failed, passed}
use fortsa.Command.Startup.{
  BuildInfo, continue, attempted, ◌>>=◌, attempt, print_version, serve, after_flags, exit_status,
  main,
}

module _ (P : Platform) (B : Backend P) (H : Host P) where
  -- The flags are bound and parsed.
  abbrev pub Flagged : H.State → H.State → Type 0
  Flagged s u = (v : H.State) × (H.bind_flags s ≡ (v, none)) × (H.parse_flags v ≡ (u, inr tt))

  -- How the program ends well: the parsing of the flags ends it so, for it was asked for help; or
  -- the flags are there, and it prints its version or serves.
  pub data Launched (info : BuildInfo) (s : H.State) : H.State → Type 0 where
    helped :
        {v t : H.State}
        → H.bind_flags s ≡ (v, none)
        → H.parse_flags v ≡ (t, inl 0)
        → Launched info s t
    printed :
        {u : H.State}
        → Flagged s u
        → H.get_bool (codes "version") ≡ true
        → Launched info s (print_version P B H info u)
    stopped :
        {u t : H.State}
        → Flagged s u
        → H.get_bool (codes "version") ≡ false
        → Served P B H u t
        → Launched info s t

  Launched-main :
      {info : BuildInfo} {s t : H.State} → Launched info s t → main P B H info s ≡ (t, 0)
  unfolding main after_flags attempt ◌>>=◌
  Launched-main (helped e k) = rw (e, k)
  Launched-main (printed (v, e, k) asked) = rw (e, k, asked)
  Launched-main (stopped (v, e, k) other served) = rw (e, k, other) (rw (Served-pass P B H served))

  -- The states in which the program ends, with its status.
  pub data Finished (info : BuildInfo) (s : H.State) : H.State × ℕ → Type 0 where
    gave_up : (t : H.State) → Finished info s (t, 1)
    misused :
        {v t : H.State} {status : ℕ}
        → H.bind_flags s ≡ (v, none)
        → H.parse_flags v ≡ (t, inl status)
        → Finished info s (t, status)
    launched : {t : H.State} → Launched info s t → Finished info s (t, 0)

  serve-Finished :
      {info : BuildInfo} {s u : H.State}
      → Flagged s u
      → H.get_bool (codes "version") ≡ false
      → (reply : H.State × (ℕ ⊎ Unit {0})) → Ends (λ t (_ : Unit {0}). Served P B H u t) reply
      → Finished info s (exit_status P B H reply)
  serve-Finished e v _ (failed t) = gave_up t
  serve-Finished e v _ (passed served) = launched (stopped e v served)

  after_flags-Finished :
      (info : BuildInfo) (s u : H.State)
      → Flagged s u
      → Finished info s (exit_status P B H (after_flags P B H info u))
  unfolding after_flags
  after_flags-Finished info s u e = elim (Bool-cases (H.get_bool (codes "version"))) [
    | inl asked ↦ rw asked (launched (printed e asked))
    | inr other ↦ rw other (serve-Finished e other (serve P B H u) (serve-Ends P B H u))
  ]

  main-Finished : (info : BuildInfo) (s : H.State) → Finished info s (main P B H info s)
  unfolding main attempt ◌>>=◌
  main-Finished info s = go (H.bind_flags s) refl
    where
      parsed :
          (v : H.State) (reply : H.State × (ℕ ⊎ Unit {0}))
          → H.bind_flags s ≡ (v, none)
          → H.parse_flags v ≡ reply
          → Finished info s (exit_status P B H (continue reply (λ _. after_flags P B H info)))
      parsed v (u, inl status) e k = misused e k
      parsed v (u, inr tt) e k = after_flags-Finished info s u (v, e, k)

      go :
          (reply : H.State × Option H.Err)
          → H.bind_flags s ≡ reply
          → Finished info s (
              exit_status P B H
                (continue (attempted reply) (λ _. H.parse_flags >>= λ _. after_flags P B H info)))
      go (u, some x) e = gave_up u
      go (v, none) e = parsed v (H.parse_flags v) e refl

  zero-Launched :
      {info : BuildInfo} {s t : H.State} {r : H.State × ℕ}
      → Finished info s r
      → r ≡ (t, 0)
      → Launched info s t
  zero-Launched (gave_up t) e = cc
  zero-Launched {info} {s} {t} (misused {v} {t = u} {status} e k) same =
      let state : u ≡ t = cc in
      let zero_status : status ≡ 0 = cc in
      helped e (k ∙ ap (λ x. (x, inl status)) state ∙ ap (λ n. (t, inl n)) zero_status)
  zero-Launched {info} {s} (launched l) e = subst (Launched info s) (ap (λ r. r.0) e) l

  -- A status above 1 comes from the parsing of the flags.
  abbrev pub ParsingEnds : H.State → H.State × ℕ → Type 0
  ParsingEnds s r =
      (v : H.State) × (H.bind_flags s ≡ (v, none)) × (H.parse_flags v ≡ (r.0, inl r.1))

  Finished-status :
      {info : BuildInfo} {s : H.State} {r : H.State × ℕ}
      → Finished info s r
      → (r.1 ≤ 1) ⊎ ParsingEnds s r
  Finished-status (gave_up t) = inl (omega arith)
  Finished-status (misused {v} e k) = inr (v, e, k)
  Finished-status (launched l) = inl (omega arith)

  -- The status is 0 exactly where the flags are bound and parsing them ends the program with
  -- status 0, or they are parsed and the program either prints its version for `--version`, or
  -- goes through every step: the certificate watchers that the paths call for, the client
  -- configuration, the manager made of `manager_options`, the controller of
  -- `setup_istio_change_controller` with the reconciler of the flags, the metrics watcher, the
  -- webhook watcher, the two checks and the manager's run, in this order, each with no error. Any
  -- other status is 1, or the one with which the parsing of the flags ends the program.
  pub main-Launched :
      (info : BuildInfo) (s t : H.State)
      → ((main P B H info s ≡ (t, 0)) ↔ Launched info s t)
        × (((main P B H info s).1 ≤ 1) ⊎ ParsingEnds s (main P B H info s))
  main-Launched info s t = (
    (λ e. zero-Launched (main-Finished info s) e, Launched-main),
    Finished-status (main-Finished info s),
  )
