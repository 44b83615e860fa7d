-- ===== src/Command/Startup/Skipping.antt =====
-- What the flag of the skipped namespaces comes to.
use fortsa.Base.{
  ◌∙◌, ℕ, Bytes, codes, List, map, Elem, All, All-at, ◌≡◌, ◌≢◌, sym, ap, subst, inl, inr, ok, [],
  ◌∷◌,
}
use fortsa.Platform.{Platform}
use fortsa.Scan.Types.{WorkloadRef, IstioConfig}
use fortsa.Scan.Owner.Chain.{GetsInNamespace}
use fortsa.Scan.Outdated.{scan_outdated_pods}
use fortsa.Scan.Outdated.Results.{scan_skips}
use fortsa.Webhook.Call.{Backend, webhook_client}
use fortsa.Controller.{scan_options}
use fortsa.Controller.Setup.{new_istio_change_reconciler}
use fortsa.Command.SkipNamespaces.{parse_skip_namespaces}
use fortsa.Command.SkipNamespaces.Names.{
  Padded, IsPadded, spell, joined, parse_skip_namespaces-joined,
}
use fortsa.Command.Host.{Host}
use fortsa.Command.Startup.{the_reconciler}

Elem-map : {A C : Type 0} (f : A → C) (x : A) (xs : List A) → Elem x xs → Elem (f x) (map f xs)
Elem-map f x [] m = absurd m
Elem-map f x (y ∷ ys) (inl e) = inl (ap f e)
Elem-map f x (y ∷ ys) (inr m) = inr (Elem-map f x ys m)

module _ (P : Platform) (B : Backend P) (H : Host P) where
  -- Where the text of the flag joins names of visible ASCII characters with commas, blanks around
  -- them allowed, no scan of the reconciler that the program builds returns a workload of a
  -- namespace that the text names; objects are read from the namespaces that they are asked for in.
  pub the_reconciler_skips :
      (ps : List Padded) (p : Padded) (fuel : ℕ) (w : P.World) (cfg : IstioConfig)
      (limit : List Bytes) (refs : List WorkloadRef)
      → H.get_string (codes "skip-namespaces") ≡ joined (map spell ps)
      → All IsPadded ps
      → Elem p ps
      → GetsInNamespace P w
      → scan_outdated_pods P
          (the_reconciler P B H).webhook_caller
          fuel
          w
          cfg
          (scan_options P (the_reconciler P B H) limit)
        ≡ ok refs
      → All (λ ref. ref.namespace ≢ p.name) refs
  unfolding the_reconciler new_istio_change_reconciler
  the_reconciler_skips ps p fuel w cfg limit refs text padded m gets h =
      let names : parse_skip_namespaces (H.get_string (codes "skip-namespaces"))
          ≡ map (λ q. q.name) ps =
        ap parse_skip_namespaces text ∙ parse_skip_namespaces-joined ps padded in
      let is = All-at IsPadded ps p padded m in
      scan_skips P (webhook_client P B) fuel w cfg (scan_options P (the_reconciler P B H) limit)
        gets p.name (subst (Elem p.name) (sym names) (Elem-map (λ (q : Padded). q.name) p ps m))
        is.name_plain.0 refs h
