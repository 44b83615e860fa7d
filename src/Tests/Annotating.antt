-- ===== src/Tests/Annotating.antt =====
-- A Deployment whose template keeps what a patch writes, and the annotator's theorems there.
use fortsa.Base.{
  is_empty, is_empty_iff, ap, arith, false, not, Bytes, codes, Bool, true, Option, none, some, [],
  ◌∷◌, ◌≡◌, inl, inr, refl, ◌==◌,
}
use fortsa.Base.Int.{pos, ◌-ℤ◌}
use fortsa.Base.Dict.{lookup}
use fortsa.Constants.{restarted_at_annotation}
use fortsa.Json.{Json, Fields, object, field, text}
use fortsa.Kube.{PodTemplate}
use fortsa.Platform.{Platform}
use fortsa.Scan.Types.{nonempty_entry, get_template}
use fortsa.Annotator.{
  after_wait, after_patch, patch_rounds, patch_with_retry, restarted_at, get_restarted_at,
  get_patch, write_restarted_at, sub_time, is_recent, annotate,
}
use fortsa.Annotator.Retries.{Outcome, patch_with_retry-Outcome}
use fortsa.Annotator.Cooldown.{IsCooling, Writes, annotate_again}
use fortsa.Tests.Sample.{web, web_template}

-- The annotation of the Deployment, where it has one, is the whole world.
abbrev stamped : Option Bytes → PodTemplate
stamped world = record web_template {
  annotations = elim world [ none ↦ [] | some value ↦ (restarted_at_annotation, value) ∷ [] ];
}

-- The text that is written by a patch of the form that the program sends.
abbrev first_field : Json → Json
first_field (object (field k v m)) = v
first_field j = j

abbrev text_of : Json → Bytes
text_of (text s) = s
text_of _ = []

abbrev written : Json → Bytes
written j = text_of (first_field (first_field (first_field (first_field (first_field j)))))

-- A patch writes the text "now", which is how every time is written.
abbrev pub stamping : Platform
stamping = record {
  World = Option Bytes;
  Err = Bool;
  is_not_found = λ e. e;
  is_conflict = λ e. not e;
  get_deployment = λ w nn. inr (stamped w);
  get_stateful_set = λ w nn. inl true;
  get_daemon_set = λ w nn. inl true;
  get_replica_set = λ w nn. inl true;
  get_controller_revision = λ w nn. inl true;
  get_namespace = λ w nn. inl true;
  get_webhook_configuration = λ w nn. inl true;
  list_pods = λ w ns. inr [];
  list_config_maps = λ w ns. inr [];
  list_webhook_configurations = λ w. inr [];
  patch_deployment = λ w nn patch. (some patch, none);
  patch_stateful_set = λ w nn patch. (w, some true);
  patch_daemon_set = λ w nn patch. (w, some true);
  range_order = λ w keys. keys;
  marshal = λ j. inr (written j);
  unmarshal = λ s. inr Fields.nil;
  format_rfc3339 = λ t. codes "now";
  parse_rfc3339 = λ s. some (pos 1000);
  now = λ w. pos 1000;
  wait = λ w d. (w, none);
}

unfoldable pub annotations : Unit {0}
unfolding annotate is_recent sub_time write_restarted_at get_patch get_restarted_at restarted_at
    patch_with_retry patch_rounds after_patch after_wait get_template nonempty_entry lookup ◌==◌
    ◌-ℤ◌
annotations = tt

first_patched : annotate stamping (pos 60) none web ≡ (some (codes "now"), inr true)
unfolding annotations
first_patched = refl

web-IsCooling : IsCooling stamping (pos 60) (some (codes "now")) web
unfolding annotations
web-IsCooling = (pos 1000, refl, cc, omega arith)

web-Writes : Writes stamping web
unfolding annotations
web-Writes value bytes w v patch n m g p =
    let same : value ≡ bytes = cc in
    let is : (λ u. (some bytes, none)) ≡ patch = cc in
    let left : some bytes ≡ v = ap (λ q. q.0) (rw (← is) at p) in
    let full : is_empty bytes ≡ false = ground (arith, is_empty_iff bytes) in
    (stamped v, refl, rw (← left, same, full) refl)

annotate_again_example :
    annotate stamping (pos 60) (some (codes "now")) web ≡ (some (codes "now"), inr false)
annotate_again_example =
    annotate_again stamping (pos 60) none (some (codes "now")) web (pos 1000) (omega arith)
      (omega arith) web-Writes (cc) refl (cc) first_patched (unfold ◌-ℤ◌ in omega arith)

patch_with_retry-Outcome_example :
    Outcome stamping
      (λ w. (w, some false))
      3
      none
      (patch_with_retry stamping (λ w. (w, some false)) none)
patch_with_retry-Outcome_example = patch_with_retry-Outcome stamping (λ w. (w, some false)) none
