-- ===== src/Scan/Template/Names.antt =====
-- The name of the pod that is sent to the webhook.
use fortsa.Base.{
  ℕ, zero, suc, ◌+◌, ◌∷◌, ◌++◌, ◌⊎◌, ◌<◌, ◌↔◌, inl, inr, sym, ap, ◌∙◌, subst, leb, Bool-cases,
  take-append, ◌≤◌, Bytes, codes, [], ◌≡◌, ◌≢◌, take, length, length-append, length-take, arith,
}
use fortsa.Scan.Template.{pod_name_suffix, check_pod_name}

-- The name of the pod has at most 63 bytes, whatever the workload's name.
pub length-check_pod_name-le : (workload : Bytes) → length (check_pod_name workload) ≤ 63
unfolding check_pod_name
length-check_pod_name-le workload =
    ground (arith, length-take 50 workload, length-append (take 50 workload) pod_name_suffix)

check_pod_name_short :
    (workload : Bytes)
    → workload ≢ []
    → length workload ≤ 50
    → check_pod_name workload ≡ codes "fortsa-check-fortsa-check"
unfolding check_pod_name
check_pod_name_short workload h k = ground arith

check_pod_name_long :
    (workload : Bytes)
    → 50 < length workload
    → check_pod_name workload ≡ take 50 workload ++ pod_name_suffix
unfolding check_pod_name
check_pod_name_long workload h = ground arith

length-take_whole : (n : ℕ) (xs : Bytes) → n ≤ length xs → length (take n xs) ≡ n
length-take_whole zero xs h = omega arith
length-take_whole (suc n) [] h = absurd (omega arith)
length-take_whole (suc n) (x ∷ xs) h = omega (arith, length-take_whole n xs)

-- The name of a longer workload comes first in its check pod's name.
take-check_pod_name :
    (workload : Bytes) → 50 < length workload → take 50 (check_pod_name workload) ≡ take 50 workload
take-check_pod_name workload h =
    ap (take 50) (check_pod_name_long workload h)
    ∙ subst (λ n. take n (take 50 workload ++ pod_name_suffix) ≡ take 50 workload)
        (length-take_whole 50 workload (omega arith))
        (take-append (take 50 workload) pod_name_suffix)

length-check_pod_name_long :
    (workload : Bytes) → 50 < length workload → length (check_pod_name workload) ≡ 63
length-check_pod_name_long workload h =
    ap length (check_pod_name_long workload h)
    ∙ length-append (take 50 workload) pod_name_suffix
    ∙ ap (λ n. n + 13) (length-take_whole 50 workload (omega arith))

short_or_long : (n : ℕ) → (n ≤ 50) ⊎ (50 < n)
short_or_long n = elim (Bool-cases (leb n 50)) [
  | inl on ↦ inl (ground (arith, on))
  | inr off ↦ inr (ground (arith, off))
]

-- One name of at most 50 bytes and one of more give pods of two names.
check_pod_name_apart :
    (a b : Bytes) → a ≢ [] → length a ≤ 50 → 50 < length b → check_pod_name a ≢ check_pod_name b
check_pod_name_apart a b h short long e =
    let lengths : 25 ≡ 63 =
      sym (ap length (check_pod_name_short a h short))
      ∙ ap length e
      ∙ length-check_pod_name_long b long in
    omega (arith, lengths)

-- Two workloads, whose names are not empty, have check pods of one name exactly where the names both
-- have at most 50 bytes, whatever they are, or both more than 50, the first 50 of them the same.
pub check_pod_name_collision :
    (a b : Bytes)
    → a ≢ []
    → b ≢ []
    → (check_pod_name a ≡ check_pod_name b) ↔ (
        ((length a ≤ 50) × (length b ≤ 50))
        ⊎ ((50 < length a) × (50 < length b) × (take 50 a ≡ take 50 b)))
check_pod_name_collision a b h k = (
  λ e. elim (short_or_long (length a)) [
    | inl s ↦ elim (short_or_long (length b)) [
      | inl t ↦ inl (s, t)
      | inr t ↦ absurd (check_pod_name_apart a b h s t e)
    ]
    | inr s ↦ elim (short_or_long (length b)) [
      | inl t ↦ absurd (check_pod_name_apart b a k t s (sym e))
      | inr t ↦ inr (s, t, sym (take-check_pod_name a s) ∙ ap (take 50) e ∙ take-check_pod_name b t)
    ]
  ],
  λ either. elim either [
    | inl (s, t) ↦ check_pod_name_short a h s ∙ sym (check_pod_name_short b k t)
    | inr (s, t, e) ↦
        check_pod_name_long a s ∙ ap (λ l. l ++ pod_name_suffix) e ∙ sym (check_pod_name_long b t)
  ],
)
