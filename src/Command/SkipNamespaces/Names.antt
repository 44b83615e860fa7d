-- ===== src/Command/SkipNamespaces/Names.antt =====
-- Which names are read off the flag's text.
use mathlib.Core.List.{reverse, reverse-cons, reverse-append, reverse-reverse}
use fortsa.Base.{
  ℕ, ◌<◌, Bytes, true, false, List, [], ◌∷◌, ◌++◌, map, append_assoc, append-nil, ◌≡◌, ◌≢◌, refl,
  is_empty, is_empty_iff, Lacks, All, All-append, All-imp, arith, sym, ◌∙◌, ap,
}
use fortsa.Base.Trim.{is_space_byte, space_width, space_width_back, drop_spaces, split, trim_space}
use fortsa.Command.SkipNamespaces.{collect_names, parse_skip_namespaces}

-- A byte that a name may have: visible, of ASCII, and no comma.
abbrev pub IsNameByte : ℕ → Type 0
IsNameByte c = (32 < c) × (c < 128) × (c ≢ b',')

abbrev pub IsName : Bytes → Type 0
IsName s = (s ≢ []) × All IsNameByte s

abbrev pub IsBlank : Bytes → Type 0
IsBlank = All (λ c. is_space_byte c ≡ true)

-- A name with blanks around it.
pub record Padded : Type 0 where
  pub before : Bytes
  pub name : Bytes
  pub after : Bytes

pub record IsPadded (p : Padded) : Type 0 where
  pub before_blank : IsBlank p.before
  pub name_plain : IsName p.name
  pub after_blank : IsBlank p.after

abbrev pub spell : Padded → Bytes
spell p = p.before ++ (p.name ++ p.after)

-- The texts with commas between them.
abbrev pub joined : List Bytes → Bytes
joined [] = []
joined (p ∷ []) = p
joined (p ∷ q ∷ ps) = p ++ b',' ∷ joined (q ∷ ps)

-- A function of a text's front that sees a space of one byte, and no space at a visible byte.
pub record SeesBlanks (width : Bytes → ℕ) : Type 0 where
  pub at_blank : (c : ℕ) (s : Bytes) → is_space_byte c ≡ true → width (c ∷ s) ≡ 1
  pub at_name : (c : ℕ) (s : Bytes) → IsNameByte c → width (c ∷ s) ≡ 0

space_width-at_blank : (c : ℕ) (s : Bytes) → is_space_byte c ≡ true → space_width (c ∷ s) ≡ 1
unfolding space_width
space_width-at_blank c [] h = rw h refl
space_width-at_blank c (a ∷ []) h = rw h refl
space_width-at_blank c (a ∷ b ∷ s) h = rw h refl

space_width-at_name : (c : ℕ) (s : Bytes) → IsNameByte c → space_width (c ∷ s) ≡ 0
unfolding space_width
space_width-at_name c [] h = ground arith
space_width-at_name c (a ∷ []) h = ground arith
space_width-at_name c (a ∷ b ∷ s) h = ground arith

space_width_back-at_blank :
    (c : ℕ) (s : Bytes) → is_space_byte c ≡ true → space_width_back (c ∷ s) ≡ 1
unfolding space_width_back
space_width_back-at_blank c [] h = rw h refl
space_width_back-at_blank c (a ∷ []) h = rw h refl
space_width_back-at_blank c (a ∷ b ∷ s) h = rw h refl

space_width_back-at_name : (c : ℕ) (s : Bytes) → IsNameByte c → space_width_back (c ∷ s) ≡ 0
unfolding space_width_back
space_width_back-at_name c [] h = ground arith
space_width_back-at_name c (a ∷ []) h = ground arith
space_width_back-at_name c (a ∷ b ∷ s) h = ground arith

module _ (width : Bytes → ℕ) (sees : SeesBlanks width) where
  drop_spaces-blank :
      (pad s : Bytes) → IsBlank pad → drop_spaces width 0 (pad ++ s) ≡ drop_spaces width 0 s
  unfolding drop_spaces
  drop_spaces-blank [] s h = refl
  drop_spaces-blank (c ∷ pad) s (b, h) =
      rw (drop_spaces, sees.at_blank c (pad ++ s) b) (drop_spaces-blank pad s h)

  drop_spaces-name : (c : ℕ) (s : Bytes) → IsNameByte c → drop_spaces width 0 (c ∷ s) ≡ c ∷ s
  unfolding drop_spaces
  drop_spaces-name c s h = rw (drop_spaces, sees.at_name c s h) refl

  -- Blanks in front of a name are dropped, and no more.
  drop_spaces-padded :
      (pad name rest : Bytes)
      → IsBlank pad
      → IsName name
      → drop_spaces width 0 (pad ++ (name ++ rest)) ≡ name ++ rest
  drop_spaces-padded pad [] rest blank (nonempty, _) = absurd (nonempty refl)
  drop_spaces-padded pad (c ∷ name) rest blank (_, (visible, _)) =
      drop_spaces-blank pad (c ∷ (name ++ rest)) blank ∙ drop_spaces-name c (name ++ rest) visible

All-reverse : (P : ℕ → Type 0) (s : Bytes) → All P s → All P (reverse s)
All-reverse P [] h = tt
All-reverse P (c ∷ s) (p, h) =
    rw reverse-cons (All-append P (reverse s) (c ∷ []) (All-reverse P s h) (p, tt))

reverse-IsName : (s : Bytes) → IsName s → IsName (reverse s)
reverse-IsName s (nonempty, h) =
    ((λ e. nonempty (sym (reverse-reverse s) ∙ ap reverse e)), All-reverse IsNameByte s h)

space_width-SeesBlanks : SeesBlanks space_width
space_width-SeesBlanks = record { at_blank = space_width-at_blank; at_name = space_width-at_name }

space_width_back-SeesBlanks : SeesBlanks space_width_back
space_width_back-SeesBlanks = record {
  at_blank = space_width_back-at_blank;
  at_name = space_width_back-at_name;
}

-- Trimming leaves the name alone and drops the blanks around it.
trim_space-spell : (p : Padded) → IsPadded p → trim_space (spell p) ≡ p.name
unfolding trim_space
trim_space-spell p is =
    let front =
      drop_spaces-padded space_width space_width-SeesBlanks p.before p.name p.after is.before_blank
        is.name_plain in
    let back =
      drop_spaces-padded space_width_back space_width_back-SeesBlanks (reverse p.after)
        (reverse p.name) [] (All-reverse (λ c. is_space_byte c ≡ true) p.after is.after_blank)
        (reverse-IsName p.name is.name_plain) in
    let turned : reverse (p.name ++ p.after) ≡ reverse p.after ++ (reverse p.name ++ []) =
      reverse-append p.name p.after ∙ rw append-nil refl in
    rw (front, turned, back, append-nil, reverse-reverse) refl

blank-Lacks : (s : Bytes) → IsBlank s → Lacks b',' s
blank-Lacks [] h = tt
blank-Lacks (c ∷ s) (b, h) = (ground arith, blank-Lacks s h)

spell-Lacks : (p : Padded) → IsPadded p → Lacks b',' (spell p)
spell-Lacks p is =
    All-append (λ c. c ≢ b',') p.before (p.name ++ p.after) (blank-Lacks p.before is.before_blank)
      (All-append (λ c. c ≢ b',') p.name p.after
        (All-imp (λ c visible. visible.2) p.name is.name_plain.1)
        (blank-Lacks p.after is.after_blank))

split_of_Lacks : (s : Bytes) (sep : ℕ) → Lacks sep s → split s sep ≡ s ∷ []
unfolding split
split_of_Lacks [] sep h = refl
split_of_Lacks (c ∷ s) sep (n, h) = ground (arith, split_of_Lacks s sep h)

split-append :
    (s rest : Bytes) (sep : ℕ) → Lacks sep s → split (s ++ sep ∷ rest) sep ≡ s ∷ split rest sep
unfolding split
split-append [] rest sep h = ground arith
split-append (c ∷ s) rest sep (n, h) = ground (arith, split-append s rest sep h)

-- Splitting at the commas gives back what was joined with them.
split-joined :
    (p : Bytes) (ps : List Bytes)
    → All (Lacks b',') (p ∷ ps)
    → split (joined (p ∷ ps)) b',' ≡ p ∷ ps
split-joined p [] (h, _) = split_of_Lacks p b',' h
split-joined p (q ∷ ps) (h, hs) =
    split-append p (joined (q ∷ ps)) b',' h ∙ ap (λ parts. p ∷ parts) (split-joined q ps hs)

collect_names-spell :
    (ps : List Padded) (out : List Bytes)
    → All IsPadded ps
    → collect_names (map spell ps) out ≡ out ++ map (λ p. p.name) ps
unfolding collect_names
collect_names-spell [] out h = sym (append-nil out)
collect_names-spell (p ∷ ps) out (is, h) =
    let full : is_empty p.name ≡ false = ground (arith, is_empty_iff p.name, is.name_plain.0) in
    rw (collect_names, trim_space-spell p is, full)
      (collect_names-spell ps (out ++ p.name ∷ []) h
        ∙ append_assoc out (p.name ∷ []) (map (λ q. q.name) ps))

append_nil_left : (s t : Bytes) → s ++ t ≡ [] → s ≡ []
append_nil_left [] t e = refl
append_nil_left (c ∷ s) t e = cc

append_nil_right : (s t : Bytes) → s ++ t ≡ [] → t ≡ []
append_nil_right [] t e = e
append_nil_right (c ∷ s) t e = cc

spell-nil : (p : Padded) → spell p ≡ [] → p.name ≡ []
spell-nil p e = append_nil_left p.name p.after (append_nil_right p.before (p.name ++ p.after) e)

joined-nonempty : (p : Padded) (ps : List Padded) → IsPadded p → joined (map spell (p ∷ ps)) ≢ []
joined-nonempty p [] is e = is.name_plain.0 (spell-nil p e)
joined-nonempty p (q ∷ ps) is e =
    is.name_plain.0 (spell-nil p (append_nil_left (spell p) (b',' ∷ joined (map spell (q ∷ ps))) e))

All-map-spell : (ps : List Padded) → All IsPadded ps → All (Lacks b',') (map spell ps)
All-map-spell [] h = tt
All-map-spell (p ∷ ps) (is, h) = (spell-Lacks p is, All-map-spell ps h)

-- The flag's text may have blanks around each name: where the names are of visible ASCII
-- characters, without commas and not empty, the names that are read off a text that joins them with
-- commas are these, in their order; the empty text has none.
pub parse_skip_namespaces-joined :
    (ps : List Padded)
    → All IsPadded ps
    → parse_skip_namespaces (joined (map spell ps)) ≡ map (λ p. p.name) ps
unfolding parse_skip_namespaces
parse_skip_namespaces-joined [] h = refl
parse_skip_namespaces-joined (p ∷ ps) (is, h) =
    let text = joined (map spell (p ∷ ps)) in
    let full : is_empty text ≡ false = ground (arith, is_empty_iff text, joined-nonempty p ps is) in
    let parts = split-joined (spell p) (map spell ps) (spell-Lacks p is, All-map-spell ps h) in
    rw (full, parts) (collect_names-spell (p ∷ ps) [] (is, h))
