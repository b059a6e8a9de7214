-- ===== src/EvaluatorRef/RoundTrip.antt =====
-- What `parse_fully_qualified_evaluator` of vigilo/src/contracts/evaluator_ref.rs accepts has a canonical form.
use agent_vigilo.Prelude.{
  ℕ, ◌≡◌, refl, sym, ap, ◌∙◌, inl, inr, Bool, true, false, not, ◌&&◌, ◌||◌, none, some, [], ◌∷◌,
  ◌++◌, arith, ◌==◌, ==_refl, Bool-cases, Option-cases, is_empty, any, ok, ok_or, >>=-eq-ok,
  ensure-eq-ok, ok_or-eq-ok,
}
use mathlib.Core.Path.{subst}
use agent_vigilo.Prelude.Text.{trim, trim_start, trim_end, Text, is_whitespace}
use agent_vigilo.EvaluatorRef.{
  ambiguous, EvaluatorIdentity, rsplit_once, parse_fully_qualified_evaluator,
}

-- `<namespace>/<name>:<version>`.
unfoldable pub canonical_ref : EvaluatorIdentity → Text
canonical_ref i = (i.namespace ++ b'/' ∷ i.name) ++ b':' ∷ i.version

abbrev has : ℕ → Text → Bool
has c s = any (λ x. x == c) s

rsplit_once-none : (c : ℕ) (s : Text) → has c s ≡ false → rsplit_once c s ≡ none
unfolding rsplit_once
rsplit_once-none c [] h = refl
rsplit_once-none c (x ∷ s) h =
    let rest = rsplit_once-none c s (ground arith) in
    let other : (x == c) ≡ false = ground arith in rw (rest, other) refl

rsplit_once-append :
    (c : ℕ) (left right : Text)
    → has c right ≡ false
    → rsplit_once c (left ++ c ∷ right) ≡ some (left, right)
unfolding rsplit_once
rsplit_once-append c [] right h = rw (rsplit_once-none c right h, ==_refl c) refl
rsplit_once-append c (x ∷ left) right h = rw (rsplit_once-append c left right h) refl

none_free : (c : ℕ) (s : Text) → rsplit_once c s ≡ none → has c s ≡ false
unfolding rsplit_once
none_free c [] h = refl
none_free c (x ∷ s) h = elim (Option-cases (rsplit_once c s)) [
  | inl gone ↦ ground (arith, none_free c s gone)
  | inr ((left, right), there) ↦ absurd (ground arith)
]

right_free :
    (c : ℕ) (s : Text) {left right : Text}
    → rsplit_once c s ≡ some (left, right)
    → has c right ≡ false
unfolding rsplit_once
right_free c [] h = cc
right_free c (x ∷ s) {left} {right} h = elim (Option-cases (rsplit_once c s)) [
  | inl gone ↦ let same : s ≡ right = ground arith in ap (has c) (sym same) ∙ none_free c s gone
  | inr ((left', right'), there) ↦
      let same : right' ≡ right = ground arith in ap (has c) (sym same) ∙ right_free c s there
]

trim_start-has : (c : ℕ) (s : Text) → has c s ≡ false → has c (trim_start s) ≡ false
unfolding trim_start
trim_start-has c [] h = refl
trim_start-has c (x ∷ s) h = ground (arith, trim_start-has c s)

trim_end-has : (c : ℕ) (s : Text) → has c s ≡ false → has c (trim_end s) ≡ false
unfolding trim_end
trim_end-has c [] h = refl
trim_end-has c (x ∷ s) h = ground (arith, trim_end-has c s)

trim-has : (c : ℕ) (s : Text) → has c s ≡ false → has c (trim s) ≡ false
unfolding trim
trim-has c s h = trim_end-has c (trim_start s) (trim_start-has c s h)

trim_end_twice : (s : Text) → trim_end (trim_end s) ≡ trim_end s
unfolding trim_end
trim_end_twice [] = refl
trim_end_twice (x ∷ s) = elim (Bool-cases (is_empty (trim_end s) && is_whitespace x)) [
  | inl blank ↦ rw blank refl
  | inr solid ↦ rw (solid, trim_end_twice s, solid) refl
]

-- The first character is not blank, when there is one.
abbrev starts_solid : Text → Bool
starts_solid [] = true
starts_solid (x ∷ s) = not (is_whitespace x)

trim_start-solid : (s : Text) → starts_solid (trim_start s) ≡ true
unfolding trim_start
trim_start-solid [] = refl
trim_start-solid (x ∷ s) = elim (Bool-cases (is_whitespace x)) [
  | inl blank ↦ rw blank (trim_start-solid s)
  | inr solid ↦ rw (solid, solid) refl
]

trim_end-solid : (s : Text) → starts_solid s ≡ true → starts_solid (trim_end s) ≡ true
unfolding trim_end
trim_end-solid [] h = refl
trim_end-solid (x ∷ s) h = ground arith

solid_start : (s : Text) → starts_solid s ≡ true → trim_start s ≡ s
unfolding trim_start
solid_start [] h = refl
solid_start (x ∷ s) h = ground arith

-- What trimming leaves: its ends are not blank.
abbrev IsTrimmed : Text → Type 0
IsTrimmed s = (starts_solid s ≡ true) × (trim_end s ≡ s)

trim-IsTrimmed : (s : Text) → IsTrimmed (trim s)
unfolding trim
trim-IsTrimmed s =
    (trim_end-solid (trim_start s) (trim_start-solid s), trim_end_twice (trim_start s))

trimmed_trim : (s : Text) → IsTrimmed s → trim s ≡ s
unfolding trim
trimmed_trim s (solid, end) = ap trim_end (solid_start s solid) ∙ end

solid_append :
    (left right : Text)
    → is_empty left ≡ false
    → starts_solid left ≡ true
    → starts_solid (left ++ right) ≡ true
solid_append [] right h k = cc
solid_append (x ∷ left) right h k = k

trim_end-append :
    (left right : Text)
    → is_empty right ≡ false
    → trim_end right ≡ right
    → (trim_end (left ++ right) ≡ left ++ right) × (is_empty (left ++ right) ≡ false)
unfolding trim_end
trim_end-append [] right h k = (k, h)
trim_end-append (x ∷ left) right h k =
    let (rest, full) = trim_end-append left right h k in (rw (rest, full) refl, refl)

-- The parts of an identity that parsing returns.
record IsCanonical (i : EvaluatorIdentity) : Type 0 where
  namespace_trimmed : IsTrimmed i.namespace
  name_trimmed : IsTrimmed i.name
  version_trimmed : IsTrimmed i.version
  namespace_full : is_empty i.namespace ≡ false
  name_full : is_empty i.name ≡ false
  version_full : is_empty i.version ≡ false
  name_free : has b'/' i.name ≡ false
  version_free : has b':' i.version ≡ false

parsed-IsCanonical :
    (input : Text) {i : EvaluatorIdentity}
    → parse_fully_qualified_evaluator input ≡ ok i
    → IsCanonical i
unfolding parse_fully_qualified_evaluator
parsed-IsCanonical input {i} h =
    let ((identity, version), e, h1) = >>=-eq-ok (ok_or (rsplit_once b':' input) ambiguous) _ h in
    let ((namespace, name), e', h2) =
      >>=-eq-ok (ok_or (rsplit_once b'/' (trim identity)) ambiguous) _ h1 in
    let (full, h3) =
      ensure-eq-ok
        (not (is_empty (trim namespace) || is_empty (trim name) || is_empty (trim version))) _ _
        h2 in
    let same : record { namespace = trim namespace; name = trim name; version = trim version } ≡ i =
      ground arith in
    subst IsCanonical same (record {
      namespace_trimmed = trim-IsTrimmed namespace;
      name_trimmed = trim-IsTrimmed name;
      version_trimmed = trim-IsTrimmed version;
      namespace_full = ground arith;
      name_full = ground arith;
      version_full = ground arith;
      name_free = trim-has b'/' name (right_free b'/' (trim identity) (ok_or-eq-ok _ _ e'));
      version_free = trim-has b':' version (right_free b':' input (ok_or-eq-ok _ _ e));
    })

canonical_parses :
    (i : EvaluatorIdentity)
    → IsCanonical i
    → parse_fully_qualified_evaluator (canonical_ref i) ≡ ok i
unfolding canonical_ref parse_fully_qualified_evaluator
canonical_parses i c =
    let outer = rsplit_once-append b':' (i.namespace ++ b'/' ∷ i.name) i.version c.version_free in
    let inner = rsplit_once-append b'/' i.namespace i.name c.name_free in
    let (name_end, full) = trim_end-append (b'/' ∷ []) i.name c.name_full c.name_trimmed.1 in
    let (whole_end, some_text) = trim_end-append i.namespace (b'/' ∷ i.name) refl name_end in
    let whole : trim (i.namespace ++ b'/' ∷ i.name) ≡ i.namespace ++ b'/' ∷ i.name =
      trimmed_trim (i.namespace ++ b'/' ∷ i.name) (
        solid_append i.namespace (b'/' ∷ i.name) c.namespace_full c.namespace_trimmed.0,
        whole_end,
      ) in
    rw
      (
        parse_fully_qualified_evaluator,
        outer,
        whole,
        inner,
        trimmed_trim i.namespace c.namespace_trimmed,
        trimmed_trim i.name c.name_trimmed,
        trimmed_trim i.version c.version_trimmed,
        c.namespace_full,
        c.name_full,
        c.version_full,
      )
      refl

-- An identity that parsing returns is found again from its canonical form, whatever blanks and
-- further separators the first input had.
pub parse_fully_qualified_evaluator-canonical_ref :
    (input : Text) {i : EvaluatorIdentity}
    → parse_fully_qualified_evaluator input ≡ ok i
    → parse_fully_qualified_evaluator (canonical_ref i) ≡ ok i
parse_fully_qualified_evaluator-canonical_ref input {i} h =
    canonical_parses i (parsed-IsCanonical input h)
