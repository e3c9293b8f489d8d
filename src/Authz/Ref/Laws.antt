-- ===== src/Authz/Ref/Laws.antt =====
-- `MatchRef` against a description of the patterns.
use Prim.Native.String.{◌++◌}
use text.Mathlib.TextLemmas.{nil-append}
use deploy_gateway.Base.{
  String, ◌==◌, eq_iff, eq_refl, ◌≡◌, ◌≢◌, refl, sym, ap, ◌↔◌, ◌⊎◌, inl, inr, Bool, Bool-cases,
  Option-cases, true, false, Option, none, some, List, [], ◌∷◌, ok, err, Any, arith, or_iff, Result,
  if◌then◌else◌,
}
use deploy_gateway.Base.Text.{has_prefix, strip_prefix}
use deploy_gateway.Base.Text.Laws.{strip_prefix-append, append_of_strip_prefix}
use deploy_gateway.Authz.Ref.Stars.{
  strip_star-append, append_of_strip_star, star_inside-append, star_inside-Split,
}
use deploy_gateway.Authz.Ref.{
  err_malformed_ref_constraint, strip_star, star_inside, is_malformed, any_malformed,
  matches_pattern, matches, any_matches, match_ref,
}

-- The ref satisfies the pattern: the pattern is a "*" behind a prefix of the ref, or the ref itself.
pub data Permits (p ref : String) : Type 0 where
  prefix : (stem rest : String) → p ≡ stem ++ "*" → ref ≡ stem ++ rest → Permits p ref
  exact : p ≡ ref → Permits p ref

-- The pattern is empty, or it has a "*" that something follows.
pub data Malformed (p : String) : Type 0 where
  empty : p ≡ "" → Malformed p
  inside : (before after : String) → p ≡ before ++ ("*" ++ after) → after ≢ "" → Malformed p

-- A text that ends in its only star has none inside.
Malformed-iff : (p : String) → (is_malformed p ≡ true) ↔ Malformed p
unfolding is_malformed
Malformed-iff p = (there, back)
  where
    there : is_malformed p ≡ true → Malformed p
    there h = elim (Bool-cases (p == "")) [
      | inl e ↦ empty ((eq_iff p "").0 e)
      | inr e ↦ let d = star_inside-Split p (ground arith) in inside d.before d.after d.whole d.more
    ]

    back : Malformed p → is_malformed p ≡ true
    back (empty e) = rw e
    back (inside b a e m) =
        let s : star_inside p ≡ true = rw e (star_inside-append b a m) in
        elim (Bool-cases (p == "*")) [
          | inl x ↦ cc (s, ap star_inside ((eq_iff p "*").0 x))
          | inr x ↦ ground (arith, s)
        ]

has_prefix-append : (stem rest : String) → has_prefix (stem ++ rest) stem ≡ true
has_prefix-append stem rest = rw (strip_prefix-append, has_prefix)

matches_pattern_there :
    (p ref : String) (o : Option String)
    → strip_star p ≡ o
    → matches_pattern p ref o ≡ true
    → Permits p ref
unfolding matches_pattern
matches_pattern_there p ref none e h = exact ((eq_iff p ref).0 h)
matches_pattern_there p ref (some stem) e h = elim (Option-cases (strip_prefix stem ref)) [
  | inl x ↦ ground (arith, x)
  | inr (rest, x) ↦
      prefix stem rest (append_of_strip_star p stem e) (append_of_strip_prefix stem ref rest x)
]

matches_pattern_exact :
    (p : String) (o : Option String) → strip_star p ≡ o → matches_pattern p p o ≡ true
unfolding matches_pattern
matches_pattern_exact p none e = eq_refl p
matches_pattern_exact p (some stem) e =
    rw (append_of_strip_star p stem e) (has_prefix-append stem "*")

matches_iff : (p ref : String) → (matches p ref ≡ true) ↔ Permits p ref
unfolding matches matches_pattern
matches_iff p ref = (there, back)
  where
    there : matches p ref ≡ true → Permits p ref
    there h = elim (Bool-cases (p == "*")) [
      | inl x ↦ prefix "" ref ((eq_iff p "*").0 x) (sym (nil-append ref))
      | inr x ↦ matches_pattern_there p ref (strip_star p) refl (ground arith)
    ]

    by_pattern : matches_pattern p ref (strip_star p) ≡ true → matches p ref ≡ true
    by_pattern h = ground (arith, h)

    back : Permits p ref → matches p ref ≡ true
    back (exact e) = by_pattern (rw (← e) (matches_pattern_exact p (strip_star p) refl))
    back (prefix stem rest e e') =
        let s : strip_star p ≡ some stem = rw e (strip_star-append stem) in
        by_pattern (rw s (rw e' (has_prefix-append stem rest)))

any_matches_iff :
    (ps : List String) (ref : String) → (any_matches ps ref ≡ true) ↔ Any (λ p. Permits p ref) ps
unfolding any_matches
any_matches_iff [] ref = (λ h. cc, λ h. absurd h)
any_matches_iff (p ∷ ps) ref =
    or_iff (matches p ref) (any_matches ps ref) (matches_iff p ref) (any_matches_iff ps ref)

any_malformed_iff : (ps : List String) → (any_malformed ps ≡ true) ↔ Any Malformed ps
unfolding any_malformed
any_malformed_iff [] = (λ h. cc, λ h. absurd h)
any_malformed_iff (p ∷ ps) =
    or_iff (is_malformed p) (any_malformed ps) (Malformed-iff p) (any_malformed_iff ps)

-- The verdict on a list that is not empty, from its three tests.
abbrev verdict : Bool → Bool → Bool → Result Bool
verdict malformed no_ref matched =
    if malformed then err err_malformed_ref_constraint else if no_ref then ok false else ok matched

not_true : (b : Bool) → ¬ (b ≡ true) → b ≡ false
not_true true h = absurd (h refl)
not_true false h = refl

verdict-err_iff : (m e a : Bool) → (verdict m e a ≡ err err_malformed_ref_constraint) ↔ (m ≡ true)
verdict-err_iff m e a = ground arith

verdict-true_iff :
    (m e a : Bool) → (verdict m e a ≡ ok true) ↔ ((m ≡ false) × (e ≡ false) × (a ≡ true))
verdict-true_iff m e a = ground arith

-- `MatchRef` reports an error exactly when some pattern of the list is malformed: empty, or with a "*"
-- that something follows. A match earlier in the list does not hide it.
match_ref-err_iff :
    (allowed : List String) (ref : String)
    → (match_ref allowed ref ≡ err err_malformed_ref_constraint) ↔ Any Malformed allowed
unfolding match_ref
match_ref-err_iff [] ref = (λ h. cc, λ h. absurd h)
match_ref-err_iff (p ∷ ps) ref =
    let v = verdict-err_iff (any_malformed (p ∷ ps)) (ref == "") (any_matches (p ∷ ps) ref) in
    let m = any_malformed_iff (p ∷ ps) in (λ h. m.0 (v.0 h), λ h. v.1 (m.1 h))

-- `MatchRef` accepts exactly when the list is empty, or when no pattern is malformed, the ref is not empty, and
-- some pattern permits it: the ref itself, or a prefix of it with a "*" behind.
pub match_ref-true_iff :
    (allowed : List String) (ref : String)
    → (match_ref allowed ref ≡ ok true) ↔ (
        (allowed ≡ [])
        ⊎ ((¬ Any Malformed allowed) × (ref ≢ "") × Any (λ p. Permits p ref) allowed))
unfolding match_ref
match_ref-true_iff [] ref = (λ h. inl refl, λ h. refl)
match_ref-true_iff (p ∷ ps) ref = (there, back)
  where
    v : (verdict (any_malformed (p ∷ ps)) (ref == "") (any_matches (p ∷ ps) ref) ≡ ok true) ↔ (
        (any_malformed (p ∷ ps) ≡ false)
        × ((ref == "") ≡ false)
        × (any_matches (p ∷ ps) ref ≡ true))
    v = verdict-true_iff (any_malformed (p ∷ ps)) (ref == "") (any_matches (p ∷ ps) ref)

    Accepts : Type 0
    Accepts = (¬ Any Malformed (p ∷ ps)) × (ref ≢ "") × Any (λ q. Permits q ref) (p ∷ ps)

    there : match_ref (p ∷ ps) ref ≡ ok true → (p ∷ ps ≡ []) ⊎ Accepts
    there h =
        let (fine, some_ref, matched) = v.0 h in
        inr (
          λ bad. cc (fine, (any_malformed_iff (p ∷ ps)).1 bad),
          λ e. cc (some_ref, (eq_iff ref "").1 e),
          (any_matches_iff (p ∷ ps) ref).0 matched,
        )

    back : (p ∷ ps ≡ []) ⊎ Accepts → match_ref (p ∷ ps) ref ≡ ok true
    back (inl e) = cc
    back (inr (fine, some_ref, matched)) = v.1 (
      not_true _ (λ h. fine ((any_malformed_iff (p ∷ ps)).0 h)),
      not_true _ (λ h. some_ref ((eq_iff ref "").0 h)),
      (any_matches_iff (p ∷ ps) ref).1 matched,
    )

-- `MatchRef` reports an error exactly when some pattern of the list is malformed: empty, or with a "*"
-- that something follows, even behind a match earlier in the list; and it accepts exactly when the list
-- is empty, or when no pattern is malformed, the ref is not empty, and some pattern permits it: the ref
-- itself, or a prefix of it with a "*" behind.
pub match_ref_iff :
    (allowed : List String) (ref : String)
    → ((match_ref allowed ref ≡ err err_malformed_ref_constraint) ↔ Any Malformed allowed)
      × ((match_ref allowed ref ≡ ok true) ↔ (
          (allowed ≡ [])
          ⊎ ((¬ Any Malformed allowed) × (ref ≢ "") × Any (λ p. Permits p ref) allowed)))
match_ref_iff allowed ref = (match_ref-err_iff allowed ref, match_ref-true_iff allowed ref)
