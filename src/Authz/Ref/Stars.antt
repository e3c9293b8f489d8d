-- ===== src/Authz/Ref/Stars.antt =====
-- Where a pattern has its star.
use Prim.Native.Char.{Char, code}
use Prim.Native.String.{◌++◌}
use mathlib.Core.Option.{some-injective}
use text.Mathlib.TextLemmas.{nil-append, cons-append, cons≢nil}
use deploy_gateway.Base.{
  String, ◌≡◌, ◌≢◌, refl, ap, inl, inr, Bool-cases, true, Option, none, some, arith, eqb,
}
use deploy_gateway.Base.Text.Laws.{eqb_path}
use deploy_gateway.Authz.Ref.{prepend, strip_star, star_inside}

abbrev star : Char
star = Prim.Native.Char.char 42 tt

-- Stripping the final star finds just the patterns that end in one.
pub strip_star-append : (stem : String) → strip_star (stem ++ "*") ≡ some stem
unfolding strip_star
strip_star-append String.[] = refl
strip_star-append (String.◌∷◌ c String.[]) = rw cons-append
strip_star-append (String.◌∷◌ c (String.◌∷◌ d s)) =
    let ih = strip_star-append (String.◌∷◌ d s) in
    rw (cons-append, cons-append) (rw (rw cons-append at ih))

append_of_prepend :
    (c : Char) (o : Option String) (p stem : String)
    → ((t : String) → o ≡ some t → p ≡ t ++ "*")
    → prepend c o ≡ some stem
    → String.◌∷◌ c p ≡ stem ++ "*"
unfolding prepend
append_of_prepend c none p stem h e = cc
append_of_prepend c (some t) p stem h e =
    rw (← some-injective _ _ e) (rw cons-append (ap (λ (u : String). String.◌∷◌ c u) (h t refl)))

pub append_of_strip_star : (p stem : String) → strip_star p ≡ some stem → p ≡ stem ++ "*"
unfolding strip_star
append_of_strip_star String.[] stem h = cc
append_of_strip_star (String.◌∷◌ c String.[]) stem h = elim (Bool-cases (eqb (code c) b'*')) [
  | inl e ↦
      rw (← some-injective "" stem (rw e at h))
        (rw nil-append (ap (λ (x : Char). String.◌∷◌ x String.[]) (eqb_path c star e)))
  | inr e ↦ ground arith
]
append_of_strip_star (String.◌∷◌ c (String.◌∷◌ d s)) stem h =
    append_of_prepend c (strip_star (String.◌∷◌ d s)) (String.◌∷◌ d s) stem
      (append_of_strip_star (String.◌∷◌ d s)) h

-- A pattern that ends in no star is matched whole.
strip_star-none : (p stem : String) → strip_star p ≡ none → p ≢ stem ++ "*"
strip_star-none p stem h e = cc (strip_star-append stem, ap strip_star e)

star_inside-cons :
    (c : Char) (t : String) → star_inside t ≡ true → star_inside (String.◌∷◌ c t) ≡ true
unfolding star_inside
star_inside-cons c String.[] h = cc
star_inside-cons c (String.◌∷◌ d s) h = ground arith

pub star_inside-append :
    (before after : String) → after ≢ "" → star_inside (before ++ ("*" ++ after)) ≡ true
unfolding star_inside
star_inside-append String.[] String.[] h = absurd (h refl)
star_inside-append String.[] (String.◌∷◌ c s) h = rw (nil-append, cons-append, nil-append)
star_inside-append (String.◌∷◌ c before) after h =
    rw cons-append (star_inside-cons c _ (star_inside-append before after h))

-- Where the star is.
pub record Split (p : String) : Type 0 where
  pub before : String
  pub after : String
  pub whole : p ≡ before ++ ("*" ++ after)
  pub more : after ≢ ""

Split-cons : {p : String} (c : Char) → Split p → Split (String.◌∷◌ c p)
Split-cons c d = record {
  before = String.◌∷◌ c d.before;
  after = d.after;
  whole = rw cons-append (ap (λ (t : String). String.◌∷◌ c t) d.whole);
  more = d.more;
}

pub star_inside-Split : (p : String) → star_inside p ≡ true → Split p
unfolding star_inside
star_inside-Split String.[] h = cc
star_inside-Split (String.◌∷◌ c String.[]) h = cc
star_inside-Split (String.◌∷◌ c (String.◌∷◌ d s)) h = elim (Bool-cases (eqb (code c) b'*')) [
  | inl e ↦ record {
    before = "";
    after = String.◌∷◌ d s;
    whole =
        rw (nil-append, cons-append, nil-append)
          (ap (λ (x : Char). String.◌∷◌ x (String.◌∷◌ d s)) (eqb_path c star e));
    more = cons≢nil;
  }
  | inr e ↦ Split-cons c (star_inside-Split (String.◌∷◌ d s) (ground arith))
]
