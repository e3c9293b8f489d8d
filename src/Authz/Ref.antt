-- ===== src/Authz/Ref.antt =====
-- internal/authz/ref.go: the ref patterns.
pub mod Stars
pub mod Laws
use Prim.Native.Nat.{ℕ}
use Prim.Native.Char.{Char, code}
use Prim.Native.String
use deploy_gateway.Base.{
  String, ◌==◌, Bool, true, false, ◌&&◌, Option, none, some, List, [], ◌∷◌, GoError, Result, ok,
  err, malformed_ref, eqb, if◌then◌else◌,
}
use deploy_gateway.Base.Text.{has_prefix}

abbrev pub err_malformed_ref_constraint : GoError
err_malformed_ref_constraint = record { kind = malformed_ref; message = "malformed ref constraint" }

-- A "*" stands before the last character: `strings.IndexByte(p, '*')` found one that is not at the end.
unfoldable pub star_inside : String → Bool
star_inside String.[] = false
star_inside (String.◌∷◌ c String.[]) = false
star_inside (String.◌∷◌ c (String.◌∷◌ d s)) =
    let rest = star_inside (String.◌∷◌ d s) in if eqb (code c) b'*' then true else rest

pub prepend : Char → Option String → Option String
prepend c none = none
prepend c (some t) = some (String.◌∷◌ c t)

-- The text without a "*" at its end, if it has one: `strings.HasSuffix` and `strings.TrimSuffix`.
unfoldable pub strip_star : String → Option String
unfolding prepend
strip_star String.[] = none
strip_star (String.◌∷◌ c String.[]) = if eqb (code c) b'*' then some "" else none
strip_star (String.◌∷◌ c (String.◌∷◌ d s)) = prepend c (strip_star (String.◌∷◌ d s))

-- A pattern of the first loop that makes the whole list malformed.
unfoldable pub is_malformed : String → Bool
unfolding star_inside
is_malformed p = if p == "*" then false else if p == "" then true else star_inside p

unfoldable pub any_malformed : List String → Bool
unfolding is_malformed
any_malformed [] = false
any_malformed (p ∷ ps) = let rest = any_malformed ps in if is_malformed p then true else rest

pub matches_pattern : String → String → Option String → Bool
matches_pattern p ref (some stem) = has_prefix ref stem
matches_pattern p ref none = p == ref

-- A pattern of the second loop that the ref satisfies.
unfoldable pub matches : String → String → Bool
unfolding matches_pattern strip_star
matches p ref = if p == "*" then true else matches_pattern p ref (strip_star p)

unfoldable pub any_matches : List String → String → Bool
unfolding matches
any_matches [] ref = false
any_matches (p ∷ ps) ref = let rest = any_matches ps ref in if matches p ref then true else rest

-- `MatchRef`
unfoldable pub match_ref : List String → String → Result Bool
unfolding any_malformed any_matches
match_ref [] ref = ok true
match_ref (p ∷ ps) ref =
    if any_malformed (p ∷ ps)
    then err err_malformed_ref_constraint
    else if ref == ""
    then ok false
    else ok (any_matches (p ∷ ps) ref)
