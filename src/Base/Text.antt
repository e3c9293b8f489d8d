-- ===== src/Base/Text.antt =====
-- Texts as the program walks them: prefixes, suffixes, letters and decimal numbers. A text is a list
-- of code points; the program's own tests look at ASCII characters alone.
pub mod Laws
use Prim.Native.Nat.{ℕ, zero, suc, ◌-◌, ◌/◌, ◌%◌}
use Prim.Native.Char.{Char, char, code}
use Prim.Native.String.{String, [], ◌∷◌, ◌++◌}
use mathlib.Core.Bool.{Bool, true, false, not, ◌||◌}
use mathlib.Core.List.{List}
use mathlib.Core.Option.{Option, none, some}
use text.Mathlib.Text.{◌==◌}
use deploy_gateway.Base.Tests.{eqb, ltb, if◌then◌else◌}

-- `strings.CutPrefix`: the rest of `s` behind the prefix
unfoldable pub strip_prefix : String → String → Option String
strip_prefix [] s = some s
strip_prefix (c ∷ p) [] = none
strip_prefix (c ∷ p) (d ∷ s) =
    let rest = strip_prefix p s in if eqb (code c) (code d) then rest else none

-- `strings.HasPrefix(s, p)`
abbrev pub has_prefix : String → String → Bool
has_prefix s p = elim (strip_prefix p s) [ some _ ↦ true | none ↦ false ]

-- `strings.TrimPrefix(s, p)`
abbrev pub trim_prefix : String → String → String
trim_prefix s p = elim (strip_prefix p s) [ some rest ↦ rest | none ↦ s ]

-- The code points of a text.
unfoldable pub codes : String → List ℕ
codes [] = List.[]
codes (c ∷ s) = List.◌∷◌ (code c) (codes s)

unfoldable pub digit : ℕ → Char
digit zero = char 48 tt
digit (suc zero) = char 49 tt
digit (suc (suc zero)) = char 50 tt
digit (suc (suc (suc zero))) = char 51 tt
digit (suc (suc (suc (suc zero)))) = char 52 tt
digit (suc (suc (suc (suc (suc zero))))) = char 53 tt
digit (suc (suc (suc (suc (suc (suc zero)))))) = char 54 tt
digit (suc (suc (suc (suc (suc (suc (suc zero))))))) = char 55 tt
digit (suc (suc (suc (suc (suc (suc (suc (suc zero)))))))) = char 56 tt
digit _ = char 57 tt

-- The digits of a number in front of a text, lowest first; the fuel is above the number.
show_onto : ℕ → ℕ → String → String
show_onto zero n s = s
show_onto (suc fuel) n s =
    let s' = digit (n % 10) ∷ s in
    let rest = show_onto fuel (n / 10) s' in if ltb n 10 then s' else rest

-- `%d`, for a number that is not negative
unfoldable pub show : ℕ → String
unfolding show_onto digit
show n = show_onto (suc n) n ""

lower_in : String → String → Char → Char
lower_in (u ∷ us) (l ∷ ls) c =
    let rest = lower_in us ls c in if eqb (code c) (code u) then l else rest
lower_in _ _ c = c

-- `strings.ToLower`, for a text in ASCII
unfoldable pub to_lower : String → String
unfolding lower_in
to_lower [] = []
to_lower (c ∷ s) = lower_in "ABCDEFGHIJKLMNOPQRSTUVWXYZ" "abcdefghijklmnopqrstuvwxyz" c ∷ to_lower s

-- `strings.TrimSuffix(s, "c")`, for a suffix of one character
unfoldable pub trim_suffix : String → String → String
trim_suffix [] p = []
trim_suffix (c ∷ s) p = let rest = c ∷ trim_suffix s p in if (c ∷ s) == p then [] else rest

-- The letters that `strings.EqualFold` takes for a letter of ASCII, in its lower case: the capital, the
-- Kelvin sign (U+212A) and the long s (U+017F).
fold_case : String → String
unfolding lower_in
fold_case [] = []
fold_case (c ∷ s) =
    lower_in "ABCDEFGHIJKLMNOPQRSTUVWXYZKſ" "abcdefghijklmnopqrstuvwxyzks" c ∷ fold_case s

-- `strings.EqualFold(s, t)`, for a text `t` in ASCII
unfoldable pub equal_fold : String → String → Bool
unfolding fold_case
equal_fold s t = fold_case s == fold_case t

-- The letter behind the backslash in the short escapes of `%q`.
unfoldable pub short_escape : ℕ → Option Char
short_escape n =
    if eqb n 34
    then some (char 34 tt)
    else if eqb n 92
    then some (char 92 tt)
    else if eqb n 7
    then some (char 97 tt)
    else if eqb n 8
    then some (char 98 tt)
    else if eqb n 9
    then some (char 116 tt)
    else if eqb n 10
    then some (char 110 tt)
    else if eqb n 11
    then some (char 118 tt)
    else if eqb n 12
    then some (char 102 tt)
    else if eqb n 13
    then some (char 114 tt)
    else none

-- A hexadecimal digit.
unfoldable pub hex : ℕ → Char
hex n = if ltb n 10 then digit n else elim (n - 10) [
  | zero ↦ char 97 tt
  | suc zero ↦ char 98 tt
  | suc (suc zero) ↦ char 99 tt
  | suc (suc (suc zero)) ↦ char 100 tt
  | suc (suc (suc (suc zero))) ↦ char 101 tt
  | _ ↦ char 102 tt
]

-- The lowest `digits` hexadecimal digits of a number, in front of a text.
unfoldable pub hex_onto : ℕ → ℕ → String → String
unfolding hex
hex_onto zero n s = s
hex_onto (suc digits) n s = hex_onto digits (n / 16) (hex (n % 16) ∷ s)

-- The escape of a character that is not printable: by two digits in ASCII, else by four or eight.
unfoldable pub code_onto : ℕ → String → String
unfolding hex_onto
code_onto n s =
    if ltb n 128
    then char 92 tt ∷ (char 120 tt ∷ hex_onto 2 n s)
    else if ltb n 65536
    then char 92 tt ∷ (char 117 tt ∷ hex_onto 4 n s)
    else char 92 tt ∷ (char 85 tt ∷ hex_onto 8 n s)

-- `strconv.IsPrint`: in ASCII what is no control character; beyond, by its table, a parameter.
abbrev pub printable : (ℕ → Bool) → ℕ → Bool
printable is_print n = if ltb n 128 then not (ltb n 32 || eqb n 127) else is_print n

-- A character as it is if it is printable, else its escape.
unfoldable pub control_onto : Bool → Char → String → String
unfolding code_onto
control_onto true c s = c ∷ s
control_onto false c s = code_onto (code c) s

-- One character of `%q` in front of a text.
unfoldable pub escaped_onto : (ℕ → Bool) → Option Char → Char → String → String
unfolding control_onto
escaped_onto is_print none c s = control_onto (printable is_print (code c)) c s
escaped_onto is_print (some x) c s = char 92 tt ∷ (x ∷ s)

-- The characters of `%q`, in front of a text.
unfoldable pub quote_onto : (ℕ → Bool) → String → String → String
unfolding escaped_onto short_escape
quote_onto is_print [] t = t
quote_onto is_print (c ∷ s) t =
    escaped_onto is_print (short_escape (code c)) c (quote_onto is_print s t)

-- `%q`, for a text of valid UTF-8
unfoldable pub quote : (ℕ → Bool) → String → String
unfolding quote_onto
quote is_print s = char 34 tt ∷ quote_onto is_print s "\""

-- `strings.Contains(s, p)`
unfoldable pub contains : String → String → Bool
unfolding strip_prefix
contains [] p = has_prefix [] p
contains (c ∷ s) p = let rest = contains s p in if has_prefix (c ∷ s) p then true else rest
