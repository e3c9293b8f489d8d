-- ===== src/Kube/Patch/Json.antt =====
-- What a reader of JSON makes of a text that the program quoted with `%q`.
use Prim.Native.Char.{Char, char, code, IsScalar}
use Prim.Native.String.{[], ◌∷◌}
use mathlib.Core.Path.{subst}
use text.Mathlib.TextEquality.{Char-path}
use text.Mathlib.TextLemmas.{nil-append, cons-append}
use deploy_gateway.Base.{
  ℕ, zero, suc, ◌/◌, ◌%◌, String, ◌<>◌, ◌≡◌, refl, sym, ap, ◌∙◌, inl, inr, ◌⊎◌, Bool, true, false,
  ◌||◌, ◌&&◌, not, Option, none, some, eqb, ltb, arith, if◌then◌else◌,
}
use deploy_gateway.Base.Text.{
  quote, quote_onto, escaped_onto, control_onto, code_onto, hex_onto, hex, printable, short_escape,
}

-- The character of an escape of two characters (RFC 8259); `\u` is not read.
unescape : ℕ → Option Char
unescape n =
    if eqb n 34
    then some (char 34 tt)
    else if eqb n 92
    then some (char 92 tt)
    else if eqb n 47
    then some (char 47 tt)
    else if eqb n 98
    then some (char 8 tt)
    else if eqb n 102
    then some (char 12 tt)
    else if eqb n 110
    then some (char 10 tt)
    else if eqb n 114
    then some (char 13 tt)
    else if eqb n 116
    then some (char 9 tt)
    else none

push : Char → Option (String × String) → Option (String × String)
push c none = none
push c (some (s, rest)) = some (c ∷ s, rest)

-- Behind the opening quote, or, if the flag is set, behind a backslash: the text up to the closing
-- quote, and what follows it.
read_string : Bool → String → Option (String × String)
unfolding unescape push
read_string escaped [] = none
read_string true (c ∷ s) =
    let rest = read_string false s in
    elim (unescape (code c)) [ none ↦ none | some x ↦ push x rest ]
read_string false (c ∷ s) =
    let rest = read_string (eqb (code c) 92) s in
    if eqb (code c) 34
    then some ("", s)
    else if eqb (code c) 92
    then rest
    else if ltb (code c) 32
    then none
    else push c rest

-- A JSON text: what it says, and what follows it.
pub read_json : String → Option (String × String)
unfolding read_string
read_json [] = none
read_json (c ∷ s) = let rest = read_string false s in if eqb (code c) 34 then rest else none

-- `%q` writes the character as it is, for it is printable, or by an escape that JSON has too. The others
-- it writes as `\a`, `\v`, `\x`, or by the number, in which a reader of JSON finds other escapes.
abbrev pub has_json_escape : (ℕ → Bool) → Char → Bool
has_json_escape is_print c =
    printable is_print (code c) || (ltb 7 (code c) && ltb (code c) 14 && not (eqb (code c) 11))

abbrev pub is_json_text : (ℕ → Bool) → String → Bool
is_json_text is_print [] = true
is_json_text is_print (c ∷ s) = has_json_escape is_print c && is_json_text is_print s

and-true : (a b : Bool) → (a && b) ≡ true → (a ≡ true) × (b ≡ true)
and-true true b h = (refl, h)
and-true false b h = cc

abbrev Reads : (ℕ → Bool) → Char → String → Type 0
Reads is_print c t =
    read_string false (escaped_onto is_print (short_escape (code c)) c t)
    ≡ push c (read_string false t)

-- A character that is known by its code.
by_code :
    (is_print : ℕ → Bool) (n : ℕ) (p : IsScalar n) (c : Char) (t : String)
    → Reads is_print (char n p) t
    → code c ≡ n
    → Reads is_print c t
by_code is_print n p c t h e = subst (λ x. Reads is_print x t) (sym (Char-path c (char n p) e)) h

abbrev IsShort : ℕ → Type 0
IsShort n = (n ≡ 34) ⊎ ((n ≡ 92) ⊎ ((n ≡ 8) ⊎ ((n ≡ 9) ⊎ ((n ≡ 10) ⊎ ((n ≡ 12) ⊎ (n ≡ 13))))))

Reads-short : (is_print : ℕ → Bool) (c : Char) (t : String) → IsShort (code c) → Reads is_print c t
unfolding read_string escaped_onto short_escape unescape push
Reads-short is_print c t (inl e) = by_code is_print 34 tt c t refl e
Reads-short is_print c t (inr (inl e)) = by_code is_print 92 tt c t refl e
Reads-short is_print c t (inr (inr (inl e))) = by_code is_print 8 tt c t refl e
Reads-short is_print c t (inr (inr (inr (inl e)))) = by_code is_print 9 tt c t refl e
Reads-short is_print c t (inr (inr (inr (inr (inl e))))) = by_code is_print 10 tt c t refl e
Reads-short is_print c t (inr (inr (inr (inr (inr (inl e)))))) = by_code is_print 12 tt c t refl e
Reads-short is_print c t (inr (inr (inr (inr (inr (inr e)))))) = by_code is_print 13 tt c t refl e

IsShort-or_plain :
    (is_print : ℕ → Bool) (c : Char)
    → has_json_escape is_print c ≡ true
    → IsShort (code c)
      ⊎ ((short_escape (code c) ≡ none)
          × (printable is_print (code c) ≡ true)
          × (ltb (code c) 32 ≡ false)
          × (eqb (code c) 34 ≡ false)
          × (eqb (code c) 92 ≡ false))
unfolding short_escape
IsShort-or_plain is_print c h = ground arith

escaped_onto-plain :
    (is_print : ℕ → Bool) (c : Char) (t : String)
    → printable is_print (code c) ≡ true
    → escaped_onto is_print none c t ≡ c ∷ t
unfolding escaped_onto control_onto
escaped_onto-plain is_print c t shown = rw shown refl

read_string-plain :
    (c : Char) (t : String)
    → eqb (code c) 34 ≡ false
    → eqb (code c) 92 ≡ false
    → ltb (code c) 32 ≡ false
    → read_string false (c ∷ t) ≡ push c (read_string false t)
unfolding read_string
read_string-plain c t mark slash low = rw (mark, slash, low) refl

read_string-escaped_onto :
    (is_print : ℕ → Bool) (c : Char) (t : String)
    → has_json_escape is_print c ≡ true
    → Reads is_print c t
read_string-escaped_onto is_print c t h = elim (IsShort-or_plain is_print c h) [
  | inl short ↦ Reads-short is_print c t short
  | inr (plain, shown, low, mark, slash) ↦
      ap (λ o. read_string false (escaped_onto is_print o c t)) plain
      ∙ ap (read_string false) (escaped_onto-plain is_print c t shown)
      ∙ read_string-plain c t mark slash low
]

read_string-quote_onto :
    (is_print : ℕ → Bool) (s t : String)
    → is_json_text is_print s ≡ true
    → read_string false (quote_onto is_print s (char 34 tt ∷ t)) ≡ some (s, t)
unfolding quote_onto read_string push
read_string-quote_onto is_print [] t h = refl
read_string-quote_onto is_print (c ∷ s) t h =
    let (e, rest) = and-true (has_json_escape is_print c) (is_json_text is_print s) h in
    read_string-escaped_onto is_print c _ e ∙ ap (push c) (read_string-quote_onto is_print s t rest)

hex_onto-append :
    (digits n : ℕ) (t u : String) → hex_onto digits n t <> u ≡ hex_onto digits n (t <> u)
unfolding hex_onto
hex_onto-append zero n t u = refl
hex_onto-append (suc digits) n t u =
    hex_onto-append digits (n / 16) (hex (n % 16) ∷ t) u
    ∙ ap (hex_onto digits (n / 16)) (cons-append _ _ _)

code_onto-append : (n : ℕ) (t u : String) → code_onto n t <> u ≡ code_onto n (t <> u)
unfolding code_onto
code_onto-append n t u = by_size (ltb n 128) (ltb n 65536)
  where
    escaped :
        (x : Char) (digits : ℕ)
        → (char 92 tt ∷ (x ∷ hex_onto digits n t)) <> u
          ≡ char 92 tt ∷ (x ∷ hex_onto digits n (t <> u))
    escaped x digits =
        cons-append _ _ _
        ∙ ap (λ (v : String). char 92 tt ∷ v)
            (cons-append _ _ _ ∙ ap (λ (v : String). x ∷ v) (hex_onto-append digits n t u))

    by_size :
        (a b : Bool)
        → (if a
              then char 92 tt ∷ (char 120 tt ∷ hex_onto 2 n t)
              else if b
              then char 92 tt ∷ (char 117 tt ∷ hex_onto 4 n t)
              else char 92 tt ∷ (char 85 tt ∷ hex_onto 8 n t))
            <> u
          ≡ (if a
              then char 92 tt ∷ (char 120 tt ∷ hex_onto 2 n (t <> u))
              else if b
              then char 92 tt ∷ (char 117 tt ∷ hex_onto 4 n (t <> u))
              else char 92 tt ∷ (char 85 tt ∷ hex_onto 8 n (t <> u)))
    by_size true b = escaped (char 120 tt) 2
    by_size false true = escaped (char 117 tt) 4
    by_size false false = escaped (char 85 tt) 8

escaped_onto-append :
    (is_print : ℕ → Bool) (o : Option Char) (c : Char) (t u : String)
    → escaped_onto is_print o c t <> u ≡ escaped_onto is_print o c (t <> u)
unfolding escaped_onto control_onto
escaped_onto-append is_print none c t u = control_onto-append (printable is_print (code c))
  where
    control_onto-append : (b : Bool) → control_onto b c t <> u ≡ control_onto b c (t <> u)
    control_onto-append true = rw cons-append refl
    control_onto-append false = code_onto-append (code c) t u
escaped_onto-append is_print (some x) c t u = rw cons-append (rw cons-append refl)

quote_onto-append :
    (is_print : ℕ → Bool) (s t u : String)
    → quote_onto is_print s t <> u ≡ quote_onto is_print s (t <> u)
unfolding quote_onto
quote_onto-append is_print [] t u = refl
quote_onto-append is_print (c ∷ s) t u =
    escaped_onto-append is_print (short_escape (code c)) c (quote_onto is_print s t) u
    ∙ ap (escaped_onto is_print (short_escape (code c)) c) (quote_onto-append is_print s t u)

-- A reader of JSON reads what `%q` wrote, and goes on behind it, if JSON has the escapes.
pub read_json-quote :
    (is_print : ℕ → Bool) (s t : String)
    → is_json_text is_print s ≡ true
    → read_json (quote is_print s <> t) ≡ some (s, t)
unfolding read_json quote
read_json-quote is_print s t h =
    rw (cons-append, quote_onto-append is_print s "\"" t, cons-append, nil-append)
      (read_string-quote_onto is_print s t h)
