-- ===== src/Notify/Format/Laws.antt =====
-- What `esc` guarantees.
use mathlib.Core.Path.{subst}
use Prim.Native.Char.{Char, char, code}
use deploy_gateway.Base.{◌≡◌, ◌≢◌, sym, inl, inr, Bool-cases, String, ◌<>◌, true, arith, eqb}
use text.Mathlib.TextLemmas.{nil-append, cons-append}
use deploy_gateway.Base.Text.Laws.{eqb_path}
use deploy_gateway.Notify.Format.{esc, esc_char}

-- What an HTML reader shows of a text without tags: the three entities stand for their characters, and
-- a plain character is none of the three.
pub data Shows : String → String → Type 0 where
  nothing : Shows "" ""
  amp : (h t : String) → Shows h t → Shows ("&amp;" <> h) (String.◌∷◌ (char 38 tt) t)
  lt : (h t : String) → Shows h t → Shows ("&lt;" <> h) (String.◌∷◌ (char 60 tt) t)
  gt : (h t : String) → Shows h t → Shows ("&gt;" <> h) (String.◌∷◌ (char 62 tt) t)
  plain :
      (c : Char) (h t : String)
      → code c ≢ b'&'
      → code c ≢ b'<'
      → code c ≢ b'>'
      → Shows h t
      → Shows (String.◌∷◌ c h) (String.◌∷◌ c t)

-- A character with one of the three codes is that character.
same_char : (c d : Char) → eqb (code c) (code d) ≡ true → d ≡ c
same_char c d e = sym (eqb_path c d e)

esc_char-Shows : (c : Char) (h t : String) → Shows h t → Shows (esc_char c <> h) (String.◌∷◌ c t)
unfolding esc_char
esc_char-Shows c h t s = elim (Bool-cases (eqb (code c) b'&')) [
  | inl e ↦
      rw e (
        subst (λ x. Shows ("&amp;" <> h) (String.◌∷◌ x t)) (same_char c (char 38 tt) e) (amp h t s))
  | inr na ↦ elim (Bool-cases (eqb (code c) b'<')) [
    | inl e ↦
        rw (na, e)
          (subst (λ x. Shows ("&lt;" <> h) (String.◌∷◌ x t)) (same_char c (char 60 tt) e)
            (lt h t s))
    | inr nl ↦ elim (Bool-cases (eqb (code c) b'>')) [
      | inl e ↦
          rw (na, nl, e)
            (subst (λ x. Shows ("&gt;" <> h) (String.◌∷◌ x t)) (same_char c (char 62 tt) e)
              (gt h t s))
      | inr ng ↦
          rw (na, nl, ng)
            (rw (cons-append, nil-append)
              (plain c h t (λ e. ground arith) (λ e. ground arith) (λ e. ground arith) s))
    ]
  ]
]

-- Escaping loses nothing and lets nothing through: what a reader of HTML shows of an escaped text, in
-- which there is no tag, is the text itself.
pub esc-Shows : (s : String) → Shows (esc s) s
unfolding esc
esc-Shows String.[] = nothing
esc-Shows (String.◌∷◌ c s) = esc_char-Shows c (esc s) s (esc-Shows s)
