-- ===== src/Base/Text/Laws.antt =====
-- Prefixes are what they say.
use Prim.Native.Nat.{ℕ}
use Prim.Native.Char.{Char, code}
use Prim.Native.String.{String, [], ◌∷◌, ◌++◌}
use mathlib.Core.Path.{◌≡◌, ap₂, ◌∙◌, sym}
use mathlib.Core.Bool.{true}
use mathlib.Core.Logic.{inl, inr}
use mathlib.Core.Option.{some, some-injective}
use native.Mathlib.Omega.{arith}
use text.Mathlib.TextEquality.{Char-path}
use text.Mathlib.TextLemmas.{nil-append, cons-append}
use deploy_gateway.Base.Tests.{eqb, Bool-cases}
use deploy_gateway.Base.Text.{strip_prefix}

pub eqb_path : (c d : Char) → eqb (code c) (code d) ≡ true → c ≡ d
eqb_path c d h = Char-path c d (ground arith)

pub eqb_refl : (n : ℕ) → eqb n n ≡ true
eqb_refl n = ground arith

-- What follows the prefix is what `strip_prefix` returns.
pub strip_prefix-append : (p r : String) → strip_prefix p (p ++ r) ≡ some r
unfolding strip_prefix
strip_prefix-append [] r = rw nil-append
strip_prefix-append (c ∷ p) r = rw cons-append (rw (eqb_refl (code c)) (strip_prefix-append p r))

pub append_of_strip_prefix : (p s r : String) → strip_prefix p s ≡ some r → s ≡ p ++ r
unfolding strip_prefix
append_of_strip_prefix [] s r h = some-injective s r h ∙ sym (nil-append r)
append_of_strip_prefix (c ∷ p) [] r h = cc
append_of_strip_prefix (c ∷ p) (d ∷ s) r h = elim (Bool-cases (eqb (code c) (code d))) [
  | inl e ↦ rw cons-append (
      ap₂ (λ (x : Char) (t : String). x ∷ t) (sym (eqb_path c d e))
        (append_of_strip_prefix p s r (rw e at h)))
  | inr e ↦ ground arith
]
