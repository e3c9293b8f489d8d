-- ===== src/Kube/Stamp/Laws.antt =====
-- The stamps of one second differ, whichever nanoseconds they are at.
use Prim.Native.Char.{code}
use text.Mathlib.TextLemmas.{append_cancel_left, append_cancel_right}
use deploy_gateway.Base.{
  ℕ, zero, suc, ◌+◌, ◌-◌, ◌*◌, ◌/◌, ◌%◌, ◌<◌, ◌≡◌, ◌≢◌, refl, sym, ap, ◌∙◌, String, Bool, true,
  false, eqb, arith, if◌then◌else◌,
}
use deploy_gateway.Base.Text.{digit}
use deploy_gateway.Store.{Time, second}
use deploy_gateway.Kube.Stamp.{date_time, fraction_onto, with_point, restart_stamp}

-- The digits read from the left, as if zeros followed up to a width.
read : ℕ → String → ℕ → ℕ
read zero s n = n
read (suc width) String.[] n = read width "" (n * 10)
read (suc width) (String.◌∷◌ c s) n = read width s (n * 10 + (code c - 48))

-- The number `n` with the last digits of `m` behind it.
glue : ℕ → ℕ → ℕ → ℕ
glue zero n m = n
glue (suc k) n m = glue k n (m / 10) * 10 + m % 10

code-digit : (d : ℕ) → d < 10 → code (digit d) - 48 ≡ d
unfolding digit
code-digit zero h = refl
code-digit (suc zero) h = refl
code-digit (suc (suc zero)) h = refl
code-digit (suc (suc (suc zero))) h = refl
code-digit (suc (suc (suc (suc zero)))) h = refl
code-digit (suc (suc (suc (suc (suc zero))))) h = refl
code-digit (suc (suc (suc (suc (suc (suc zero)))))) h = refl
code-digit (suc (suc (suc (suc (suc (suc (suc zero))))))) h = refl
code-digit (suc (suc (suc (suc (suc (suc (suc (suc zero)))))))) h = refl
code-digit (suc (suc (suc (suc (suc (suc (suc (suc (suc zero))))))))) h = refl
code-digit (suc (suc (suc (suc (suc (suc (suc (suc (suc (suc d)))))))))) h = omega arith

read-fraction_onto :
    (k j n m : ℕ) (tail : String)
    → read (k + j) (fraction_onto k m tail) n ≡ read j tail (glue k n m)
unfolding fraction_onto read glue
read-fraction_onto zero j n m tail = let e : 0 + j ≡ j = omega arith in rw e refl
read-fraction_onto (suc k) j n m String.[] =
    let e : suc k + j ≡ k + suc j = omega arith in
    rw e (read-fraction_onto k (suc j) n (m / 10) _ ∙ last (eqb (m % 10) 0) refl)
  where
    last :
        (b : Bool)
        → eqb (m % 10) 0 ≡ b
        → read (suc j) (if b then "" else String.◌∷◌ (digit (m % 10)) "") (glue k n (m / 10))
          ≡ read j "" (glue k n (m / 10) * 10 + m % 10)
    last true z =
        let zero_digit : m % 10 ≡ 0 = ground arith in
        let same : glue k n (m / 10) * 10 ≡ glue k n (m / 10) * 10 + 0 = omega arith in
        rw zero_digit (ap (read j "") same)
    last false z = rw (code-digit (m % 10) (omega arith)) refl
read-fraction_onto (suc k) j n m (String.◌∷◌ c tail) =
    let e : suc k + j ≡ k + suc j = omega arith in
    rw e (read-fraction_onto k (suc j) n (m / 10) _ ∙ rw (code-digit (m % 10) (omega arith)) refl)

-- The number has at most `k` digits.
Short : ℕ → ℕ → Type 0
Short zero n = n ≡ 0
Short (suc k) n = Short k (n / 10)

glue-Short : (k n : ℕ) → Short k n → glue k 0 n ≡ n
unfolding glue Short
glue-Short zero n h = sym h
glue-Short (suc k) n h = rw (glue-Short k (n / 10) h) (omega arith)

nine_digits : (n : ℕ) → n < second → Short 9 n
unfolding Short
nine_digits n h = omega arith

read-fraction : (n : ℕ) → n < second → read 9 (fraction_onto 9 n "") 0 ≡ n
unfolding read
read-fraction n h = read-fraction_onto 9 0 0 n "" ∙ glue-Short 9 n (nine_digits n h)

no_point : String → String
no_point String.[] = ""
no_point (String.◌∷◌ c s) = s

no_point-with_point : (s : String) → no_point (with_point s) ≡ s
unfolding no_point
no_point-with_point String.[] = refl
no_point-with_point (String.◌∷◌ c s) = refl

restart_stamp-injective :
    (t u : Time) → t / second ≡ u / second → restart_stamp t ≡ restart_stamp u → t ≡ u
unfolding restart_stamp
restart_stamp-injective t u same h =
    let g = rw same at h in
    let tails = append_cancel_left (date_time (u / second)) _ _ g in
    let points = append_cancel_right _ _ "Z" tails in
    let digits =
      sym (no_point-with_point (fraction_onto 9 (t % second) ""))
      ∙ ap no_point points
      ∙ no_point-with_point (fraction_onto 9 (u % second) "") in
    let nanoseconds : t % second ≡ u % second =
      sym (read-fraction (t % second) (omega arith))
      ∙ ap (λ s. read 9 s 0) digits
      ∙ read-fraction (u % second) (omega arith) in
    omega arith

-- Two restarts within one second, at different nanoseconds, have different stamps.
pub restart_stamp-distinct :
    (t u : Time) → t / second ≡ u / second → t ≢ u → restart_stamp t ≢ restart_stamp u
restart_stamp-distinct t u same differ h = differ (restart_stamp-injective t u same h)
