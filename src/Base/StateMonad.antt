-- ===== src/Base/StateMonad.antt =====
-- Methods that act on a state: `State W A` takes the state that it finds and gives back its result and
-- the state that it leaves.

abbrev pub State : Type 0 → Type 0 → Type 0
State W A = W → A × W

module _ {W A : Type 0} where
  unfoldable pub pure : A → State W A
  pure a w = (a, w)

  -- What a method reads of the state.
  unfoldable pub gets : (W → A) → State W A
  gets f w = (f w, w)

module _ {W : Type 0} where
  unfoldable pub modify : (W → W) → State W (Unit {0})
  modify f w = (tt, f w)

module _ {W A B : Type 0} where
  infixl 10 ◌>>=◌ ◌>>◌
  -- Opening this opens `pure`, `gets` and `modify` too.
  unfoldable pub ◌>>=◌ : State W A → (A → State W B) → State W B
  unfolding pure gets modify
  ◌>>=◌ m f w = let (a, w') = m w in f a w'

  abbrev pub ◌>>◌ : State W A → State W B → State W B
  m >> n = m >>= λ _. n

-- A method relates the state that it finds and the state that it leaves, whatever its result.
pub record Runs {W A : Type 0} (R : W → W → Type 0) (m : State W A) : Type 0 where
  pub at : (w : W) → R w (m w).1

-- Such relations compose.
pub record IsPreorder {W : Type 0} (R : W → W → Type 0) : Type 0 where
  pub refl : (w : W) → R w w
  pub trans : (u v w : W) → R u v → R v w → R u w

module _ {W : Type 0} {R : W → W → Type 0} (pre : IsPreorder R) where
  pub Runs-pure : {A : Type 0} (a : A) → Runs R (pure {W = W} a)
  unfolding pure
  Runs-pure a = record { at = λ w. pre.refl w }

  pub Runs-gets : {A : Type 0} (f : W → A) → Runs R (gets f)
  unfolding gets
  Runs-gets f = record { at = λ w. pre.refl w }

  pub Runs-bind :
      {A B : Type 0} (m : State W A) (f : A → State W B)
      → Runs R m
      → ((a : A) → Runs R (f a))
      → Runs R (m >>= f)
  unfolding ◌>>=◌
  Runs-bind m f rm rf = record {
    at = λ w. let (a, w') = m w in pre.trans w w' (f a w').1 (rm.at w) ((rf a).at w');
  }
