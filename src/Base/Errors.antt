-- ===== src/Base/Errors.antt =====
-- Go's `error` values: the sentinel that `errors.Is` finds, and the text.
use Prim.Native.String.{String, ◌++◌}
use mathlib.Core.Bool.{Bool, true, false}

-- `plain` is any error that wraps no sentinel.
pub data ErrKind : Type 0 where
  plain not_found already_terminal ambiguous_container canceled malformed_ref no_subject : ErrKind

pub record GoError : Type 0 where
  pub kind : ErrKind
  pub message : String

-- A value or an error.
pub data Result {ℓ} (A : Type ℓ) : Type ℓ where
  ok : A → Result A
  err : GoError → Result A

-- `errors.New` and `fmt.Errorf` with no `%w`
abbrev pub new_error : String → GoError
new_error text = record { kind = plain; message = text }

-- `fmt.Errorf("context: %w", e)`: the sentinel stays visible.
abbrev pub wrap : String → GoError → GoError
wrap context e = record e { message = context ++ (": " ++ e.message) }

-- `errors.Is(e, S)`, for each sentinel that the program tests
abbrev pub is_not_found : GoError → Bool
is_not_found e = elim e.kind [ not_found ↦ true | _ ↦ false ]

abbrev pub is_already_terminal : GoError → Bool
is_already_terminal e = elim e.kind [ already_terminal ↦ true | _ ↦ false ]

abbrev pub is_ambiguous : GoError → Bool
is_ambiguous e = elim e.kind [ ambiguous_container ↦ true | _ ↦ false ]

abbrev pub is_canceled : GoError → Bool
is_canceled e = elim e.kind [ canceled ↦ true | _ ↦ false ]

abbrev pub is_no_subject : GoError → Bool
is_no_subject e = elim e.kind [ no_subject ↦ true | _ ↦ false ]
