-- ===== src/Notify/Format.antt =====
-- internal/notify/format.go: the text of a message, in Telegram's HTML.
pub mod Laws
use Prim.Native.Char.{Char, code}
use Prim.Native.String
use deploy_gateway.Base.{
  ℕ, ◌+◌, ◌-◌, ◌/◌, ◌%◌, String, ◌<>◌, ◌==◌, ◌||◌, ◌&&◌, not, Option, none, some, List, [], ◌∷◌,
  ◌++◌, eqb, ltb, if◌then◌else◌,
}
use deploy_gateway.Base.Text.{show, trim_prefix}
use deploy_gateway.Store.{
  Time, second, OperationStatus, running, succeeded, failed, timeout, denied, Operation,
}

-- One character of `esc`: "&", "<" and ">" become entities.
esc_char : Char → String
esc_char c =
    if eqb (code c) b'&'
    then "&amp;"
    else if eqb (code c) b'<'
    then "&lt;"
    else if eqb (code c) b'>'
    then "&gt;"
    else String.◌∷◌ c ""

unfoldable pub esc : String → String
unfolding esc_char
esc String.[] = ""
esc (String.◌∷◌ c s) = esc_char c <> esc s

abbrev pub marker : OperationStatus → String
marker succeeded = "✅"
marker failed = "❌"
marker timeout = "⏱"
marker running = "🟡"
marker denied = "🟡"

run_url : Operation → String
run_url op =
    let url = "https://github.com/" <> (op.repository <> ("/actions/runs" <> ("/" <> op.run_id))) in
    if op.run_attempt == "" then url else url <> ("/attempts/" <> op.run_attempt)

-- `runLink`
unfoldable pub run_link : Operation → String
unfolding esc run_url
run_link op =
    if op.run_id == "" || op.repository == ""
    then ""
    else "<a href=\"" <> (esc (run_url op) <> ("\">run #" <> (esc op.run_id <> "</a>")))

-- `Duration.String` for a number of whole seconds
unfoldable pub duration_text : ℕ → String
unfolding show
duration_text n =
    let seconds = show (n % 60) <> "s" in
    let minutes = show (n / 60 % 60) <> ("m" <> seconds) in
    if ltb n 60
    then seconds
    else if ltb n 3600
    then minutes
    else show (n / 3600) <> ("h" <> minutes)

-- `Round(time.Second)`: halves go up, away from zero.
abbrev pub rounded : ℕ → ℕ
rounded d = (d + 500_000_000) / second

-- `elapsed`, with a sign if the operation was completed before it was requested
unfoldable pub elapsed : Operation → String
unfolding duration_text
elapsed op = elim op.completed_at [
  | none ↦ ""
  | some t ↦
      if ltb t op.requested_at && not (eqb (rounded (op.requested_at - t)) 0)
      then "-" <> duration_text (rounded (op.requested_at - t))
      else duration_text (rounded (t - op.requested_at))
]

-- A line that is there only if its field is not empty.
unfoldable pub optional : String → String → List String
optional field line = if field == "" then [] else line ∷ []

-- `strings.Join(lines, "\n")`
unfoldable pub join_lines : List String → String
join_lines [] = ""
join_lines (l ∷ []) = l
join_lines (l ∷ m ∷ ls) = l <> ("\n" <> join_lines (m ∷ ls))

title_of : Operation → String
unfolding esc
title_of op =
    let title =
      marker op.status
      <> (" <b>"
          <> (esc (trim_prefix op.action "deployment.")
              <> ("</b> · " <> esc (op.namespace <> ("/" <> op.deployment))))) in
    if op.error_code == "" then title else title <> (" — " <> esc op.error_code)

who_of : Operation → String
unfolding esc run_link
who_of op =
    let who = "@" <> esc op.actor in
    if run_link op == "" then who else who <> (" · " <> run_link op)

-- `render`
unfoldable pub render : Operation → String
unfolding title_of who_of elapsed optional join_lines
render op = join_lines (
    (title_of op ∷ [])
    ++ optional op.image ("<code>" <> (esc op.image <> "</code>"))
    ++ optional op.error_message (esc op.error_message)
    ++ (who_of op ∷ [])
    ++ optional (elapsed op) (elapsed op <> (" · <code>" <> (esc op.operation_id <> "</code>"))))
