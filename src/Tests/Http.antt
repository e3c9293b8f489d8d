-- ===== src/Tests/Http.antt =====
-- A Bot API whose connection breaks once, with the URL in the error.
use deploy_gateway.Base.{
  ℕ, ◌+◌, ◌*◌, ◌≡◌, refl, Bool, true, false, none, String, ok, err, new_error, eqb, if◌then◌else◌,
}
use deploy_gateway.Store.{second}
use deploy_gateway.Notify.Transport.{send_message, call}
use deploy_gateway.Notify.Http.{Http, Transport, url_of, http_api}
use deploy_gateway.Notify.Http.Laws.{GivesSame, Interchangeable, call_same}
use deploy_gateway.Tests.Chat.{answer}

abbrev breaking : Http
breaking = record {
  State = ℕ;
  clock = λ h. h;
  elapse = λ d h. h + d;
  marshal = λ payload. ok "{}";
  new_request = λ url. none;
  send = λ url body h. (if eqb h 0 then err (new_error url) else ok (200, body), h + second);
  decode = λ body. ok answer;
}

abbrev bot : String → Transport
bot token = record { base_url = "https://api.telegram.org"; token = token }

breaks_alike :
    (b : Bool) (url url' body : String)
    → GivesSame
        (if b then err (new_error url) else ok (200, body))
        (if b then err (new_error url') else ok (200, body))
breaks_alike true url url' body = tt
breaks_alike false url url' body = refl

abbrev interchangeable : Interchangeable breaking (bot "1:a") (bot "2:b")
interchangeable = record {
  Agree = λ h k. h ≡ k;
  clock-same = λ e. e;
  elapse-Agree = λ d e. rw e refl;
  requests = λ payload. tt;
  answers = λ payload body {h} {k} e. (
    rw e (breaks_alike (eqb k 0) (url_of (bot "1:a") payload) (url_of (bot "2:b") payload) body),
    rw e refl,
  );
}

call_same_example :
    (call (http_api breaking (bot "1:a")) (30 * second) (send_message "-1" "text") 0).0
    ≡ (call (http_api breaking (bot "2:b")) (30 * second) (send_message "-1" "text") 0).0
call_same_example =
    call_same breaking (bot "1:a") (bot "2:b") interchangeable (30 * second)
      (send_message "-1" "text") 0 0 refl
