-- ===== src/Tests/Patches.antt =====
-- The Kubernetes client on an API server whose first answer is a conflict.
use deploy_gateway.Base.{
  ℕ, zero, suc, ◌+◌, ◌*◌, ◌==◌, ◌≡◌, ◌≢◌, refl, sym, ap, Bool, true, false, not, Option, none, some,
  [], GoError, ok, new_error, arith, eqb, if◌then◌else◌,
}
use deploy_gateway.Base.Text.{quote, escaped_onto, short_escape, control_onto, hex_onto, digit}
use deploy_gateway.Store.{second}
use deploy_gateway.Store.InMemory.{new_in_memory}
use deploy_gateway.Kube.Stamp.{restart_stamp}
use deploy_gateway.Kube.Stamp.Laws.{restart_stamp-distinct}
use deploy_gateway.Kube.Patch.{rollout_patch}
use deploy_gateway.Kube.Client.{Deployments}
use deploy_gateway.Kube.Client.Laws.{Retries, Tries, last_try, next_try}
use deploy_gateway.Manager.World.{World}
use deploy_gateway.Manager.Cluster.{client_platform}
use deploy_gateway.Tests.Lab.{rolled_out}

abbrev is_conflict : GoError → Bool
is_conflict e = e.message == "conflict"

-- What follows a try.
abbrev retry_after : (ℕ → Option GoError × ℕ) → Option GoError × ℕ → Option GoError × ℕ
retry_after next (none, s) = (none, s)
retry_after next (some e, s) = if is_conflict e then next s else (some e, s)

abbrev retry : ℕ → (ℕ → Option GoError × ℕ) → ℕ → Option GoError × ℕ
retry zero f s = f s
retry (suc n) f s = retry_after (retry n f) (f s)

-- The state is the clock; a patch takes a second, and one at a time of ten seconds meets a conflict.
abbrev server : Deployments
server = record {
  is_print = λ n. not (eqb n 8203);
  State = ℕ;
  patch = λ ns name body t.
      (if eqb t (10 * second) then some (new_error "conflict") else none, t + second);
  get = λ ns name t. (ok rolled_out, t);
  watch = λ ns selector t. (ok [], t);
  clock = λ t. t;
  retry_on_conflict = retry 3;
  is_conflict = is_conflict;
}

retry_after-Tries :
    (next f : ℕ → Option GoError × ℕ) (s : ℕ) (r : Option GoError × ℕ)
    → f s ≡ r
    → ((t : ℕ) → Tries server f (next t) t)
    → Tries server f (retry_after next r) s
retry_after-Tries next f s (none, t) h k = last_try (sym h)
retry_after-Tries next f s (some e, t) h k = by_kind (is_conflict e) refl
  where
    by_kind : (b : Bool) → is_conflict e ≡ b → Tries server f (if b then next t else (some e, t)) s
    by_kind true c = next_try (ap (λ x. x.0) h) c (k t)
    by_kind false c = last_try (sym h)

retry-Tries : (n : ℕ) (f : ℕ → Option GoError × ℕ) (s : ℕ) → Tries server f (retry n f s) s
retry-Tries zero f s = last_try refl
retry-Tries (suc n) f s = retry_after-Tries (retry n f) f s (f s) refl (λ t. retry-Tries n f t)

abbrev server-Retries : Retries server
server-Retries = record { tries = retry-Tries 3 }

abbrev on_server : World new_in_memory (client_platform server (λ d t. t + d) (λ t. false))
on_server = record { store = []; platform = 10 * second; notices = []; watchers = [] }

restart_stamp-distinct_example : restart_stamp (10 * second + 1) ≢ restart_stamp (10 * second + 20)
restart_stamp-distinct_example =
    restart_stamp-distinct (10 * second + 1) (10 * second + 20) refl (λ e. omega arith)

-- A zero-width space is not printable.
quoted_space : quote server.is_print "a\u{200b}" ≡ "\"a\\u200b\""
unfolding quote escaped_onto short_escape control_onto hex_onto digit
quoted_space = refl

stamp_text : restart_stamp (1_753_005_845 * second + 120_000_000) ≡ "2025-07-20T10:04:05.12Z"
unfolding restart_stamp
stamp_text = refl

leap_day : restart_stamp (951_782_400 * second) ≡ "2000-02-29T00:00:00Z"
unfolding restart_stamp
leap_day = refl

quoted_patch :
    rollout_patch (λ n. true) "now" "we\"b" "web:3"
    ≡ "{\"spec\":{\"template\":{\"metadata\":{\"annotations\":{\"kubectl.kubernetes.io/restartedAt\":\"now\"}},\"spec\":{\"containers\":[{\"name\":\"we\\\"b\",\"image\":\"web:3\"}]}}}}"
unfolding rollout_patch escaped_onto short_escape control_onto
quoted_patch = refl
