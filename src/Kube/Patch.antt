-- ===== src/Kube/Patch.antt =====
-- The bodies of the patches of internal/kube/client.go.
pub mod Json
pub mod Laws
use deploy_gateway.Base.{ℕ, String, Bool, ◌<>◌}
use deploy_gateway.Base.Text.{quote}

-- The texts between the `%q` of the two formats.
abbrev pub before_stamp : String
before_stamp =
    "{\"spec\":{\"template\":{\"metadata\":{\"annotations\":{\"kubectl.kubernetes.io/restartedAt\":"

abbrev pub before_container : String
before_container = "}},\"spec\":{\"containers\":[{\"name\":"

abbrev pub before_image : String
before_image = ",\"image\":"

-- The patch of `RestartDeployment`
unfoldable pub restart_patch : (ℕ → Bool) → String → String
unfolding quote
restart_patch is_print stamp = before_stamp <> (quote is_print stamp <> "}}}}}")

-- The patch of `RolloutDeployment`
unfoldable pub rollout_patch : (ℕ → Bool) → String → String → String → String
unfolding quote
rollout_patch is_print stamp container image =
    before_stamp
    <> (quote is_print stamp
        <> (before_container
            <> (quote is_print container <> (before_image <> (quote is_print image <> "}]}}}}")))))
