-- ===== src/Kube/Patch/Laws.antt =====
-- What the API server reads in a patch.
use deploy_gateway.Base.{
  ℕ, Bool, String, ◌<>◌, ◌==◌, ◌≡◌, refl, true, false, ◌&&◌, Option, none, some, if◌then◌else◌,
}
use deploy_gateway.Base.Text.{quote, strip_prefix}
use deploy_gateway.Base.Text.Laws.{strip_prefix-append}
use deploy_gateway.Kube.Patch.{before_stamp, before_container, before_image, rollout_patch}
use deploy_gateway.Kube.Patch.Json.{read_json, read_json-quote, is_json_text}

abbrev json_behind : Option String → Option (String × String)
json_behind none = none
json_behind (some rest) = read_json rest

-- A fixed text, and the JSON text behind it.
abbrev read_field : String → String → Option (String × String)
read_field p s = json_behind (strip_prefix p s)

-- The three texts of a body that has the fixed parts of a rollout's patch.
read_image : String → String → Option (String × String) → Option (String × String × String)
read_image stamp container none = none
read_image stamp container (some (image, rest)) =
    if rest == "}]}}}}" then some (stamp, container, image) else none

read_container : String → Option (String × String) → Option (String × String × String)
unfolding read_image
read_container stamp none = none
read_container stamp (some (container, rest)) =
    read_image stamp container (read_field before_image rest)

read_stamp : Option (String × String) → Option (String × String × String)
unfolding read_container
read_stamp none = none
read_stamp (some (stamp, rest)) = read_container stamp (read_field before_container rest)

pub read_rollout : String → Option (String × String × String)
unfolding read_stamp
read_rollout body = read_stamp (read_field before_stamp body)

module _ (is_print : ℕ → Bool) where
  read_field-quote :
      (p s t : String)
      → is_json_text is_print s ≡ true
      → read_field p (p <> (quote is_print s <> t)) ≡ some (s, t)
  read_field-quote p s t h = rw (strip_prefix-append p) (read_json-quote is_print s t h)

  pub read_rollout-rollout_patch :
      (stamp container image : String)
      → is_json_text is_print stamp ≡ true
      → is_json_text is_print container ≡ true
      → is_json_text is_print image ≡ true
      → read_rollout (rollout_patch is_print stamp container image) ≡ some (stamp, container, image)
  unfolding read_rollout read_stamp read_container read_image rollout_patch
  read_rollout-rollout_patch stamp container image h k l =
      rw
        (
          read_field-quote before_stamp stamp _ h,
          read_field-quote before_container container _ k,
          read_field-quote before_image image _ l,
        )
        refl

  -- What a reader of JSON finds in the body of a rollout's patch: the three texts, each at its place; or
  -- one of them has a character whose escape by `%q` JSON does not have.
  pub data Says (body stamp container image : String) : Type 0 where
    reads : read_rollout body ≡ some (stamp, container, image) → Says body stamp container image
    no_json :
        (is_json_text is_print stamp
            && (is_json_text is_print container && is_json_text is_print image))
          ≡ false
        → Says body stamp container image

  pub rollout_patch-Says :
      (stamp container image : String)
      → Says (rollout_patch is_print stamp container image) stamp container image
  rollout_patch-Says stamp container image =
      by_texts (is_json_text is_print stamp) (is_json_text is_print container)
        (is_json_text is_print image) refl refl refl
    where
      by_texts :
          (a b c : Bool)
          → is_json_text is_print stamp ≡ a
          → is_json_text is_print container ≡ b
          → is_json_text is_print image ≡ c
          → Says (rollout_patch is_print stamp container image) stamp container image
      by_texts true true true h k l = reads (read_rollout-rollout_patch stamp container image h k l)
      by_texts false b c h k l = no_json (rw h refl)
      by_texts true false c h k l = no_json (rw (h, k) refl)
      by_texts true true false h k l = no_json (rw (h, k, l) refl)
