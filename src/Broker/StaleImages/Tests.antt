-- ===== src/Broker/StaleImages/Tests.antt =====
-- Runs of the sweep (stale-image-cleanup.ts) on concrete images.
use docker_webmail_gui.Broker.StaleImages.{
  RawImage, Remover, is_stale_panel_image, is_leftover, digit_groups, last_colon, has_slash,
  split_tag, stale_tags, sweep, remove_tags, remove_stale_panel_images,
}
use docker_webmail_gui.Broker.StaleImages.Facts.{
  IsEarlier, tags_one, is_stale_panel_image-IsEarlier, remove_stale_panel_images-Leftover,
}
use docker_webmail_gui.Common.{String, ◌≡◌, refl, true, [], ◌∷◌, All}

abbrev repository : String
repository = "reg:5000/panel"

abbrev old_image : RawImage
old_image = record { id = "sha256:1"; repo_tags = "reg:5000/panel:0.9.1" ∷ [] }

abbrev new_image : RawImage
new_image = record { id = "sha256:2"; repo_tags = "reg:5000/panel:0.10.0" ∷ [] }

abbrev agrees : Remover
agrees removed reference = true

stale_old : is_stale_panel_image old_image (repository ∷ []) "0.10.0" ≡ true
unfolding is_stale_panel_image stale_tags split_tag last_colon has_slash digit_groups
stale_old = refl

sweeps :
    remove_stale_panel_images agrees (new_image ∷ old_image ∷ []) [] (repository ∷ []) "0.10.0"
    ≡ "reg:5000/panel:0.9.1" ∷ []
unfolding remove_stale_panel_images sweep remove_tags is_stale_panel_image stale_tags split_tag
    last_colon has_slash digit_groups
sweeps = refl

is_stale_panel_image-IsEarlier_example : IsEarlier old_image (repository ∷ []) "0.10.0"
is_stale_panel_image-IsEarlier_example =
    is_stale_panel_image-IsEarlier old_image (repository ∷ []) "0.10.0" stale_old

remove_stale_panel_images-Leftover_example :
    All
      (λ t.
        tags_one (is_leftover [] (repository ∷ []) "0.10.0") (new_image ∷ old_image ∷ []) t ≡ true)
      (remove_stale_panel_images agrees (new_image ∷ old_image ∷ []) [] (repository ∷ []) "0.10.0")
remove_stale_panel_images-Leftover_example =
    remove_stale_panel_images-Leftover agrees (new_image ∷ old_image ∷ []) [] (repository ∷ [])
      "0.10.0"
