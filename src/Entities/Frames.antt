-- ===== src/Entities/Frames.antt =====
-- Camera images (entities.go): the chunks of an image are put together until one is marked done.
use esphome_apiclient.Common.{ℕ, ◌≡◌, ◌⊎◌, none, some, true, false, arith, append_assoc}
use esphome_apiclient.Common.{List, [], ◌∷◌, ◌++◌}
use esphome_apiclient.Pb.States.{CameraImageResponse}
use esphome_apiclient.Entities.Readings.{CameraEntity, update_camera}

-- The messages of one camera, in the order of arrival.
abbrev pub receive : List CameraImageResponse → CameraEntity → CameraEntity
receive [] e = e
receive (m ∷ ms) e = receive ms (update_camera m e)

-- The messages of one image that carry the chunks `cs`: every message but the last is not done.
pub data Image : List CameraImageResponse → List ℕ → Type 0 where
  last_chunk :
      (m : CameraImageResponse) (c : List ℕ) → m.content ≡ some c → m.done ≡ true → Image (m ∷ []) c
  more_chunks :
      (m : CameraImageResponse) (c : List ℕ) (ms : List CameraImageResponse) (rest : List ℕ)
      → m.content ≡ some c
      → m.done ≡ false
      → Image ms rest
      → Image (m ∷ ms) (c ++ rest)

-- The camera is between two images.
abbrev pub IsIdle : CameraEntity → Type 0
IsIdle e = (e.image_done ≡ true) ⊎ (e.image_data ≡ none)

continue-Image :
    {ms : List CameraImageResponse} {cs : List ℕ} (e : CameraEntity) (held : List ℕ)
    → Image ms cs
    → e.image_done ≡ false
    → e.image_data ≡ some held
    → ((receive ms e).image_data ≡ some (held ++ cs)) × ((receive ms e).image_done ≡ true)
unfolding update_camera
continue-Image e held (last_chunk m c content done) busy has = ground arith
continue-Image e held (more_chunks m c ms rest content more image) busy has =
    ground (arith, continue-Image (update_camera m e) (held ++ c) image, append_assoc held c rest)

-- From a camera that is done with its last image, or has no image data, the messages of one image, all
-- but the last not done, leave the chunks put together as the image and mark it done.
pub receive-Image :
    {ms : List CameraImageResponse} {cs : List ℕ} (e : CameraEntity)
    → Image ms cs
    → IsIdle e
    → ((receive ms e).image_data ≡ some cs) × ((receive ms e).image_done ≡ true)
unfolding update_camera
receive-Image e (last_chunk m c content done) idle = ground arith
receive-Image e (more_chunks m c ms rest content more image) idle =
    ground (arith, continue-Image (update_camera m e) c image)
