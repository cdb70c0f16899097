-- ===== src/Message/Payload/Tests.antt =====
-- An image of two pixels and a tensor as payloads.
use lw_ipc.Base.{ℕ, ◌≡◌, refl, arith, true, some, List, [], ◌∷◌, ◌++◌}
use lw_ipc.Message.{image, make, from_buffer, to_buffer, view_as, verify_checksum}
use lw_ipc.Message.Payload.{
  ImageFrame, Tensor, new_image_frame, new_tensor, image_frame, tensor, rgb8, image_encoding_value,
  size_of, bytes_of, object_of, ControlCmd, control_cmd,
}
use lw_ipc.Message.Payload.Layout.{InRange}
use lw_ipc.Message.Payload.Arrival.{seen, arrival_lem}

abbrev frame : ImageFrame
frame = record (new_image_frame 6) {
  width = 2;
  height = 1;
  stride = 6;
  byte_count = 6;
  channels = 3;
  encoding = image_encoding_value rgb8;
  pixels = 1 ∷ 2 ∷ 3 ∷ 4 ∷ 5 ∷ 6 ∷ [];
}

frame_starts :
    bytes_of (image_frame 6) frame
    ≡ 2 ∷ 0 ∷ 0 ∷ 0 ∷ 1 ∷ 0 ∷ 0 ∷ 0 ∷ 6 ∷ 0 ∷ 0 ∷ 0 ∷ 6 ∷ 0 ∷ 0 ∷ 0 ∷ 3 ∷ 2 ∷ 0 ∷ 0 ∷ 1 ∷ 2 ∷ 3 ∷ 4
      ∷ 5 ∷ 6 ∷ 0 ∷ 0 ∷ []
frame_starts = refl

-- A command that brakes.
abbrev command : ControlCmd
command = record { steering = 0; throttle = 0; brake = 0x3F800000; gear = 3; pad = 0 ∷ 0 ∷ 0 ∷ [] }

command_runs : object_of control_cmd (bytes_of control_cmd command) ≡ command
unfolding object_of
command_runs = refl

abbrev scores : Tensor
scores = record (new_tensor 2) {
  ndim = 1;
  dims = 2 ∷ 0 ∷ 0 ∷ 0 ∷ 0 ∷ 0 ∷ 0 ∷ 0 ∷ [];
  num_elements = 2;
  values = 0x3F800000 ∷ 0 ∷ [];
}

scores_run : object_of (tensor 2) (bytes_of (tensor 2) scores) ≡ scores
unfolding object_of
scores_run = refl

frame-InRange : InRange (image_frame 6) frame
frame-InRange =
    (omega arith, omega arith, omega arith, omega arith, omega arith, omega arith, refl, refl, refl)

abbrev no_gap : List ℕ
no_gap = 0 ∷ 0 ∷ 0 ∷ 0 ∷ []

arrival_lem_example :
    let received =
      from_buffer
        (to_buffer (make no_gap image 7 1000 42 (bytes_of (image_frame 6) frame)) ++ (9 ∷ [])) in
    (verify_checksum received ≡ true)
    × (seen (image_frame 6) (view_as (size_of (image_frame 6)) received) ≡ some frame)
arrival_lem_example =
    arrival_lem (image_frame 6) frame no_gap image 7 1000 42 (9 ∷ []) frame-InRange (omega arith)
      refl (omega arith) (omega arith) (omega arith)
