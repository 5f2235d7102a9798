-- ===== src/Router/Frames.antt =====
-- memcache_router.cpp: ReceiveOnePacket, SendFrames, SendEmptyPacket and SendAndDeletePacket.
--
-- A message is its frames. `parse` stands for ParseFromArray, which clears the message first, and
-- `serialize` for SerializeToString, `none` where it fails.
use memcache_router.Prelude.{
  Bool, true, false, not, List, [], ◌∷◌, ◌++◌, append_assoc, append-nil, Option, none, some,
  if◌then◌else◌, ◌≡◌, ◌≢◌, refl, All, ap, ◌∙◌,
}
use memcache_router.Prelude.Text.{Text}
use memcache_router.Messages.{Instruction, new_instruction}
use memcache_router.Router.{Packet, has_any}

abbrev pub new_packet : Packet
new_packet = record { frame_ids = []; instruction = new_instruction }

unfoldable pub send_frames : Packet → List Text
send_frames p = p.frame_ids ++ [] ∷ []

unfoldable pub send_empty_packet : Packet → List Text
unfolding send_frames
send_empty_packet p = send_frames p ++ [] ∷ []

unfoldable pub send_packet : (Instruction → Option Text) → Packet → Option (List Text)
unfolding send_frames
send_packet serialize p = elim (serialize p.instruction) [
  | none ↦ none
  | some t ↦ some (send_frames p ++ t ∷ [])
]

module _ (parse : Text → Instruction) where
  unfoldable pub receive_frames : Bool → List Text → Packet → Packet
  receive_frames is_data [] p = p
  receive_frames true (f ∷ fs) p = receive_frames true fs (record p { instruction = parse f })
  receive_frames false (f ∷ fs) p =
      let as_id : Packet =
        receive_frames false fs (record p { frame_ids = p.frame_ids ++ f ∷ [] }) in
      let as_data : Packet = receive_frames true fs p in if has_any f then as_id else as_data

  unfoldable pub receive_one_packet : Bool → List Text → Packet
  unfolding receive_frames
  receive_one_packet multi_frame fs = receive_frames (not multi_frame) fs new_packet

  receive_ids :
      (ids : List Text) (before : List Text) (t : Text)
      → All (λ f. f ≢ []) ids
      → receive_frames false (ids ++ ([] ∷ t ∷ [])) (record new_packet { frame_ids = before })
        ≡ record { frame_ids = before ++ ids; instruction = parse t }
  unfolding receive_frames
  receive_ids [] before t h = rw (append-nil before)
  receive_ids ([] ∷ ids) before t (h, hs) = absurd (h refl)
  receive_ids ((c ∷ f) ∷ ids) before t (h, hs) =
      receive_ids ids (before ++ (c ∷ f) ∷ []) t hs ∙ rw (append_assoc before ((c ∷ f) ∷ []) ids)

  -- A packet whose frame ids are not empty is received as it was sent, if its message can be serialized
  -- and parsed back; and the empty answer to it carries its frame ids.
  pub receive_one_packet-send_packet :
      (serialize : Instruction → Option Text) (p : Packet) (t : Text)
      → All (λ f. f ≢ []) p.frame_ids
      → serialize p.instruction ≡ some t
      → parse t ≡ p.instruction
      → (fs : List Text) × (send_packet serialize p ≡ some fs)
        × (receive_one_packet true fs ≡ p)
        × (receive_one_packet true (send_empty_packet p) ≡ record p { instruction = parse [] })
  unfolding send_packet receive_one_packet send_empty_packet
  receive_one_packet-send_packet serialize p t ids e back = (
    send_frames p ++ t ∷ [],
    rw (e, send_packet),
    received t ∙ ap (λ i. record p { instruction = i }) back,
    received [],
  )
    where
      received :
          (u : Text)
          → receive_frames false ((p.frame_ids ++ [] ∷ []) ++ u ∷ []) new_packet
            ≡ record p { instruction = parse u }
      received u =
          rw (append_assoc p.frame_ids ([] ∷ []) (u ∷ [])) (receive_ids p.frame_ids [] u ids)
