-- ===== src/Examples/Wire.antt =====
-- anchor-core/src/proto.rs, service.rs and firmware/src/main.rs on concrete frames and messages.
use dsm_unplugged.Common.{
  ℕ, zero, suc, All, append-nil, ◌+◌, ◌≤◌, ◌≡◌, ap, concat, inl, take, refl, ◌↔◌, List, [], ◌∷◌,
  length, replicate, to_vec, none, ok, arith,
}
use dsm_unplugged.Util.{ct_eq_32, u32_le}
use dsm_unplugged.Hash.{h}
use dsm_unplugged.Appliance.{new}
use dsm_unplugged.RootAdvance.{from, as_transition, cert_message}
use dsm_unplugged.Appliance.Operations.{prepare, release_of, prepared_record}
use dsm_unplugged.Proto.{to_release, release_to_pb}
use dsm_unplugged.Proto.Pb
use dsm_unplugged.Proto.RoundTrip.{IsSized, to_release-release_to_pb}
use dsm_unplugged.Proto.Accepted.{to_release-eq_ok}
use dsm_unplugged.Service.{max_frame_len}
use dsm_unplugged.Firmware.Receive.{max_rx_frame, framed, buffered, Served, receive_all, receive}
use dsm_unplugged.Firmware.Reassembly.{receive_all-framed}
use dsm_unplugged.Firmware.Port.{receive_all_on}
use mathlib.Core.List.{map}
use dsm_unplugged.Firmware.Served.{answers}
use dsm_unplugged.Firmware.Port.Writes.{IsFine}
use dsm_unplugged.Firmware.Port.Exchanges.{
  Sending, IsWhole, frames_of, chunks_of, AnswersAll, receive_all_on-AnswersAll,
}
use dsm_unplugged.Firmware.Port.Serving.{
  Delivers, receive_all_on-Delivers, Proceeds, receive_all_on-Proceeds,
}
use dsm_unplugged.Firmware.Framing.{IsDrained, receive_bound, receive-IsDrained}
use dsm_unplugged.Firmware.Output.{
  WriteResult, wrote, would_block, failed, all_sent, write_all, capacity, write_all_lem,
  buffer_size, write_pieces, write_pieces_lem,
}
use dsm_unplugged.Examples.{length_hash, counter_chip, plain_sig, byte_prost}
use dsm_unplugged.Examples.Device.{release2}

release2-IsSized : IsSized release2
unfolding release_of from prepared_record as_transition to_vec cert_message h prepare new ct_eq_32
release2-IsSized = record {
  transition_size = record {
    action_fields_size = omega arith;
    old_leaf_proof_size = omega arith;
    new_leaf_proof_size = omega arith;
  };
  pk_hw_size = omega arith;
  sigma_size = omega arith;
  slot_size = omega arith;
  transcript_size = omega arith;
}

to_release-release_to_pb_example : to_release (release_to_pb release2) ≡ ok release2
to_release-release_to_pb_example = to_release-release_to_pb release2 release2-IsSized

to_release-eq_ok_example : (release_to_pb release2 ≡ release_to_pb release2) × IsSized release2
to_release-eq_ok_example =
    to_release-eq_ok (release_to_pb release2) release2
      (to_release-release_to_pb release2 release2-IsSized)

abbrev commit_frame : List ℕ
commit_frame = 2 ∷ []

abbrev long_frame : List ℕ
long_frame = replicate (max_frame_len + 1) 0

abbrev commit_request : Pb.ApplianceRequest
commit_request = record { op = 2; transition = none; receiver_challenge = [] }

receive_bound_example :
    (length (buffered (1 ∷ []) (0 ∷ 0 ∷ 0 ∷ 7 ∷ [])) ≤ max_rx_frame + 4)
    × (length (receive (λ (n : ℕ) (f : List ℕ). (f, suc n)) 0 (1 ∷ []) (0 ∷ 0 ∷ 0 ∷ 7 ∷ [])).rx
        ≤ length (buffered (1 ∷ []) (0 ∷ 0 ∷ 0 ∷ 7 ∷ [])))
receive_bound_example =
    receive_bound (λ (n : ℕ) (f : List ℕ). (f, suc n)) 0 (1 ∷ []) (0 ∷ 0 ∷ 0 ∷ 7 ∷ []) (omega arith)

abbrev echo : ℕ → List ℕ → List ℕ × ℕ
echo n f = (f, suc n)

abbrev byte_frame : List ℕ
byte_frame = 7 ∷ []

abbrev chunks : List (List ℕ)
chunks = (1 ∷ 0 ∷ []) ∷ [] ∷ (0 ∷ []) ∷ (0 ∷ 7 ∷ []) ∷ []

whole_arrives : concat chunks ≡ framed byte_frame
unfolding framed u32_le to_vec
whole_arrives = refl

receive-IsDrained_example : IsDrained (receive echo 0 (1 ∷ []) (0 ∷ 0 ∷ 0 ∷ 7 ∷ [])).rx
receive-IsDrained_example =
    receive-IsDrained echo 0 (1 ∷ []) (0 ∷ 0 ∷ 0 ∷ 7 ∷ []) (inl (omega arith))

-- A port that takes one byte, is busy, and takes the rest.
abbrev port : List WriteResult
port = wrote 1 ∷ would_block ∷ wrote 2 ∷ []

abbrev data3 : List ℕ
data3 = 7 ∷ 8 ∷ 9 ∷ []

write_all_lem_example :
    ((write_all port data3).out ≡ take (capacity port) data3)
    × (((write_all port data3).end ≡ all_sent) ↔ (length data3 ≤ capacity port))
write_all_lem_example = write_all_lem port data3

write_pieces_lem_example :
    (write_pieces [] (long_frame ∷ data3 ∷ [])
      ≡ take buffer_size (concat (long_frame ∷ data3 ∷ [])))
    × (length (write_pieces [] (long_frame ∷ data3 ∷ [])) ≤ buffer_size)
write_pieces_lem_example = write_pieces_lem (long_frame ∷ data3 ∷ [])

-- A port that takes byte after byte.
abbrev slow_port : List WriteResult
slow_port = wrote 1 ∷ would_block ∷ wrote 1 ∷ wrote 1 ∷ would_block ∷ wrote 2 ∷ wrote 1 ∷ []

five_bytes : length (receive_all echo 0 [] chunks).sent ≡ length (framed byte_frame)
five_bytes =
    ap (λ (o : Served ℕ). length o.sent)
      (receive_all-framed echo 0 chunks byte_frame whole_arrives (omega arith))

receive_all_on-Delivers_example :
    Delivers echo 0 (receive_all echo 0 [] chunks) (receive_all_on echo slow_port 0 [] chunks)
unfolding framed to_vec u32_le
receive_all_on-Delivers_example =
    receive_all_on-Delivers echo slow_port 0 [] chunks (tt, (tt, (tt, (tt, (tt, (tt, (tt, tt)))))))
      (omega (arith, five_bytes))

-- A port that fails inside the length prefix.
abbrev failing_port : List WriteResult
failing_port = wrote 1 ∷ failed ∷ wrote 1 ∷ wrote 1 ∷ wrote 1 ∷ wrote 1 ∷ []

receive_all_on-Proceeds_example :
    Proceeds echo 0 (receive_all echo 0 [] chunks) (receive_all_on echo failing_port 0 [] chunks)
unfolding framed to_vec u32_le
receive_all_on-Proceeds_example =
    receive_all_on-Proceeds echo failing_port 0 [] chunks (omega (arith, five_bytes))

-- Two frames, one after the other, and a port that takes two bytes at a time.
abbrev two_sendings : List Sending
two_sendings =
    record { frame = byte_frame; chunks = chunks }
    ∷ record { frame = byte_frame; chunks = framed byte_frame ∷ [] }
    ∷ []

abbrev steady_port : List WriteResult
steady_port = replicate 10 (wrote 2)

IsFine-replicate : (n : ℕ) → All IsFine (replicate n (wrote 2))
IsFine-replicate zero = tt
IsFine-replicate (suc n) = (tt, IsFine-replicate n)

ten_bytes : length (concat (map framed (answers echo 0 (frames_of two_sendings)))) ≡ 10
unfolding framed to_vec u32_le
ten_bytes = refl

two_sendings-IsWhole : All IsWhole two_sendings
two_sendings-IsWhole = (
  record { arrives = whole_arrives; small = omega arith },
  (record { arrives = append-nil (framed byte_frame); small = omega arith }, tt),
)

receive_all_on-AnswersAll_example :
    AnswersAll echo 0
      (frames_of two_sendings)
      (receive_all_on echo steady_port 0 [] (chunks_of two_sendings))
receive_all_on-AnswersAll_example =
    receive_all_on-AnswersAll echo 0 two_sendings steady_port two_sendings-IsWhole
      (IsFine-replicate 10) (omega (arith, ten_bytes))
