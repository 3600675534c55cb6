-- ===== src/Gather/Tests.antt =====
-- Two segments of three and two bytes, of which four are the payload, into a memory container.
use inecontainer.Prelude.{refl, List, [], ◌∷◌, arith}
use inecontainer.Memory.{MemoryContainer}
use inecontainer.Gather.{Segment, save_segments}
use inecontainer.Gather.Sink.{memory_Sink}
use inecontainer.Gather.Save.{Saved, save_segments_lem}

abbrev two_segments : List Segment
two_segments =
    record { base = 1 ∷ 2 ∷ 3 ∷ []; processed_count = 0 }
    ∷ record { base = 4 ∷ 5 ∷ []; processed_count = 0 }
    ∷ []

abbrev zeros : MemoryContainer
zeros = record { memory_buffer = 0 ∷ 0 ∷ []; current_position = 1 }

zeros_room : memory_Sink.HasRoom 4 zeros
unfolding memory_Sink
zeros_room = record {
  valid = record { in_buffer = omega arith; size_small = omega arith };
  count_small = omega arith;
  room = omega arith;
}

save_segments_example :
    Saved memory_Sink 4 two_segments zeros (save_segments memory_Sink.write 4 two_segments zeros)
save_segments_example =
    save_segments_lem memory_Sink 4 two_segments zeros (omega arith) (refl, (refl, tt)) zeros_room
