-- ===== src/Examples/Streams.antt =====
-- H2 streams on a host in memory.
use muxly.Base.{
  ℕ, ◌+◌, true, length, if◌then◌else◌, ◌==◌, ◌≡◌, refl, arith, Bool, false, List, [], ◌∷◌, ◌++◌,
  Bytes, codes, same,
}
use muxly.Outcome.{ok, err, external}
use muxly.Host.{Io}
use muxly.Decoder.{
  read_h2_request_body, read_chunks, new, take_chunk, push_chunk, drain_lines, one_message,
}
use muxly.Decoder.Output.{printed}
use muxly.Std.Str.{split_once}
use muxly.Lane.{root, classify_upstream_lane_key}
use muxly.Stream.{
  H2, acquire_body, release_body, acquire_lane, release_lane, Task, run_h2_stream,
  forward_responses,
}
use muxly.Stream.Calls.{protocol, run_h2_stream-protocol}
use muxly.Stream.Responses.{Sends, forwarded, outcome, forward_responses-forwarded}
use muxly.Examples.Memory.{
  Memory, memory, memory_readable, MemoryDelivers, write_all_memory, with_input,
}
use muxly.Examples.Lanes.{trees}

-- What has been sent on stream k + 1000 tells whether stream k has ended.
abbrev send_in_memory : ℕ → Bytes → Bool → Io Memory (Unit {0})
send_in_memory k bytes end_of_stream w =
    if length (w.outgoing (k + 1000)) == 0
    then write_all_memory k bytes
        (if end_of_stream then (write_all_memory (k + 1000) (codes "end") w).1 else w)
    else (err (external 1), w)

abbrev memory_h2 : H2 memory
memory_h2 = record { send_response = λ respond status w. (ok 2, w); send_data = send_in_memory }

abbrev IsOpen : Memory → ℕ → Type 0
IsOpen w k = (length (w.outgoing (k + 1000)) == 0) ≡ true

taken :
    (w : Memory) (k send : ℕ) (s bytes : Bytes) (end_of_stream : Bool)
    → IsOpen w send
    → MemoryDelivers w k s
    → (w' : Memory) × (send_in_memory send bytes end_of_stream w ≡ (ok tt, w'))
      × (w'.outgoing send ≡ w.outgoing send ++ bytes)
      × MemoryDelivers w' k s
taken w k send s bytes end_of_stream o d =
    ((send_in_memory send bytes end_of_stream w).1, ground arith, ground arith, ground arith)

send_in_memory-IsOpen :
    (w : Memory) (send : ℕ) (bytes : Bytes)
    → IsOpen w send
    → IsOpen (send_in_memory send bytes false w).1 send
send_in_memory-IsOpen w send bytes o = ground arith

abbrev memory_sends : Sends memory memory_h2 memory_readable
memory_sends = record {
  IsOpen = IsOpen;
  sent = λ w k. w.outgoing k;
  read_until_open = λ w k send limit d o. o;
  read_until_sent = λ w k send limit d. refl;
  send_data_law = taken;
  send_data_open = send_in_memory-IsOpen;
}

-- A second end is an error.
ended_twice :
    (send_in_memory 2 [] true (send_in_memory 2 [] true (with_input [])).1).0 ≡ err (external 1)
ended_twice = refl

abbrev answers : List Bytes
answers = codes "{}" ∷ codes "[]" ∷ []

forward_responses-forwarded_example :
    (w' : Memory) × (forward_responses memory memory_h2 3 0 2 100 false
        (with_input (printed answers))
      ≡ (outcome false answers, w'))
    × (w'.outgoing 2 ≡ (with_input (printed answers)).outgoing 2 ++ forwarded answers)
unfolding printed
forward_responses-forwarded_example =
    forward_responses-forwarded memory_sends answers 3 0 2 100 (with_input (printed answers))
      (omega arith) (omega arith) (((omega arith, omega arith), ((omega arith, omega arith), tt)))
      refl refl

abbrev fresh_task : Task Memory
fresh_task = record { world = with_input []; calls = [] }

-- A request that is no JSON, on the lane of the root, and one to another path.
run_h2_stream-protocol_example :
    (run_h2_stream memory memory_h2 trees 5
      (codes "/rpc")
      (ok (codes "ping\n") ∷ [])
      0
      (codes "/sock")
      (codes "/rpc")
      100
      7
      fresh_task).1.calls
    ≡ []
      ++ protocol trees
          (same (codes "/rpc") (codes "/rpc"))
          (read_h2_request_body (ok (codes "ping\n") ∷ []) 100)
          7
run_h2_stream-protocol_example =
    run_h2_stream-protocol memory memory_h2 trees 5 (codes "/rpc") (ok (codes "ping\n") ∷ []) 0
      (codes "/sock") (codes "/rpc") 100 7 fresh_task

ping_calls :
    protocol trees
      (same (codes "/rpc") (codes "/rpc"))
      (read_h2_request_body (ok (codes "ping\n") ∷ []) 100)
      7
    ≡ acquire_body 7 ∷ release_body ∷ acquire_lane root 7 ∷ release_lane root ∷ []
unfolding read_h2_request_body read_chunks new take_chunk push_chunk drain_lines one_message
    split_once classify_upstream_lane_key
ping_calls = refl
