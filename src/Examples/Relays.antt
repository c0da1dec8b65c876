-- ===== src/Examples/Relays.antt =====
-- A WebTransport stream on a host in memory: the request stands on stream 0, the daemon is stream 1,
-- the responses go to stream 2.
use muxly.Base.{◌≡◌, refl, arith, [], List, ◌∷◌, ◌++◌, Bytes, codes, if◌then◌else◌}
use muxly.Outcome.{ok, err, upstream_closed}
use muxly.Line.{read_line_message, read_line_message_with_cap}
use muxly.Upstream.{forward_request}
use muxly.Decoder.Output.{printed}
use muxly.Stream.Responses.{forwarded}
use muxly.Relay.{H3, handle_h3wt_bi_stream}
use muxly.Relay.Lines.{Flows, is_nonempty}
use muxly.Relay.Requests.{handle_h3wt_bi_stream-forwarded}
use muxly.Examples.Memory.{
  Memory, memory, memory_readable, MemoryDelivers, set_at, write_all_memory,
}

abbrev memory_h3 : H3 memory
memory_h3 = record { open_bi = λ w. (ok (2, 1), w); finish = λ k w. (ok tt, w) }

takes :
    (w : Memory) (s b : Bytes)
    → MemoryDelivers w 1 s
    → (w' : Memory) × (write_all_memory 2 b w ≡ (ok tt, w'))
      × (w'.outgoing 2 ≡ w.outgoing 2 ++ b)
      × MemoryDelivers w' 1 s
takes w s b d = ((write_all_memory 2 b w).1, refl, ground arith, d)

abbrev memory_flows : Flows memory memory_readable 1 2
memory_flows = record {
  written = λ w. w.outgoing 2;
  read_until_written = λ w limit d. refl;
  write_all_flows = takes;
  flush_flows = λ w s d. (w, refl, refl, d);
}

abbrev answers : List Bytes
answers = codes "{}" ∷ codes "[]" ∷ []

abbrev start : Memory
start = record {
  incoming = set_at (set_at (λ _. []) 0 (codes "ping\n")) 1 (printed answers);
  outgoing = λ _. [];
}

-- The world in which the daemon has the request.
abbrev asked : Memory
asked =
    (forward_request memory (codes "/sock") (codes "ping")
      (read_line_message memory 0 100 start).1).1

handle_h3wt_bi_stream-forwarded_example :
    (w' : Memory) × (handle_h3wt_bi_stream memory memory_h3 3 2 0 (codes "/sock") 100 start
      ≡ (if is_nonempty answers then (ok tt, w') else (err upstream_closed, w')))
    × (w'.outgoing 2 ≡ asked.outgoing 2 ++ forwarded answers)
unfolding printed forward_request read_line_message read_line_message_with_cap
handle_h3wt_bi_stream-forwarded_example =
    handle_h3wt_bi_stream-forwarded memory_h3 memory_flows start asked 0 (codes "/sock")
      (codes "ping") [] answers 3 100 (omega arith) (omega arith) (omega arith) (omega arith)
      ((omega arith, omega arith), ((omega arith, omega arith), tt)) refl refl refl
