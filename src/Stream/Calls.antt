-- ===== src/Stream/Calls.antt =====
-- The order of the calls of a stream on the gate and its lane.
use muxly.Base.{
  ℕ, ◌≡◌, refl, ◌∙◌, sym, Bool, true, false, Option, none, some, List, [], ◌∷◌, ◌++◌, Bytes, Text,
  same, append_assoc, append-nil, Bool-cases, inl, inr,
}
use muxly.Outcome.{Error, Result, ok, err, unexpected_h2_path}
use muxly.Host.{Host, fail, follow}
use muxly.Upstream.{forward_request}
use muxly.Decoder.{read_h2_request_body}
use muxly.Lane.{Json, UpstreamLaneKey, classify_upstream_lane_key, request_is_stream_open}
use muxly.Stream.{
  H2, Call, acquire_body, release_body, acquire_lane, release_lane, Task, outside,
  ActiveServerH2Stream, drop_guard, send_h2_error_response, finish_server_h2_stream, keep_guard,
  answer, take_lane, start_h2_stream, run_h2_stream,
}

-- The calls behind the gate, by what `read_h2_request_body` returned.
abbrev pub behind_gate : Json → ℕ → Result Bytes → List Call
behind_gate json n (err e) = release_body ∷ []
behind_gate json n (ok request) =
    release_body
    ∷ acquire_lane (classify_upstream_lane_key json request) n
    ∷ release_lane (classify_upstream_lane_key json request)
    ∷ []

-- The calls that a stream makes, from its path and its body alone.
abbrev pub protocol :
    Json → (expected : Bool) → (body : Result Bytes) → (accept_sequence : ℕ) → List Call
protocol json false body n = []
protocol json true body n = acquire_body n ∷ behind_gate json n body

-- What is left to drop when a stage of a stream has ended.
abbrev guard_calls : {H : Type 0} → Result (ActiveServerH2Stream H) → List Call
guard_calls (err e) = []
guard_calls (ok active) = elim active.lane_guard [ none ↦ [] | some key ↦ release_lane key ∷ [] ]

module _ (host : Host) (h2 : H2 host) where
  open host use {World, Handle}
  open h2 use {send_response, send_data}

  finish-calls :
      (fuel : ℕ) (active : ActiveServerH2Stream Handle) (max : ℕ) (t : Task World)
      → (finish_server_h2_stream host h2 fuel active max t).1.calls
        ≡ t.calls ++ guard_calls (ok active)
  unfolding finish_server_h2_stream drop_guard
  finish-calls fuel active max t = go active.lane_guard refl
    where
      go :
          (g : Option UpstreamLaneKey)
          → active.lane_guard ≡ g
          → (finish_server_h2_stream host h2 fuel active max t).1.calls
            ≡ t.calls ++ guard_calls (ok active)
      go none e = rw e (sym (append-nil t.calls))
      go (some key) e = rw e refl

  -- The calls of a run up to here, and the guard that is left.
  total : Result (ActiveServerH2Stream Handle) × Task World → List Call
  total (r, t) = t.calls ++ guard_calls r

  keep_guard-calls :
      (key : UpstreamLaneKey) (upstream : Handle) (stream_open : Bool) (r : Result Handle)
      (t : Task World)
      → total (keep_guard host h2 key upstream stream_open r t) ≡ t.calls ++ release_lane key ∷ []
  unfolding keep_guard total
  keep_guard-calls key upstream stream_open (err e) t =
      append-nil (t.calls ++ release_lane key ∷ [])
  keep_guard-calls key upstream false (ok send) t = refl
  keep_guard-calls key upstream true (ok send) t = append-nil (t.calls ++ release_lane key ∷ [])

  answer-calls :
      (respond : Handle) (key : UpstreamLaneKey) (stream_open : Bool) (r : Result Handle)
      (t : Task World)
      → total (answer host h2 respond key stream_open r t) ≡ t.calls ++ release_lane key ∷ []
  unfolding answer total
  answer-calls respond key stream_open (err e) t = append-nil (t.calls ++ release_lane key ∷ [])
  answer-calls respond key stream_open (ok upstream) t =
      let (r, w) = send_response respond 200 t.world in
      keep_guard-calls key upstream stream_open r (record t { world = w })

  refused-calls :
      (r : Result (Unit {0})) (e : Error) (t : Task World)
      → total (follow (r, t) (λ _. fail e)) ≡ t.calls
  unfolding total
  refused-calls (err e) e' t = append-nil t.calls
  refused-calls (ok _) e' t = append-nil t.calls

  module _ (json : Json) where
    take_lane-calls :
        (respond : Handle) (upstream_unix : Text) (n : ℕ) (body : Result Bytes) (t : Task World)
        → total (take_lane host h2 json respond upstream_unix n body t)
          ≡ t.calls ++ behind_gate json n body
    unfolding take_lane total
    take_lane-calls respond upstream_unix n (err e) t = append-nil (t.calls ++ release_body ∷ [])
    take_lane-calls respond upstream_unix n (ok request) t =
        let key = classify_upstream_lane_key json request in
        let (r, w) = forward_request host upstream_unix request t.world in
        let before = (t.calls ++ release_body ∷ []) ++ acquire_lane key n ∷ [] in
        answer-calls respond key (request_is_stream_open json request) r
          (record { world = w; calls = before })
        ∙ append_assoc (t.calls ++ release_body ∷ []) (acquire_lane key n ∷ [])
            (release_lane key ∷ [])
        ∙ append_assoc t.calls (release_body ∷ []) (acquire_lane key n ∷ release_lane key ∷ [])

    start-calls :
        (path : Text) (body : List (Result Bytes)) (respond : Handle)
        (upstream_unix expected_path : Text) (max n : ℕ) (t : Task World)
        → total (start_h2_stream host h2 json path body respond upstream_unix expected_path max n t)
          ≡ t.calls ++ protocol json (same path expected_path) (read_h2_request_body body max) n
    unfolding start_h2_stream total
    start-calls path body respond upstream_unix expected_path max n t =
        elim (Bool-cases (same path expected_path)) [
          | inr other ↦
              rw (other, start_h2_stream)
                (refused-calls (send_h2_error_response host h2 respond 404 t.world).0
                    (unexpected_h2_path path)
                    (outside (send_h2_error_response host h2 respond 404) t).1
                  ∙ sym (append-nil t.calls))
          | inl expected ↦
              rw (expected, start_h2_stream)
                (take_lane-calls respond upstream_unix n (read_h2_request_body body max)
                    (record t { calls = t.calls ++ acquire_body n ∷ [] })
                  ∙ append_assoc t.calls (acquire_body n ∷ [])
                      (behind_gate json n (read_h2_request_body body max)))
        ]

    -- Whatever the host does, and however the stream ends, its calls on the gate and the lanes are
    -- those of `protocol`: none for another path; else it acquires the gate under its accept sequence
    -- and releases it; and if the body was read, it then acquires its lane under the same number, and
    -- releases it. Every guard is released, once, on every error path.
    pub run_h2_stream-protocol :
        (fuel : ℕ) (path : Text) (body : List (Result Bytes)) (respond : Handle)
        (upstream_unix expected_path : Text) (max n : ℕ) (t : Task World)
        → (run_h2_stream host h2 json fuel path body respond upstream_unix expected_path max n
            t).1.calls
          ≡ t.calls ++ protocol json (same path expected_path) (read_h2_request_body body max) n
    unfolding run_h2_stream total
    run_h2_stream-protocol fuel path body respond upstream_unix expected_path max n t =
        finished
          (start_h2_stream host h2 json path body respond upstream_unix expected_path max n t)
        ∙ start-calls path body respond upstream_unix expected_path max n t
      where
        finished :
            (started : Result (ActiveServerH2Stream Handle) × Task World)
            → (follow started (λ active. finish_server_h2_stream host h2 fuel active max)).1.calls
              ≡ total started
        finished (err e, u) = sym (append-nil u.calls)
        finished (ok active, u) = finish-calls fuel active max u
