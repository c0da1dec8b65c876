-- ===== src/SessionRun/InOrder.antt =====
-- The order in which the session client sends the lines of stdin.
use muxly.Base.{
  ℕ, zero, suc, ◌+◌, ◌%◌, ◌^◌, ◌<◌, ◌≡◌, refl, sym, ap, ◌∙◌, arith, Bool, true, false, some, List,
  [], ◌∷◌, ◌++◌, append_assoc, All, Bytes, Text, Lacks, length, take, if◌then◌else◌, usize_max,
}
use muxly.Outcome.{ok}
use muxly.Host.{Host, Readable}
use muxly.Line.{pop_if}
use muxly.Line.Framing.{read_line_message_complete, read_line_message_at_end}
use muxly.Decoder.Output.{printed}
use muxly.Stream.Responses.{forwarded}
use muxly.H2Client.{H2Sender}
use muxly.SessionClient.{
  ClientState, stdin_ended, request_started, request_failed, task_ended, connection_ended,
  take_event,
}
use muxly.SessionRun.{Runtime, Branch, request_result, task_result, connection_result, run_session}
use muxly.SessionRun.Started.{
  Journal, sent, refused, start_h2_request-Started, read_line_message-journal,
}
use muxly.SessionRun.Rounds.{
  task_ended-open, connection_ended-ne-ok, request_started-open, request_failed-ne-ok, round-Went,
  request_round, start_round,
}
use muxly.SessionRun.Sends.{Sends-none, Sends-after, Sends-cons, round-Sends}

take_nil : (n : ℕ) → take {A = Bytes} n [] ≡ []
take_nil zero = refl
take_nil (suc n) = refl

module _ {host : Host} {io : Readable host} {h2 : H2Sender host} {runtime : Runtime host}
    {stdin : host.Handle} (log : Journal host io h2 runtime stdin) where
  open host use {World}
  open io use {Delivers}
  open log use {journal, drop_journal}

  module _ (host_name : Text) (port : ℕ) (path : Text) (max : ℕ) where
    module _ (small : max < usize_max)
        (no_loss : (w : World) (s : Bytes)
          → Delivers w stdin s
          → Delivers (runtime.drop_read_until stdin ((max + 1) % 2 ^ 64) b'\n' w) stdin s) where
      dropped :
          (closed : Bool) (w : World) (s : Bytes)
          → Delivers w stdin s
          → Delivers
              (if closed then w else runtime.drop_read_until stdin ((max + 1) % 2 ^ 64) b'\n' w)
              stdin
              s
            × (journal
                  (if closed then w else runtime.drop_read_until stdin ((max + 1) % 2 ^ 64) b'\n' w)
                ≡ journal w)
      dropped true w s d = (d, refl)
      dropped false w s d = (no_loss w s d, drop_journal w ((max + 1) % 2 ^ 64) b'\n')

      -- If no dropped read takes anything off stdin, then whatever branches complete, in whatever
      -- order, and whichever requests are refused, the client has sent the first of the lines of
      -- stdin, for some number of them: each once, in their order, with its newline, but for one
      -- carriage return at its end. The lines hold no newline and fit the cap with it, and the cap
      -- is below `usize::MAX`.
      pub run_session-in_order :
          (branches : List Branch) (state : ClientState) (w : World) (lines : List Bytes)
          → All (λ line. Lacks b'\n' line × (length line < max)) lines
          → Delivers w stdin (printed lines)
          → (n : ℕ) × (journal
                (run_session host h2 runtime stdin host_name port path max branches state w).1
              ≡ journal w ++ forwarded (take n lines))
      unfolding run_session printed take_event
      run_session-in_order [] state w lines all d = Sends-none log lines w w refl
      run_session-in_order (task_result r ∷ branches) state w lines all d =
          let (d', j) = dropped state.stdin_closed w (printed lines) d in
          round-Sends log host_name port path max lines state w (task_ended r) _ branches
            (Sends-none log lines w _ j)
            λ s _. Sends-after log lines w _ _ j (run_session-in_order branches s _ lines all d')
      run_session-in_order (connection_result r ∷ branches) state w lines all d =
          let (d', j) = dropped state.stdin_closed w (printed lines) d in
          round-Sends log host_name port path max lines state w (connection_ended r) _ branches
            (Sends-none log lines w _ j)
            λ s _. Sends-after log lines w _ _ j (run_session-in_order branches s _ lines all d')
      run_session-in_order (request_result ∷ branches) state w [] all d =
          let (w₁, e₁, d₁) = read_line_message_at_end io w stdin max small d in
          let j₁ = ap (λ p. journal p.1) (sym e₁) ∙ read_line_message-journal log w max in
          rw e₁ (
            round-Sends log host_name port path max [] state w stdin_ended w₁ branches
              (Sends-none log [] w w₁ j₁)
              λ s _. Sends-after log [] w w₁ _ j₁ (run_session-in_order branches s w₁ [] tt d₁))
      run_session-in_order (request_result ∷ branches) state w (line ∷ lines) ((plain, fits), all)
            d =
          let (w₁, e₁, d₁) =
            read_line_message_complete io w stdin line (printed lines) max small plain fits d in
          let j₁ = ap (λ p. journal p.1) (sym e₁) ∙ read_line_message-journal log w max in
          let message : Bytes = pop_if b'\r' line in
          let started =
            start_h2_request-Started log host_name port path message w₁ (printed lines) d₁ in
          rw e₁ (elim started [
            | refused e v q d₂ j₂ ↦ rw q (
                round-Sends log host_name port path max (line ∷ lines) state w (request_failed e) v
                  branches (Sends-none log (line ∷ lines) w v (j₂ ∙ j₁))
                  (λ s bad. absurd (ground arith)))
            | sent k v q d₂ j₂ ↦
                let j = j₂ ∙ ap (λ t. t ++ (message ++ b'\n' ∷ [])) j₁ in
                rw q (
                  round-Sends log host_name port path max (line ∷ lines) state w request_started v
                    branches (Sends-cons log line lines w v v j (Sends-none log lines v v refl))
                    λ s _.
                      Sends-cons log line lines w v _ j
                        (run_session-in_order branches s v lines all d₂))
          ])

      -- If no dropped read takes anything off stdin, and the client, with stdin open, ends without an
      -- error, then, whatever branches completed and in whatever order, it has sent every line of
      -- stdin: once, in their order, each with its newline, but for one carriage return at its end.
      -- The lines hold no newline and fit the cap with it, and the cap is below `usize::MAX`.
      pub run_session-sends_every_line :
          (branches : List Branch) (state last : ClientState) (w : World) (lines : List Bytes)
          → state.stdin_closed ≡ false
          → All (λ line. Lacks b'\n' line × (length line < max)) lines
          → Delivers w stdin (printed lines)
          → (run_session host h2 runtime stdin host_name port path max branches state w).0
            ≡ some (ok last)
          → journal (run_session host h2 runtime stdin host_name port path max branches state w).1
            ≡ journal w ++ forwarded lines
      unfolding run_session printed forwarded take_event
      run_session-sends_every_line [] state last w lines opened all d ends = absurd (ground arith)
      run_session-sends_every_line (task_result r ∷ branches) state last w lines opened all d ends =
          let (d', j) = dropped state.stdin_closed w (printed lines) d in
          let went =
            round-Went host h2 runtime stdin host_name port path max last state w (task_ended r) _
              branches opened ends in
          let still = task_ended-open r state went.after went.took ∙ opened in
          ap journal went.same_world
          ∙ run_session-sends_every_line branches went.after last _ lines still all d' went.onward
          ∙ ap (λ t. t ++ forwarded lines) j
      run_session-sends_every_line (connection_result r ∷ branches) state last w lines opened all d
            ends =
          let went =
            round-Went host h2 runtime stdin host_name port path max last state w
              (connection_ended r) _ branches opened ends in
          absurd (connection_ended-ne-ok r state went.after opened went.took)
      run_session-sends_every_line (request_result ∷ branches) state last w [] opened all d ends =
          let (w₁, e₁, d₁) = read_line_message_at_end io w stdin max small d in
          let j₁ = ap (λ p. journal p.1) (sym e₁) ∙ read_line_message-journal log w max in
          let step =
            request_round host h2 runtime stdin host_name port path max branches state w e₁ in
          let went =
            round-Went host h2 runtime stdin host_name port path max last state w stdin_ended w₁
              branches opened (ap (λ p. p.0) (sym step) ∙ ends) in
          let (n, j) = run_session-in_order branches went.after w₁ [] tt d₁ in
          ap (λ p. journal p.1) step
          ∙ ap journal went.same_world
          ∙ j
          ∙ ap (λ t. journal w₁ ++ forwarded t) (take_nil n)
          ∙ ap (λ t. t ++ []) j₁
      run_session-sends_every_line (request_result ∷ branches) state last w (line ∷ lines) opened
            ((plain, fits), all) d ends =
          let (w₁, e₁, d₁) =
            read_line_message_complete io w stdin line (printed lines) max small plain fits d in
          let j₁ = ap (λ p. journal p.1) (sym e₁) ∙ read_line_message-journal log w max in
          let message : Bytes = pop_if b'\r' line in
          let started =
            start_h2_request-Started log host_name port path message w₁ (printed lines) d₁ in
          elim started [
            | refused e v q d₂ j₂ ↦
                let step =
                  request_round host h2 runtime stdin host_name port path max branches state w e₁
                  ∙ start_round host h2 runtime stdin host_name port path max branches state w
                      message w₁ q in
                let went =
                  round-Went host h2 runtime stdin host_name port path max last state w
                    (request_failed e) v branches opened (ap (λ p. p.0) (sym step) ∙ ends) in
                absurd (request_failed-ne-ok e state went.after went.took)
            | sent k v q d₂ j₂ ↦
                let step =
                  request_round host h2 runtime stdin host_name port path max branches state w e₁
                  ∙ start_round host h2 runtime stdin host_name port path max branches state w
                      message w₁ q in
                let went =
                  round-Went host h2 runtime stdin host_name port path max last state w
                    request_started v branches opened (ap (λ p. p.0) (sym step) ∙ ends) in
                let still = request_started-open state went.after went.took ∙ opened in
                ap (λ p. journal p.1) step
                ∙ ap journal went.same_world
                ∙ run_session-sends_every_line branches went.after last v lines still all d₂
                    went.onward
                ∙ ap (λ t. t ++ forwarded lines) (j₂ ∙ ap (λ t. t ++ (message ++ b'\n' ∷ [])) j₁)
                ∙ append_assoc (journal w) (message ++ b'\n' ∷ []) (forwarded lines)
                ∙ ap (λ t. journal w ++ t) (append_assoc message (b'\n' ∷ []) (forwarded lines))
          ]
