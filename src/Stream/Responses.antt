-- ===== src/Stream/Responses.antt =====
-- What `finish_server_h2_stream` forwards.
use mathlib.Core.Path.{subst}
use muxly.Base.{
  Option, ℕ, zero, suc, ◌%◌, ◌+◌, ◌^◌, ◌<◌, ◌≡◌, refl, ap, ◌∙◌, sym, arith, Bool, true, false, List,
  [], ◌∷◌, ◌++◌, Bytes, Lacks, All, length, append_assoc, append-nil, usize_max,
}
use muxly.Outcome.{Result, ok, err, upstream_closed}
use muxly.Host.{Host, Readable}
use muxly.Line.{pop_if, read_line_message, read_line_message_with_cap}
use muxly.Line.Framing.{read_line_message_complete, read_line_message_at_end}
use muxly.Decoder.Output.{printed}
use muxly.Stream.{H2, forward_responses}

-- `IsOpen w k`: the stream `k` takes data in `w`, since the bridge has not sent its end and the peer
-- has not reset it. Nothing is said of a stream after its end. `sent w k` are the bytes that the
-- stream `k` has taken, in order.
pub record Sends (host : Host) (h2 : H2 host) (io : Readable host) : Type 1 where
  pub IsOpen : host.World → host.Handle → Type 0
  pub sent : host.World → host.Handle → Bytes
  pub read_until_open :
      (w : host.World) (k send : host.Handle) (limit d : ℕ)
      → IsOpen w send
      → IsOpen (host.read_until k limit d w).1 send
  pub read_until_sent :
      (w : host.World) (k send : host.Handle) (limit d : ℕ)
      → sent (host.read_until k limit d w).1 send ≡ sent w send
  pub send_data_law :
      (w : host.World) (k send : host.Handle) (s bytes : Bytes) (end_of_stream : Bool)
      → IsOpen w send
      → io.Delivers w k s
      → (w' : host.World) × (h2.send_data send bytes end_of_stream w ≡ (ok tt, w'))
        × (sent w' send ≡ sent w send ++ bytes)
        × io.Delivers w' k s
  pub send_data_open :
      (w : host.World) (send : host.Handle) (bytes : Bytes)
      → IsOpen w send
      → IsOpen (h2.send_data send bytes false w).1 send

-- The responses of the daemon on the stream: a carriage return at the end of one is lost.
unfoldable pub forwarded : List Bytes → Bytes
forwarded [] = []
forwarded (line ∷ lines) = pop_if b'\r' line ++ (b'\n' ∷ forwarded lines)

-- What the loop returns on these lines, by whether there was one before them.
abbrev pub outcome : Bool → List Bytes → Result (Unit {0})
outcome false [] = err upstream_closed
outcome true [] = ok tt
outcome wrote_response (line ∷ lines) = ok tt

outcome-wrote : (lines : List Bytes) → outcome true lines ≡ ok tt
outcome-wrote [] = refl
outcome-wrote (line ∷ lines) = refl

module _ {host : Host} {h2 : H2 host} {io : Readable host} (open_stream : Sends host h2 io) where
  open host use {World, Handle, read_until}
  open h2 use {send_data}
  open io use {Delivers}
  open open_stream use {
    IsOpen, sent, read_until_open, read_until_sent, send_data_law, send_data_open,
  }

  -- The call of `read_until` is all that a read of a line does to the world.
  read_line_message-world :
      (w : World) (k : Handle) (max : ℕ)
      → (read_line_message host k max w).1 ≡ (read_until k ((max + 1) % 2 ^ 64) b'\n' w).1
  unfolding read_line_message read_line_message_with_cap
  read_line_message-world w k max = ground arith

  read_line_message-sent :
      (w : World) (k send : Handle) (max : ℕ)
      → sent (read_line_message host k max w).1 send ≡ sent w send
  read_line_message-sent w k send max =
      ap (λ v. sent v send) (read_line_message-world w k max)
      ∙ read_until_sent w k send ((max + 1) % 2 ^ 64) b'\n'

  read_line_message-IsOpen :
      (w w' : World) (k send : Handle) (max : ℕ) (message : Result (Option Bytes))
      → read_line_message host k max w ≡ (message, w')
      → IsOpen w send
      → IsOpen w' send
  read_line_message-IsOpen w w' k send max message e o =
      subst (λ v. IsOpen v send) (sym (read_line_message-world w k max) ∙ ap (λ p. p.1) e)
        (read_until_open w k send ((max + 1) % 2 ^ 64) b'\n' o)

  send_data-IsOpen :
      (w w' : World) (send : Handle) (bytes : Bytes)
      → send_data send bytes false w ≡ (ok tt, w')
      → IsOpen w send
      → IsOpen w' send
  send_data-IsOpen w w' send bytes e o =
      subst (λ p. IsOpen p.1 send) e (send_data_open w send bytes o)

  -- A message and its newline, on a stream that stays open.
  send_line :
      (w : World) (k send : Handle) (s message : Bytes)
      → IsOpen w send
      → Delivers w k s
      → (w₁ w₂ : World) × (send_data send message false w ≡ (ok tt, w₁))
        × (send_data send (b'\n' ∷ []) false w₁ ≡ (ok tt, w₂))
        × (sent w₂ send ≡ sent w send ++ (message ++ b'\n' ∷ []))
        × IsOpen w₂ send
        × Delivers w₂ k s
  send_line w k send s message o d =
      let newline = b'\n' ∷ [] in
      let (w₁, e₁, s₁, d₁) = send_data_law w k send s message false o d in
      let o₁ = send_data-IsOpen w w₁ send message e₁ o in
      let (w₂, e₂, s₂, d₂) = send_data_law w₁ k send s newline false o₁ d₁ in
      (
        w₁,
        w₂,
        e₁,
        e₂,
        s₂ ∙ ap (λ t. t ++ newline) s₁ ∙ append_assoc (sent w send) message newline,
        send_data-IsOpen w₁ w₂ send newline e₂ o₁,
        d₂,
      )

  forward_responses-lines :
      (lines : List Bytes) (fuel : ℕ) (k send : Handle) (max : ℕ) (wrote : Bool) (w : World)
      → max < usize_max
      → length lines < fuel
      → All (λ line. Lacks b'\n' line × (length line < max)) lines
      → IsOpen w send
      → Delivers w k (printed lines)
      → (w' : World) × (forward_responses host h2 fuel k send max wrote w
          ≡ (outcome wrote lines, w'))
        × (sent w' send ≡ sent w send ++ forwarded lines)
  unfolding forward_responses forwarded printed
  forward_responses-lines lines zero k send max wrote w small enough all o d = absurd (omega arith)
  forward_responses-lines [] (suc fuel) k send max true w small enough all o d =
      let (w₁, e₁, d₁) = read_line_message_at_end io w k max small d in
      let o₁ = read_line_message-IsOpen w w₁ k send max _ e₁ o in
      let (w₂, e₂, s₂, d₂) = send_data_law w₁ k send [] [] true o₁ d₁ in
      (
        w₂,
        rw e₁ e₂,
        s₂
            ∙ ap (λ t. t ++ [])
                (ap (λ p. sent p.1 send) (sym e₁) ∙ read_line_message-sent w k send max),
      )
  forward_responses-lines [] (suc fuel) k send max false w small enough all o d =
      let (w₁, e₁, d₁) = read_line_message_at_end io w k max small d in
      (
        w₁,
        rw e₁ refl,
        ap (λ p. sent p.1 send) (sym e₁)
            ∙ read_line_message-sent w k send max
            ∙ sym (append-nil (sent w send)),
      )
  forward_responses-lines (line ∷ lines) (suc fuel) k send max wrote w small enough
        ((lacks, fits), all) o d =
      let (w₁, e₁, d₁) =
        read_line_message_complete io w k line (printed lines) max small lacks fits d in
      let o₁ = read_line_message-IsOpen w w₁ k send max _ e₁ o in
      let response = pop_if b'\r' line in
      let (w₂, w₃, e₂, e₃, s₃, o₃, d₃) = send_line w₁ k send (printed lines) response o₁ d₁ in
      let (w₄, e₄, s₄) =
        forward_responses-lines lines fuel k send max true w₃ small (omega arith) all o₃ d₃ in
      let kept = ap (λ p. sent p.1 send) (sym e₁) ∙ read_line_message-sent w k send max in
      let message = response ++ b'\n' ∷ [] in
      (
        w₄,
        rw e₁ (rw e₂ (rw e₃ (e₄ ∙ ap (λ r. (r, w₄)) (outcome-wrote lines)))),
        s₄
            ∙ ap (λ t. t ++ forwarded lines) (s₃ ∙ ap (λ t. t ++ message) kept)
            ∙ append_assoc (sent w send) message (forwarded lines)
            ∙ ap (λ t. sent w send ++ t) (append_assoc response (b'\n' ∷ []) (forwarded lines)),
      )

  -- If the daemon sends these lines, each within the cap with its newline and without another newline,
  -- and closes the connection, and the H2 stream is open and stays so until the bridge ends it, then
  -- with a unit of fuel more than there are lines the stream has been sent every line with its newline,
  -- in order, but for one carriage return at the end of each line; without a line the error is that the
  -- daemon closed before a response. The cap is below `usize::MAX`.
  pub forward_responses-forwarded :
      (lines : List Bytes) (fuel : ℕ) (k send : Handle) (max : ℕ) (w : World)
      → max < usize_max
      → length lines < fuel
      → All (λ line. Lacks b'\n' line × (length line < max)) lines
      → IsOpen w send
      → Delivers w k (printed lines)
      → (w' : World) × (forward_responses host h2 fuel k send max false w
          ≡ (outcome false lines, w'))
        × (sent w' send ≡ sent w send ++ forwarded lines)
  forward_responses-forwarded lines fuel k send max w small enough all o d =
      forward_responses-lines lines fuel k send max false w small enough all o d
