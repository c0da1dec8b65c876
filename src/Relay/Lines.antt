-- ===== src/Relay/Lines.antt =====
-- What the copying loop writes.
use muxly.Base.{
  ℕ, zero, suc, ◌+◌, ◌%◌, ◌^◌, ◌<◌, ◌≡◌, refl, ap, ◌∙◌, sym, arith, Bool, true, false, ◌||◌, List,
  [], ◌∷◌, ◌++◌, Bytes, Lacks, All, length, append_assoc, append-nil, usize_max,
}
use muxly.Outcome.{ok}
use muxly.Host.{Host, Readable}
use muxly.Line.{pop_if, read_line_message, read_line_message_with_cap}
use muxly.Line.Framing.{read_line_message_complete, read_line_message_at_end}
use muxly.Decoder.Output.{printed}
use muxly.Stream.Responses.{forwarded}
use muxly.Relay.{relay}

abbrev pub is_nonempty : List Bytes → Bool
is_nonempty [] = false
is_nonempty (line ∷ lines) = true

wrote-stays : (lines : List Bytes) → (is_nonempty lines || true) ≡ true
wrote-stays [] = refl
wrote-stays (line ∷ lines) = refl

-- The peer behind `writer` takes what is written, and another stream is not touched by that.
pub record Flows (host : Host) (io : Readable host) (reader writer : host.Handle) : Type 0 where
  pub written : host.World → Bytes
  pub read_until_written :
      (w : host.World) (limit d : ℕ) → written (host.read_until reader limit d w).1 ≡ written w
  pub write_all_flows :
      (w : host.World) (s b : Bytes)
      → io.Delivers w reader s
      → (w' : host.World) × (host.write_all writer b w ≡ (ok tt, w'))
        × (written w' ≡ written w ++ b)
        × io.Delivers w' reader s
  pub flush_flows :
      (w : host.World) (s : Bytes)
      → io.Delivers w reader s
      → (w' : host.World) × (host.flush writer w ≡ (ok tt, w'))
        × (written w' ≡ written w)
        × io.Delivers w' reader s

module _ {host : Host} {io : Readable host} {reader writer : host.Handle}
    (flows : Flows host io reader writer) where
  open host use {World, read_until, write_all, flush}
  open io use {Delivers}
  open flows use {written, read_until_written, write_all_flows, flush_flows}

  read_line_message-written :
      (w : World) (max : ℕ) → written (read_line_message host reader max w).1 ≡ written w
  unfolding read_line_message read_line_message_with_cap
  read_line_message-written w max = ground (arith, read_until_written w ((max + 1) % 2 ^ 64) b'\n')

  -- If the reader delivers these lines, each within the cap with its newline, and then ends, then with
  -- a unit of fuel more than there are lines the loop writes every line, but for one carriage return
  -- at its end, with its newline, in order, and says whether there was one.
  pub relay-forwarded :
      (lines : List Bytes) (fuel max : ℕ) (wrote : Bool) (w : World)
      → max < usize_max
      → length lines < fuel
      → All (λ line. Lacks b'\n' line × (length line < max)) lines
      → Delivers w reader (printed lines)
      → (w' : World) × (relay host fuel reader writer max wrote w
          ≡ (ok (is_nonempty lines || wrote), w'))
        × (written w' ≡ written w ++ forwarded lines)
  unfolding relay forwarded printed
  relay-forwarded lines zero max wrote w small enough all d = absurd (omega arith)
  relay-forwarded [] (suc fuel) max wrote w small enough all d =
      let (w₁, e₁, d₁) = read_line_message_at_end io w reader max small d in
      (
        w₁,
        rw e₁ refl,
        ap (λ p. written p.1) (sym e₁)
            ∙ read_line_message-written w max
            ∙ sym (append-nil (written w)),
      )
  relay-forwarded (line ∷ lines) (suc fuel) max wrote w small enough ((lacks, fits), all) d =
      let (w₁, e₁, d₁) =
        read_line_message_complete io w reader line (printed lines) max small lacks fits d in
      let response = pop_if b'\r' line in
      let newline = b'\n' ∷ [] in
      let (w₂, e₂, s₂, d₂) = write_all_flows w₁ (printed lines) response d₁ in
      let (w₃, e₃, s₃, d₃) = write_all_flows w₂ (printed lines) newline d₂ in
      let (w₄, e₄, s₄, d₄) = flush_flows w₃ (printed lines) d₃ in
      let (w₅, e₅, s₅) = relay-forwarded lines fuel max true w₄ small (omega arith) all d₄ in
      let kept = ap (λ p. written p.1) (sym e₁) ∙ read_line_message-written w max in
      (
        w₅,
        rw e₁ (rw e₂ (rw e₃ (rw e₄ (e₅ ∙ ap (λ b. (ok b, w₅)) (wrote-stays lines))))),
        s₅
            ∙ ap (λ t. t ++ forwarded lines)
                (s₄ ∙ s₃ ∙ ap (λ t. t ++ newline) (s₂ ∙ ap (λ t. t ++ response) kept))
            ∙ append_assoc (written w ++ response) newline (forwarded lines)
            ∙ append_assoc (written w) response (newline ++ forwarded lines),
      )
