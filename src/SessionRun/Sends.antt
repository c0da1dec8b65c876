-- ===== src/SessionRun/Sends.antt =====
-- The lines that the loop of the session client sends.
use muxly.Base.{
  ℕ, suc, ◌≡◌, refl, sym, ap, ◌∙◌, Bool, true, false, Option, none, some, List, [], ◌∷◌, ◌++◌,
  append_assoc, append-nil, Bytes, Text, take, if◌then◌else◌,
}
use muxly.Outcome.{Result, ok, err}
use muxly.Host.{Host, Readable}
use muxly.Line.{pop_if}
use muxly.Stream.Responses.{forwarded}
use muxly.H2Client.{H2Sender}
use muxly.SessionClient.{ClientState, Event, is_enabled, take_event, is_finished}
use muxly.SessionRun.{Runtime, Branch, after_branch, run_session}
use muxly.SessionRun.Started.{Journal}
use muxly.SessionRun.Rounds.{round}

module _ {host : Host} {io : Readable host} {h2 : H2Sender host} {runtime : Runtime host}
    {stdin : host.Handle} (log : Journal host io h2 runtime stdin) where
  open host use {World}
  open log use {journal}

  -- From `w` to `v` the first of the lines have been sent.
  abbrev pub Sends : List Bytes → World → World → Type 0
  Sends lines w v = (n : ℕ) × (journal v ≡ journal w ++ forwarded (take n lines))

  pub Sends-none : (lines : List Bytes) (w v : World) → journal v ≡ journal w → Sends lines w v
  unfolding forwarded
  Sends-none lines w v e = (0, e ∙ sym (append-nil (journal w)))

  pub Sends-after :
      (lines : List Bytes) (w u v : World)
      → journal u ≡ journal w
      → Sends lines u v
      → Sends lines w v
  Sends-after lines w u v e (n, later) = (n, later ∙ ap (λ t. t ++ forwarded (take n lines)) e)

  pub Sends-cons :
      (line : Bytes) (lines : List Bytes) (w u v : World)
      → journal u ≡ journal w ++ (pop_if b'\r' line ++ b'\n' ∷ [])
      → Sends lines u v
      → Sends (line ∷ lines) w v
  unfolding forwarded
  Sends-cons line lines w u v e (n, later) =
      let message : Bytes = pop_if b'\r' line in
      (
        suc n,
        later
            ∙ ap (λ t. t ++ forwarded (take n lines)) e
            ∙ append_assoc (journal w) (message ++ b'\n' ∷ []) (forwarded (take n lines))
            ∙ ap (λ t. journal w ++ t)
                (append_assoc message (b'\n' ∷ []) (forwarded (take n lines))),
      )

  module _ (host_name : Text) (port : ℕ) (path : Text) (max : ℕ) where
    abbrev loop : List Branch → ClientState → World → Option (Result ClientState) × World
    loop = run_session host h2 runtime stdin host_name port path max

    -- Where a round of the loop ends: here, or with what the rest of the loop sends.
    after_branch-Sends :
        (lines : List Bytes) (w : World) (taken : Result ClientState) (v : World)
        (branches : List Branch)
        → Sends lines w v
        → ((state : ClientState) → taken ≡ ok state → Sends lines w (loop branches state v).1)
        → Sends lines w
            (after_branch host h2 runtime stdin host_name port path max
              (taken, v)
              (λ s u. loop branches s u)).1
    after_branch-Sends lines w (ok state) v branches now later = later state refl
    after_branch-Sends lines w (err e) v branches now later = now

    pub round-Sends :
        (lines : List Bytes) (state : ClientState) (w : World) (event : Event) (v : World)
        (branches : List Branch)
        → Sends lines w v
        → ((s : ClientState) → take_event state event ≡ ok s → Sends lines w (loop branches s v).1)
        → Sends lines w
            (round host h2 runtime stdin host_name port path max state w event v branches).1
    round-Sends lines state w event v branches now later =
        ends (is_finished state) (is_enabled state event) _
          (after_branch-Sends lines w (take_event state event) v branches now later)
      where
        ends :
            (finished enabled : Bool) (p : Option (Result ClientState) × World)
            → Sends lines w p.1
            → Sends lines w
                (if finished then (some (ok state), w) else if enabled then p else (none, w)).1
        ends true enabled p there = Sends-none lines w w refl
        ends false true p there = there
        ends false false p there = Sends-none lines w w refl
