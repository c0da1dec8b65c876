-- ===== src/Line/Framing.antt =====
-- What `read_line_message` does with every stream of bytes.
use muxly.Base.{
  ℕ, suc, ◌+◌, ◌%◌, ◌^◌, ◌≤◌, ◌<◌, ◌≡◌, ◌≢◌, refl, Option, none, some, [], ◌∷◌, ◌++◌, append_assoc,
  ◌∙◌, arith, Bytes, ltb, ◌==◌, if◌then◌else◌, ltb-true, length, length-append, Lacks, usize_max,
}
use mathlib.Core.Path.{subst}
use native.Mathlib.Decide.{dec_lt}
use muxly.Outcome.{Result, ok, err, message_exceeds_cap}
use muxly.Host.{Host, Readable, upto, beyond}
use muxly.Line.{pop_if, pop_line_ending, read_line_message_with_cap, read_line_message}
use muxly.Line.Cut.{
  Cut, found, ended, limited, cut, upto-append, pop_if-snoc, pop_if-Lacks, split_last,
}

-- What one call returns on the stream `s`, and what it leaves in the stream.
pub data Framed (max : ℕ) (s : Bytes) (r : Result (Option Bytes)) (s' : Bytes) : Type 0 where
  -- the stream has ended
  at_end : s ≡ [] → r ≡ ok none → s' ≡ [] → Framed max s r s'
  -- a line and its newline fit the cap: the newline and one carriage return before it are cut off
  complete :
      (l rest : Bytes)
      → s ≡ l ++ b'\n' ∷ rest
      → Lacks b'\n' l
      → length l < max
      → r ≡ ok (some (pop_if b'\r' l))
      → s' ≡ rest
      → Framed max s r s'
  -- the stream ends without a newline, within the cap
  unterminated :
      s ≢ []
      → Lacks b'\n' s
      → length s ≤ max
      → r ≡ ok (some (pop_if b'\r' s))
      → s' ≡ []
      → Framed max s r s'
  -- more than `max` bytes, and no newline among the first `max`: one byte too many is read
  oversized :
      (l : Bytes) (c : ℕ) (rest : Bytes)
      → s ≡ l ++ c ∷ rest
      → length l ≡ max
      → Lacks b'\n' l
      → r ≡ err (message_exceeds_cap max)
      → s' ≡ rest
      → Framed max s r s'

-- The two tests of `read_line_message`, on the bytes read.
abbrev judge : ℕ → Bytes → Result (Option Bytes)
judge max read =
    if ltb max (length read)
    then err (message_exceeds_cap max)
    else ok (if length read == 0 then none else some (pop_line_ending read))

judge_complete :
    (max : ℕ) (l : Bytes)
    → length l < max
    → judge max (l ++ b'\n' ∷ []) ≡ ok (some (pop_if b'\r' l))
judge_complete max l h = rw (length-append l (b'\n' ∷ []), pop_if-snoc l b'\n') (ground arith)

judge_unterminated :
    (max : ℕ) (l : Bytes)
    → Lacks b'\n' l
    → length l ≤ max
    → l ≢ []
    → judge max l ≡ ok (some (pop_if b'\r' l))
judge_unterminated max [] lacks h ne = absurd (ne refl)
judge_unterminated max (c ∷ l) lacks h ne = rw (pop_if-Lacks b'\n' (c ∷ l) lacks) (ground arith)

judge_oversized :
    (max : ℕ) (l : Bytes) → max < length l → judge max l ≡ err (message_exceeds_cap max)
judge_oversized max l h = rw (ltb-true max (length l) h)

ended-Framed :
    (max : ℕ) (s : Bytes) → Lacks b'\n' s → length s ≤ max → Framed max s (judge max s) []
ended-Framed max [] lacks h = at_end refl (ground arith) refl
ended-Framed max (c ∷ s) lacks h =
    unterminated (λ e. cc) lacks h (judge_unterminated max (c ∷ s) lacks h (λ e. cc)) refl

Cut-Framed :
    (max : ℕ) (s : Bytes)
    → Cut (suc max) b'\n' s
    → Framed max s (judge max (upto (suc max) b'\n' s)) (beyond (suc max) b'\n' s)
Cut-Framed max s (found l rest e lacks h u b) =
    rw (u, b)
      (elim (dec_lt (length l) max) [
        | yes p ↦ complete l rest e lacks p (judge_complete max l p) refl
        | no p ↦
            oversized l b'\n' rest e (omega arith) lacks
              (judge_oversized max _ (omega (arith, length-append l (b'\n' ∷ [])))) refl
      ])
Cut-Framed max s (ended lacks h u b) = rw (u, b) (ended-Framed max s lacks (omega arith))
Cut-Framed max s (limited l rest e lacks h u b) =
    let (m, c, e', k, lacks') = split_last max b'\n' l h lacks in
    rw (u, b)
      (oversized m c rest (e ∙ rw (e', append_assoc)) k lacks' (judge_oversized max l (omega arith))
        refl)

module _ {host : Host} (io : Readable host) where
  open host use {World, Handle}
  open io use {Delivers, read_until_law}

  -- On a stream that ends without an I/O error `read_line_message` returns what `Framed` says, on
  -- every branch, and leaves the rest of the stream in place.
  pub read_line_message-Framed :
      (w : World) (k : Handle) (s : Bytes) (max : ℕ)
      → max < usize_max
      → Delivers w k s
      → (r : Result (Option Bytes)) × (s' : Bytes) × (w' : World) × Framed max s r s'
        × (read_line_message host k max w ≡ (r, w'))
        × Delivers w' k s'
  unfolding read_line_message read_line_message_with_cap
  read_line_message-Framed w k s max small d =
      let (w', e, d') = read_until_law w k s (suc max) b'\n' d in
      (
        judge max (upto (suc max) b'\n' s),
        beyond (suc max) b'\n' s,
        w',
        Cut-Framed max s (cut (suc max) b'\n' s),
        (let m : (max + 1) % 2 ^ 64 ≡ suc max = omega arith in rw (m, e) (ground arith)),
        d',
      )

  -- A complete line within the cap, with its newline.
  pub read_line_message_with_cap_complete :
      (w : World) (k : Handle) (l rest : Bytes) (max : ℕ)
      → max < usize_max
      → Lacks b'\n' l
      → length l < max
      → Delivers w k (l ++ b'\n' ∷ rest)
      → (w' : World) × (read_line_message_with_cap host k [] max w
          ≡ (ok (suc (length l), l ++ b'\n' ∷ []), w'))
        × Delivers w' k rest
  unfolding read_line_message_with_cap
  read_line_message_with_cap_complete w k l rest max small lacks h d =
      let (w', e, d') = read_until_law w k (l ++ b'\n' ∷ rest) (suc max) b'\n' d in
      let (u, b) = upto-append (suc max) b'\n' l rest lacks (omega arith) in
      let m : (max + 1) % 2 ^ 64 ≡ suc max = omega arith in
      let n : length (l ++ b'\n' ∷ []) ≡ suc (length l) =
        omega (arith, length-append l (b'\n' ∷ [])) in
      (w', rw (m, e, u, n) (ground arith), subst (λ t. Delivers w' k t) b d')

  -- The case of a complete line, in the form that the callers' proofs use.
  pub read_line_message_complete :
      (w : World) (k : Handle) (l rest : Bytes) (max : ℕ)
      → max < usize_max
      → Lacks b'\n' l
      → length l < max
      → Delivers w k (l ++ b'\n' ∷ rest)
      → (w' : World) × (read_line_message host k max w ≡ (ok (some (pop_if b'\r' l)), w'))
        × Delivers w' k rest
  unfolding read_line_message read_line_message_with_cap
  read_line_message_complete w k l rest max small lacks h d =
      let (w', e, d') = read_until_law w k (l ++ b'\n' ∷ rest) (suc max) b'\n' d in
      let (u, b) = upto-append (suc max) b'\n' l rest lacks (omega arith) in
      let m : (max + 1) % 2 ^ 64 ≡ suc max = omega arith in
      (w', rw (m, e, u) (ground (arith, judge_complete max l h)), subst (λ t. Delivers w' k t) b d')

  pub read_line_message_at_end :
      (w : World) (k : Handle) (max : ℕ)
      → max < usize_max
      → Delivers w k []
      → (w' : World) × (read_line_message host k max w ≡ (ok none, w')) × Delivers w' k []
  unfolding read_line_message read_line_message_with_cap
  read_line_message_at_end w k max small d =
      let (w', e, d') = read_until_law w k [] (suc max) b'\n' d in
      let m : (max + 1) % 2 ^ 64 ≡ suc max = omega arith in (w', rw (m, e) (ground arith), d')

  -- At the largest `usize` the limit wraps around to 0, in a build that does not check for overflow:
  -- every stream looks ended, and nothing of it is read.
  pub read_line_message_wraps :
      (w : World) (k : Handle) (s : Bytes)
      → Delivers w k s
      → (w' : World) × (read_line_message host k usize_max w ≡ (ok none, w')) × Delivers w' k s
  unfolding read_line_message read_line_message_with_cap
  read_line_message_wraps w k s d =
      let (w', e, d') = read_until_law w k s 0 b'\n' d in (w', rw e refl, d')
