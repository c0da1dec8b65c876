-- ===== src/Std/Utf8.antt =====
-- `as_bytes` and `String::from_utf8`.
use mathlib.Core.Option
use muxly.Base.{
  ℕ, ◌+◌, ◌-◌, ◌*◌, ◌/◌, ◌%◌, ◌≤◌, ◌<◌, ◌≡◌, refl, ◌&&◌, Option, none, some, ◌⊎◌, [], ◌∷◌, ◌++◌,
  append_assoc, arith, Bytes, Text, leb, ltb, ◌==◌, if◌then◌else◌, All, All-append, Lacks, sym,
  ltb-true, ◌≢◌,
}

-- A Unicode scalar value: any code point but a surrogate.
abbrev pub IsScalar : ℕ → Type 0
IsScalar c = (c < 0xd800) ⊎ ((0xe000 ≤ c) × (c < 0x110000))

encode : ℕ → Bytes
encode c =
    if ltb c 0x80
    then c ∷ []
    else if ltb c 0x800
    then (0xc0 + c / 64) ∷ (0x80 + c % 64) ∷ []
    else if ltb c 0x10000
    then (0xe0 + c / 4096) ∷ (0x80 + c / 64 % 64) ∷ (0x80 + c % 64) ∷ []
    else (0xf0 + c / 262144) ∷ (0x80 + c / 4096 % 64) ∷ (0x80 + c / 64 % 64) ∷ (0x80 + c % 64) ∷ []

unfoldable pub as_bytes : Text → Bytes
unfolding encode
as_bytes [] = []
as_bytes (c ∷ s) = encode c ++ as_bytes s

-- Between two characters, or inside one: the bytes still missing behind the next, the range of the
-- next, and the value so far.
pub data Progress : Type 0 where
  ready : Progress
  inside : (missing low high code : ℕ) → Progress

-- The next state and what is finished; `none` for a byte that cannot stand there.
advance : Progress → ℕ → Option (Progress × Text)
advance ready b =
    if ltb b 0x80
    then some (ready, b ∷ [])
    else if ltb b 0xc2
    then none
    else if ltb b 0xe0
    then some (inside 0 0x80 0xbf (b - 0xc0), [])
    else if b == 0xe0
    then some (inside 1 0xa0 0xbf 0, [])
    else if b == 0xed
    then some (inside 1 0x80 0x9f 13, [])
    else if ltb b 0xf0
    then some (inside 1 0x80 0xbf (b - 0xe0), [])
    else if b == 0xf0
    then some (inside 2 0x90 0xbf 0, [])
    else if ltb b 0xf4
    then some (inside 2 0x80 0xbf (b - 0xf0), [])
    else if b == 0xf4
    then some (inside 2 0x80 0x8f 4, [])
    else none
advance (inside missing low high code) b =
    let code' = code * 64 + (b - 0x80) in
    if leb low b && leb b high
    then (if missing == 0
        then some (ready, code' ∷ [])
        else some (inside (missing - 1) 0x80 0xbf code', []))
    else none

decode : Progress → Bytes → Option Text
decode ready [] = some []
decode (inside missing low high code) [] = none
decode p (b ∷ bs) = elim (advance p b) [
  | none ↦ none
  | some (p', out) ↦ Option.map (λ t. out ++ t) (decode p' bs)
]

unfoldable pub from_utf8 : Bytes → Option Text
unfolding decode advance
from_utf8 bs = decode ready bs

decode-encode :
    (c : ℕ) (bs : Bytes)
    → IsScalar c
    → decode ready (encode c ++ bs) ≡ Option.map (λ t. c ∷ t) (decode ready bs)
unfolding decode advance encode
decode-encode c bs h = ground arith

-- Text is read back from its bytes.
pub from_utf8-as_bytes : (s : Text) → All IsScalar s → from_utf8 (as_bytes s) ≡ some s
unfolding from_utf8 as_bytes
from_utf8-as_bytes [] h = unfold decode in refl
from_utf8-as_bytes (c ∷ s) (h, hs) = rw (decode-encode c (as_bytes s) h, from_utf8-as_bytes s hs)

pub as_bytes-append : (s t : Text) → as_bytes (s ++ t) ≡ as_bytes s ++ as_bytes t
unfolding as_bytes
as_bytes-append [] t = refl
as_bytes-append (c ∷ s) t =
    rw (as_bytes-append s t) (sym (append_assoc (encode c) (as_bytes s) (as_bytes t)))

encode-Lacks : (b c : ℕ) → b < 0x80 → c ≢ b → Lacks b (encode c)
unfolding encode
encode-Lacks b c small ne = ground arith

-- An ASCII byte stands in the bytes of a text only where the character does.
pub as_bytes-Lacks : (b : ℕ) (s : Text) → b < 0x80 → Lacks b s → Lacks b (as_bytes s)
unfolding as_bytes
as_bytes-Lacks b [] small h = tt
as_bytes-Lacks b (c ∷ s) small (ne, h) =
    All-append _ (encode c) (as_bytes s) (encode-Lacks b c small ne) (as_bytes-Lacks b s small h)

pub as_bytes_ascii : (s : Text) → All (λ c. c < 0x80) s → as_bytes s ≡ s
unfolding as_bytes encode
as_bytes_ascii [] h = refl
as_bytes_ascii (c ∷ s) (h, hs) = rw (as_bytes_ascii s hs, ltb-true c 0x80 h)
