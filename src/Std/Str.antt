-- ===== src/Std/Str.antt =====
-- Operations on `str`.
use mathlib.Core.List.{reverse}
use mathlib.Core.Option
use muxly.Base.{
  ℕ, ◌+◌, ◌≡◌, ◌≢◌, refl, ◌∙◌, Bool, true, false, ◌&&◌, ◌||◌, Option, none, some, List, [], ◌∷◌,
  ◌++◌, append-nil, append_assoc, arith, Text, leb, ◌==◌, if◌then◌else◌, All, All-map, Lacks,
}
use muxly.Std.Decimal.{IsDigit}

-- `char::is_whitespace`: the Unicode property White_Space.
abbrev pub is_whitespace : ℕ → Bool
is_whitespace c =
    (leb 0x09 c && leb c 0x0d)
    || c == 0x20
    || c == 0x85
    || c == 0xa0
    || c == 0x1680
    || (leb 0x2000 c && leb c 0x200a)
    || c == 0x2028
    || c == 0x2029
    || c == 0x202f
    || c == 0x205f
    || c == 0x3000

abbrev pub Solid : Text → Type 0
Solid = All (λ c. is_whitespace c ≡ false)

unfoldable pub starts_with : Text → Text → Bool
starts_with s [] = true
starts_with [] (c ∷ p) = false
starts_with (x ∷ s) (c ∷ p) = x == c && starts_with s p

unfoldable pub ends_with : Text → Text → Bool
unfolding starts_with
ends_with s p = starts_with (reverse s) (reverse p)

unfoldable pub contains : Text → ℕ → Bool
contains [] c = false
contains (x ∷ s) c = x == c || contains s c

-- `trim_start_matches("--")`: the pair is removed as often as it stands in front.
unfoldable pub trim_start_dashes : Text → Text
trim_start_dashes (a ∷ b ∷ s) =
    let rest = trim_start_dashes s in if a == b'-' && b == b'-' then rest else a ∷ b ∷ s
trim_start_dashes s = s

unfoldable pub trim_start : Text → Text
trim_start [] = []
trim_start (c ∷ s) = let rest = trim_start s in if is_whitespace c then rest else c ∷ s

-- A character goes with the whitespace behind it only if it is whitespace itself.
keep_solid : ℕ → Text → Text
keep_solid c [] = if is_whitespace c then [] else c ∷ []
keep_solid c (d ∷ t) = c ∷ d ∷ t

unfoldable pub trim_end : Text → Text
unfolding keep_solid
trim_end [] = []
trim_end (c ∷ s) = keep_solid c (trim_end s)

unfoldable pub trim : Text → Text
unfolding trim_start trim_end
trim s = trim_start (trim_end s)

-- The word read so far, if there is one, in front of the words behind it.
end_word : Text → List Text → List Text
end_word [] words = words
end_word (c ∷ w) words = (c ∷ w) ∷ words

words_from : Text → Text → List Text
words_from word [] = end_word word []
words_from word (c ∷ s) =
    let next = end_word word (words_from [] s) in
    let longer = words_from (word ++ c ∷ []) s in if is_whitespace c then next else longer

unfoldable pub split_whitespace : Text → List Text
unfolding words_from end_word
split_whitespace s = words_from [] s

-- The text before the first `c` and the text behind it.
unfoldable pub split_once : ℕ → Text → Option (Text × Text)
split_once c [] = none
split_once c (x ∷ s) =
    let rest = Option.map (λ (p : Text × Text). (x ∷ p.0, p.1)) (split_once c s) in
    if x == c then some ([], s) else rest

-- The text before the last `c` and the text behind it.
or_here : ℕ → ℕ → Text → Option (Text × Text) → Option (Text × Text)
or_here c x s (some (a, b)) = some (x ∷ a, b)
or_here c x s none = if x == c then some ([], s) else none

unfoldable pub rsplit_once : ℕ → Text → Option (Text × Text)
unfolding or_here
rsplit_once c [] = none
rsplit_once c (x ∷ s) = or_here c x s (rsplit_once c s)

-- `to_ascii_lowercase` of one character.
abbrev pub ascii_lower : ℕ → ℕ
ascii_lower c = if leb b'A' c && leb c b'Z' then c + 32 else c

unfoldable pub eq_ignore_ascii_case : Text → Text → Bool
eq_ignore_ascii_case [] [] = true
eq_ignore_ascii_case (x ∷ s) (y ∷ t) = ascii_lower x == ascii_lower y && eq_ignore_ascii_case s t
eq_ignore_ascii_case _ _ = false

starts_with-append_lem : (p s : Text) → starts_with (p ++ s) p ≡ true
unfolding starts_with
starts_with-append_lem [] s = refl
starts_with-append_lem (c ∷ p) s = ground (arith, starts_with-append_lem p s)

pub starts_with-append : (p s : Text) → starts_with (p ++ s) p ≡ true
starts_with-append p s = starts_with-append_lem p s

pub split_once-append : (c : ℕ) (a b : Text) → Lacks c a → split_once c (a ++ c ∷ b) ≡ some (a, b)
unfolding split_once
split_once-append c [] b h = ground arith
split_once-append c (x ∷ a) b (ne, h) = ground (arith, split_once-append c a b h)

pub split_once-Lacks : (c : ℕ) (s : Text) → Lacks c s → split_once c s ≡ none
unfolding split_once
split_once-Lacks c [] h = refl
split_once-Lacks c (x ∷ s) (ne, h) = ground (arith, split_once-Lacks c s h)

pub rsplit_once-Lacks : (c : ℕ) (s : Text) → Lacks c s → rsplit_once c s ≡ none
unfolding rsplit_once
rsplit_once-Lacks c [] h = refl
rsplit_once-Lacks c (x ∷ s) (ne, h) = ground (arith, rsplit_once-Lacks c s h)

pub rsplit_once-append : (c : ℕ) (a b : Text) → Lacks c b → rsplit_once c (a ++ c ∷ b) ≡ some (a, b)
unfolding rsplit_once
rsplit_once-append c [] b h = ground (arith, rsplit_once-Lacks c b h)
rsplit_once-append c (x ∷ a) b h = ground (arith, rsplit_once-append c a b h)

pub trim_start_solid : (c : ℕ) (s : Text) → is_whitespace c ≡ false → trim_start (c ∷ s) ≡ c ∷ s
unfolding trim_start
trim_start_solid c s h = rw h

-- Whitespace at the end goes, solid text in front of it stays.
pub trim_end-append :
    (a b : Text) → Solid a → All (λ c. is_whitespace c ≡ true) b → trim_end (a ++ b) ≡ a
unfolding trim_end
trim_end-append [] [] _ _ = refl
trim_end-append [] (c ∷ b) ha (h, hs) = rw (trim_end-append [] b tt hs) (rw h)
trim_end-append (c ∷ []) b (h, hs) hb = rw (trim_end-append [] b tt hb) (rw h)
trim_end-append (c ∷ d ∷ a) b (h, hs) hb = rw (trim_end-append (d ∷ a) b hs hb)

words_from-Solid : (w word s : Text) → Solid w → words_from word (w ++ s) ≡ words_from (word ++ w) s
unfolding words_from
words_from-Solid [] word s h = rw append-nil
words_from-Solid (c ∷ w) word s (h, hs) =
    rw h (words_from-Solid w (word ++ c ∷ []) s hs ∙ rw append_assoc)

words_from_space : (word s : Text) → word ≢ [] → words_from word (0x20 ∷ s) ≡ word ∷ words_from [] s
unfolding words_from end_word
words_from_space [] s h = absurd (h refl)
words_from_space (c ∷ w) s h = refl

-- A word with a blank behind it is the first of the words.
pub split_whitespace-cons :
    (w s : Text) → w ≢ [] → Solid w → split_whitespace (w ++ 0x20 ∷ s) ≡ w ∷ split_whitespace s
unfolding split_whitespace
split_whitespace-cons w s ne h = rw (words_from-Solid w [] (0x20 ∷ s) h, words_from_space w s ne)

words_from_all : (w : Text) → Solid w → words_from [] w ≡ words_from w []
words_from_all w h = rw (append-nil w) at (words_from-Solid w [] [] h)

pub split_whitespace_one : (w : Text) → w ≢ [] → Solid w → split_whitespace w ≡ w ∷ []
unfolding split_whitespace
split_whitespace_one [] ne h = absurd (ne refl)
split_whitespace_one (c ∷ w) ne h = words_from_all (c ∷ w) h ∙ unfold words_from end_word in refl

-- Text in front of something solid stays whole.
pub trim_end-prefix : (p t u : Text) (c : ℕ) → trim_end t ≡ c ∷ u → trim_end (p ++ t) ≡ p ++ c ∷ u
unfolding trim_end
trim_end-prefix [] t u c e = e
trim_end-prefix (x ∷ []) t u c e = rw e
trim_end-prefix (x ∷ y ∷ p) t u c e = rw (trim_end-prefix (y ∷ p) t u c e)

digit-solid : (c : ℕ) → IsDigit c → is_whitespace c ≡ false
digit-solid c h = ground arith

pub digits-Solid : (s : Text) → All IsDigit s → Solid s
digits-Solid = All-map IsDigit _ digit-solid
