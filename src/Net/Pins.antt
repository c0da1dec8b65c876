-- ===== src/Net/Pins.antt =====
-- A pin names one digest.
use muxly.Base.{
  ℕ, ◌/◌, ◌%◌, ◌<◌, ◌≡◌, refl, sym, ◌∙◌, arith, Option, none, some, List, [], ◌∷◌, Bytes, Text,
  same_iff, All,
}
use muxly.Outcome.{ok}
use muxly.Net.{nibble_to_hex, hex, hex_sha256, verify_tls_pin}

nibble-injective : (a b : ℕ) → a < 16 → b < 16 → nibble_to_hex a ≡ nibble_to_hex b → a ≡ b
unfolding nibble_to_hex
nibble-injective a b h k e = ground arith

byte-injective :
    (a b : ℕ)
    → a < 256
    → b < 256
    → nibble_to_hex (a / 16) ≡ nibble_to_hex (b / 16)
    → nibble_to_hex (a % 16) ≡ nibble_to_hex (b % 16)
    → a ≡ b
byte-injective a b h k e f =
    let high = nibble-injective (a / 16) (b / 16) (omega arith) (omega arith) e in
    let low = nibble-injective (a % 16) (b % 16) (omega arith) (omega arith) f in omega arith

hex-injective :
    (xs ys : Bytes) → All (λ b. b < 256) xs → All (λ b. b < 256) ys → hex xs ≡ hex ys → xs ≡ ys
unfolding hex
hex-injective [] [] hs ks e = refl
hex-injective [] (y ∷ ys) hs ks e = cc
hex-injective (x ∷ xs) [] hs ks e = cc
hex-injective (x ∷ xs) (y ∷ ys) (h, hs) (k, ks) e =
    let p : nibble_to_hex (x / 16) ≡ nibble_to_hex (y / 16) = cc in
    let q : nibble_to_hex (x % 16) ≡ nibble_to_hex (y % 16) = cc in
    let r : hex xs ≡ hex ys = cc in
    let s = byte-injective x y h k p q in let t = hex-injective xs ys hs ks r in cc

-- What an accepted session shows: a chain whose first certificate has the pin.
pub verify_tls_pin-eq-ok :
    (digest : Bytes → Bytes) (certs : Option (List Bytes)) (pin : Text)
    → verify_tls_pin digest certs (some pin) ≡ ok tt
    → (cert : Bytes) × (rest : List Bytes) × (certs ≡ some (cert ∷ rest))
      × (hex_sha256 digest cert ≡ pin)
unfolding verify_tls_pin
verify_tls_pin-eq-ok digest none pin e = cc
verify_tls_pin-eq-ok digest (some []) pin e = cc
verify_tls_pin-eq-ok digest (some (cert ∷ rest)) pin e =
    (cert, rest, refl, (same_iff _ _).0 (ground arith))

-- Two sessions that one pin accepts show chains that begin with certificates of the same digest, for
-- a digest of bytes.
pub verify_tls_pin-digest :
    (digest : Bytes → Bytes) (certs certs' : Option (List Bytes)) (pin : Text)
    → ((cert : Bytes) → All (λ b. b < 256) (digest cert))
    → verify_tls_pin digest certs (some pin) ≡ ok tt
    → verify_tls_pin digest certs' (some pin) ≡ ok tt
    → (cert cert' : Bytes) × (rest rest' : List Bytes) × (certs ≡ some (cert ∷ rest))
      × (certs' ≡ some (cert' ∷ rest'))
      × (digest cert ≡ digest cert')
unfolding hex_sha256
verify_tls_pin-digest digest certs certs' pin bytes e f =
    let (cert, rest, p, h) = verify_tls_pin-eq-ok digest certs pin e in
    let (cert', rest', q, k) = verify_tls_pin-eq-ok digest certs' pin f in
    (
      cert,
      cert',
      rest,
      rest',
      p,
      q,
      hex-injective (digest cert) (digest cert') (bytes cert) (bytes cert') (h ∙ sym k),
    )
