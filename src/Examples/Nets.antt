-- ===== src/Examples/Nets.antt =====
-- Addresses and pins at concrete inputs.
use muxly.Base.{ℕ, ◌≡◌, refl, arith, some, [], ◌∷◌, Bytes, codes}
use muxly.Outcome.{ok}
use muxly.Std.Str.{contains, starts_with}
use muxly.Net.{authority, extract_lookup_port, hex, nibble_to_hex, hex_sha256, verify_tls_pin}
use muxly.Net.Addresses.{IsHost, v6, extract_lookup_port-authority}

loopback-IsHost : IsHost (codes "::1")
unfolding contains starts_with
loopback-IsHost = v6 refl refl (omega arith)

extract_lookup_port-authority_example :
    extract_lookup_port (authority (codes "::1") 9443) ≡ some 9443
extract_lookup_port-authority_example =
    extract_lookup_port-authority (codes "::1") 9443 loopback-IsHost (omega arith)

-- A digest of one byte.
abbrev toy_digest : Bytes → Bytes
toy_digest [] = 0x5f ∷ []
toy_digest (b ∷ bs) = 0xa0 ∷ []

accepted :
    (cert : Bytes) (b : ℕ)
    → verify_tls_pin toy_digest (some ((b ∷ cert) ∷ [])) (some (codes "a0")) ≡ ok tt
unfolding verify_tls_pin hex_sha256 hex nibble_to_hex
accepted cert b = refl
