-- ===== src/Tls/Pinned.antt =====
-- What a client that connects knows of its server.
use muxly.Base.{◌≡◌, sym, ap, ◌∙◌, Option, none, some, List, ◌∷◌, Bytes, Text}
use mathlib.Core.Path.{subst}
use muxly.Outcome.{Error, ok, ok_or, invalid_tls_server_name}
use muxly.Host.{Host, follow-eq-ok}
use muxly.Args.{HttpClientArgs}
use muxly.Net.{hex_sha256, verify_tls_pin}
use muxly.Net.Pins.{verify_tls_pin-eq-ok}
use muxly.Tls.{TrustStore, trusted_roots, name_or_host, Tls, verify_session, connect_tls_client}

-- What a handshake of rustls that succeeds has verified: the chain of the server leads to one of the
-- roots, and is for the name.
pub record Handshake (host : Host) (store : TrustStore) (tls : Tls host store) : Type 1 where
  pub Verified : host.World → host.Handle → store.Roots → tls.ServerName → Type 0
  pub connect_law :
      (w : host.World) (roots : store.Roots) (alpn_protocols : List Bytes) (name : tls.ServerName)
      (tcp session : host.Handle)
      → (tls.connect roots alpn_protocols name tcp w).0 ≡ ok session
      → Verified (tls.connect roots alpn_protocols name tcp w).1 session roots name

ok_or-eq-ok : {A : Type 0} (o : Option A) (e : Error) {a : A} → ok_or o e ≡ ok a → o ≡ some a
ok_or-eq-ok none e p = cc
ok_or-eq-ok (some a) e p = cc

module _ {host : Host} {store : TrustStore} {tls : Tls host store}
    (handshake : Handshake host store tls) where
  open host use {World, Handle}
  open store use {Roots}
  open tls use {ServerName, server_name, tcp_connect, connect, peer_certificates, digest}
  open handshake use {Verified, connect_law}

  -- If a client with a pin gets a TLS session, then the session is verified against the native roots
  -- and those of the CA file, for the name of `--tls-server-name`, or of the host where that is not
  -- given; and it shows a chain whose first certificate has the pin as its digest in hexadecimal.
  pub connect_tls_client-pinned :
      (args : HttpClientArgs) (alpn_protocols : List Bytes) (w : World) (session : Handle)
      (pin : Text)
      → args.tls_sha256 ≡ some pin
      → (connect_tls_client host store tls args alpn_protocols w).0 ≡ ok session
      → (roots : Roots) × (name : ServerName) × (cert : Bytes) × (rest : List Bytes)
        × (trusted_roots store args.tls_ca_file ≡ ok roots)
        × (server_name (name_or_host args.tls_server_name args.host) ≡ some name)
        × Verified (connect_tls_client host store tls args alpn_protocols w).1 session roots name
        × (peer_certificates session (connect_tls_client host store tls args alpn_protocols w).1
            ≡ some (cert ∷ rest))
        × (hex_sha256 digest cert ≡ pin)
  unfolding connect_tls_client
  connect_tls_client-pinned args alpn_protocols w session pin pinned e =
      let named =
        ok_or (server_name (name_or_host args.tls_server_name args.host)) invalid_tls_server_name in
      let (roots, trusted, e₁, at₁) = follow-eq-ok (trusted_roots store args.tls_ca_file, w) _ e in
      let (name, known, e₂, at₂) = follow-eq-ok (named, w) _ e₁ in
      let (tcp, _, e₃, at₃) = follow-eq-ok (tcp_connect args.host args.port w) _ e₂ in
      let w₁ = (tcp_connect args.host args.port w).1 in
      let (s, opened, e₄, at₄) = follow-eq-ok (connect roots alpn_protocols name tcp w₁) _ e₃ in
      let w₂ = (connect roots alpn_protocols name tcp w₁).1 in
      let (_, checked, e₅, at₅) =
        follow-eq-ok (verify_session host store tls s args.tls_sha256 w₂) _ e₄ in
      let same : s ≡ session = cc e₅ in
      let at = at₁ ∙ at₂ ∙ at₃ ∙ at₄ ∙ at₅ in
      let (cert, rest, shown, digested) =
        verify_tls_pin-eq-ok digest (peer_certificates s w₂) pin
          (ap (λ p. verify_tls_pin digest (peer_certificates s w₂) p) (sym pinned) ∙ checked) in
      (
        roots,
        name,
        cert,
        rest,
        trusted,
        ok_or-eq-ok (server_name (name_or_host args.tls_server_name args.host))
            invalid_tls_server_name known,
        subst (λ v. Verified v session roots name) (sym at)
            (subst (λ k. Verified w₂ k roots name) same
              (connect_law w₁ roots alpn_protocols name tcp s opened)),
        ap (λ v. peer_certificates session v) at
            ∙ ap (λ k. peer_certificates k w₂) (sym same)
            ∙ shown,
        digested,
      )
