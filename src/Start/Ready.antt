-- ===== src/Start/Ready.antt =====
-- What the ready file of a WebTransport server says.
use mathlib.Core.Path.{subst}
use muxly.Base.{ℕ, ◌≡◌, refl, sym, ap, ◌∙◌, some, List, [], ◌∷◌, Bytes, Text, first, same_refl}
use muxly.Outcome.{◌>>=◌, Result, ok, ok_or, index_out_of_bounds}
use muxly.Host.{follow-eq-ok}
use muxly.Args.{H3wtServerArgs}
use muxly.Net.{verify_h3wt_pin}
use muxly.Identity.{Files, ReadyFile, create_parent, write_ready_file, load_or_create_identity}
use muxly.Start.{Network, resolve_socket_addr, certificate_hash, start_h3wt_server}

-- A file that has been written has its bytes.
pub record Written (files : Files) : Type 1 where
  pub Contents : files.World → Text → Bytes → Type 0
  pub write_law :
      (w : files.World) (path : Text) (bytes : Bytes)
      → (files.write path bytes w).0 ≡ ok tt
      → Contents (files.write path bytes w).1 path bytes

-- The pin of the first certificate is accepted.
first_hash_accepted :
    (hash_text : Bytes → Text) (chain : List Bytes) (sha256 : Text)
    → (ok_or (first chain) index_out_of_bounds >>= λ certificate. ok (hash_text certificate))
      ≡ ok sha256
    → verify_h3wt_pin hash_text (some chain) (some sha256) ≡ ok tt
unfolding verify_h3wt_pin
first_hash_accepted hash_text [] sha256 e = cc
first_hash_accepted hash_text (cert ∷ rest) sha256 e =
    let same_text : hash_text cert ≡ sha256 = cc in
    ap (λ t. verify_h3wt_pin hash_text (some (cert ∷ rest)) (some t)) (sym same_text)
    ∙ rw (same_refl (hash_text cert)) refl

module _ {files : Files} (written : Written files) (network : Network files)
    (to_vec_pretty : ReadyFile → Result Bytes) where
  open files use {World, Identity, write}
  open written use {Contents, write_law}
  open network use {Address, Listener, endpoint, local_port, certificate_chain, hash_text}

  write_ready_file-written :
      (path : Text) (ready : ReadyFile) (w : World)
      → (write_ready_file files to_vec_pretty path ready w).0 ≡ ok tt
      → (bytes : Bytes) × (to_vec_pretty ready ≡ ok bytes)
        × Contents (write_ready_file files to_vec_pretty path ready w).1 path bytes
  unfolding write_ready_file
  write_ready_file-written path ready w e =
      let (_, _, e₁, at₁) = follow-eq-ok (create_parent files path w) _ e in
      let w₁ = (create_parent files path w).1 in
      let (bytes, made, e₂, at₂) = follow-eq-ok (to_vec_pretty ready, w₁) _ e₁ in
      (
        bytes,
        made,
        subst (λ v. Contents v path bytes) (sym (at₁ ∙ at₂)) (write_law w₁ path bytes e₂),
      )

  certificate_hash-verify_h3wt_pin :
      (identity : Identity) (sha256 : Text)
      → certificate_hash files network identity ≡ ok sha256
      → verify_h3wt_pin hash_text (some (certificate_chain identity)) (some sha256) ≡ ok tt
  unfolding certificate_hash
  certificate_hash-verify_h3wt_pin identity sha256 e =
      first_hash_accepted hash_text (certificate_chain identity) sha256 e

  -- If a WebTransport server starts, its ready file holds the path of its arguments, the port of its
  -- endpoint, and a hash that is a pin which `verify_h3wt_pin` accepts for the certificate chain of
  -- the identity that the endpoint was made with.
  pub start_h3wt_server-ready :
      (args : H3wtServerArgs) (w : World) (listener : Listener)
      → (start_h3wt_server files network to_vec_pretty args w).0 ≡ ok listener
      → (identity : Identity) × (address : Address) × (v : World) × (port : ℕ) × (sha256 : Text)
        × (bytes : Bytes) × ((endpoint identity address v).0 ≡ ok listener)
        × ((local_port listener (endpoint identity address v).1).0 ≡ ok port)
        × (to_vec_pretty (record {
          host = args.listen_host;
          port = port;
          path = args.path;
          sha256 = some sha256;
        })
            ≡ ok bytes)
        × Contents (start_h3wt_server files network to_vec_pretty args w).1 args.ready_file bytes
        × (verify_h3wt_pin hash_text (some (certificate_chain identity)) (some sha256) ≡ ok tt)
  unfolding start_h3wt_server
  start_h3wt_server-ready args w listener e =
      let (identity, _, e₁, at₁) =
        follow-eq-ok (load_or_create_identity files args.listen_host w) _ e in
      let w₁ = (load_or_create_identity files args.listen_host w).1 in
      let (sha256, hashed, e₂, at₂) =
        follow-eq-ok (certificate_hash files network identity, w₁) _ e₁ in
      let (address, _, e₃, at₃) =
        follow-eq-ok (resolve_socket_addr files network args.listen_host args.listen_port, w₁) _
          e₂ in
      let (k, opened, e₄, at₄) = follow-eq-ok (endpoint identity address w₁) _ e₃ in
      let w₂ = (endpoint identity address w₁).1 in
      let (port, bound, e₅, at₅) = follow-eq-ok (local_port k w₂) _ e₄ in
      let w₃ = (local_port k w₂).1 in
      let ready : ReadyFile = record {
        host = args.listen_host;
        port = port;
        path = args.path;
        sha256 = some sha256;
      } in
      let (_, put, e₆, at₆) =
        follow-eq-ok (write_ready_file files to_vec_pretty args.ready_file ready w₃) _ e₅ in
      let (bytes, made, contents) = write_ready_file-written args.ready_file ready w₃ put in
      let same : k ≡ listener = cc e₆ in
      (
        identity,
        address,
        w₁,
        port,
        sha256,
        bytes,
        opened ∙ ap ok same,
        ap (λ l. (local_port l w₂).0) (sym same) ∙ bound,
        made,
        subst (λ v. Contents v args.ready_file bytes) (sym (at₁ ∙ at₂ ∙ at₃ ∙ at₄ ∙ at₅ ∙ at₆))
            contents,
        certificate_hash-verify_h3wt_pin identity sha256 hashed,
      )
