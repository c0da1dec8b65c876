-- ===== src/Examples/Disks.antt =====
-- A file system in memory, with the certificate that a server keeps there; and a TLS handshake that
-- one server passes.
use muxly.Base.{
  ℕ, ◌<◌, ◌≢◌, ap, length, ◌≡◌, refl, arith, Bool, true, false, ◌||◌, Option, none, some, List, [],
  ◌∷◌, Bytes, Text, codes, same, same_refl, same_iff, Bool-cases, inl, inr, ◌==◌, if◌then◌else◌,
}
use muxly.Std.Paths.{join, parent}
use muxly.Outcome.{Result, ok, err, external}
use muxly.Args.{HttpClientArgs}
use muxly.Net.{hex, hex_sha256, verify_tls_pin}
use muxly.Identity.{
  Files, identity_paths, paths_in, create_parent, create_identity, certificate_names,
  load_or_create, load_or_create_from, load_or_create_identity, ReadyFile, write_ready_file,
}
use muxly.Identity.Stored.{Stored, Later, at_once, then_load, then_ready}
use muxly.Identity.Restart.{load_or_create_identity-again}
use muxly.Tls.{TrustStore, trusted_roots, name_or_host, Tls, connect_tls_client}
use muxly.Tls.Pinned.{Handshake, connect_tls_client-pinned}
use muxly.Examples.Memory.{memory, with_input}

-- Which identity the file at a path belongs to. Chains and keys are in maps of their own.
pub record Disk : Type 0 where
  pub chains : Text → Option ℕ
  pub keys : Text → Option ℕ
  pub next_identity : ℕ
  pub plain : Text → Option Bytes

abbrev pub put_file : Text → ℕ → (Text → Option ℕ) → Text → Option ℕ
put_file path i files p = if same p path then some i else files p

abbrev pub put_plain : Text → Bytes → (Text → Option Bytes) → Text → Option Bytes
put_plain path bytes files p = if same p path then some bytes else files p

abbrev pub is_there : Option ℕ → Bool
is_there none = false
is_there (some i) = true

abbrev pub is_on_disk : Text → Disk → Bool
is_on_disk path w = is_there (w.chains path) || is_there (w.keys path)

abbrev pub load : Option ℕ → Option ℕ → Result ℕ
load (some i) (some j) = if i == j then ok i else err (external 1)
load _ _ = err (external 2)

abbrev pub disk_files : Files
disk_files = record {
  World = Disk;
  Identity = ℕ;
  var = λ name. if same name (codes "HOME") then some (codes "/home/me") else none;
  exists = is_on_disk;
  create_dir_all = λ dir w. (ok tt, w);
  write = λ path bytes w. (ok tt, record w { plain = put_plain path bytes w.plain });
  load_pemfiles = λ cert_path key_path w. (load (w.chains cert_path) (w.keys key_path), w);
  self_signed = λ names w. (ok w.next_identity, w);
  store_pemfile = λ i path w. (ok tt, record w { chains = put_file path i w.chains });
  store_secret_pemfile = λ i path w. (ok tt, record w { keys = put_file path i w.keys });
}

put_file_same :
    (path : Text) (i : ℕ) (files : Text → Option ℕ) → put_file path i files path ≡ some i
put_file_same path i files = rw (same_refl path)

load_same : (c k : Option ℕ) (i : ℕ) → c ≡ some i → k ≡ some i → load c k ≡ ok i
load_same c k i p q = rw (p, q) (ground arith)

there : (c k : Option ℕ) (i : ℕ) → c ≡ some i → (is_there c || is_there k) ≡ true
there c k i p = rw p

there_key : (c k : Option ℕ) (i : ℕ) → k ≡ some i → (is_there c || is_there k) ≡ true
there_key none k i p = rw p
there_key (some j) k i p = refl

abbrev disk_stored : Stored disk_files
disk_stored = record {
  HoldsChain = λ w path i. w.chains path ≡ some i;
  HoldsKey = λ w path i. w.keys path ≡ some i;
  store_pemfile_law = λ w i path e. put_file_same path i w.chains;
  store_secret_pemfile_law = λ w i path e. put_file_same path i w.keys;
  store_secret_pemfile_keeps = λ w i path other ne h. h;
  chain_exists = λ w path i h. there (w.chains path) (w.keys path) i h;
  key_exists = λ w path i h. there_key (w.chains path) (w.keys path) i h;
  load_pemfiles_law = λ w i cert_path key_path h k. load_same _ _ i h k;
  load_pemfiles_keeps = λ w i a b cert_path key_path h. h;
  create_dir_all_keeps = λ w i dir cert_path key_path h. h;
  write_keeps = λ w i path bytes cert_path key_path ne ne' h. h;
}

abbrev pub empty_disk : Disk
empty_disk = record { chains = λ _. none; keys = λ _. none; next_identity = 5; plain = λ _. none }

length_ne : (a b : Text) → length a < length b → a ≢ b
length_ne a b lt same = omega (arith, lt, ap length same)

-- The first server writes its ready file, and a second one starts.
abbrev first_start : Disk
first_start = (load_or_create_identity disk_files (codes "example.org") empty_disk).1

abbrev a_ready_file : ReadyFile
a_ready_file = record { host = codes "::1"; port = 7; path = codes "/rpc"; sha256 = none }

abbrev ready_written : Disk
ready_written =
    (write_ready_file disk_files (λ ready. ok (codes "{}")) (codes "/r") a_ready_file first_start).1

abbrev second_start : Disk
second_start = (load_or_create_identity disk_files (codes "::1") ready_written).1

abbrev home_cert : Text
home_cert = codes "/home/me/.local/state/muxly/h3wt-cert.pem"

abbrev home_key : Text
home_key = codes "/home/me/.local/state/muxly/h3wt-key.pem"

second_start-Later : Later disk_files home_cert home_key first_start second_start
second_start-Later = then_load (codes "::1") (
    then_ready (λ ready. ok (codes "{}")) (codes "/r") a_ready_file
      (length_ne (codes "/r") home_cert (omega arith))
      (length_ne (codes "/r") home_key (omega arith)) at_once)

load_or_create_identity-again_example :
    (load_or_create_identity disk_files (codes "::") second_start).0 ≡ ok 5
unfolding load_or_create_identity load_or_create_from load_or_create create_identity create_parent
    identity_paths paths_in join parent certificate_names
load_or_create_identity-again_example =
    load_or_create_identity-again disk_stored (codes "example.org") (codes "::") home_cert home_key
      empty_disk second_start 5 refl refl refl refl second_start-Later

-- Paths as `Path::parent` and `PathBuf::join` have them.
parents :
    (parent (codes "/tmp//cert.pem") ≡ some (codes "/tmp"))
    × (parent (codes "cert.pem") ≡ some [])
    × (parent (codes "/cert.pem") ≡ some (codes "/"))
    × (parent (codes "a/./ready/") ≡ some (codes "a"))
    × (parent (codes "/") ≡ none)
unfolding parent
parents = (refl, refl, refl, refl, refl)

joins :
    (join (codes "/tmp") (codes "cert.pem") ≡ codes "/tmp/cert.pem")
    × (join (codes "/tmp/") (codes "cert.pem") ≡ codes "/tmp/cert.pem")
    × (join [] (codes "muxly") ≡ codes "muxly")
unfolding join
joins = (refl, refl, refl)

abbrev one_root : TrustStore
one_root = record {
  Roots = List Bytes;
  empty = [];
  add = λ roots cert. ok (cert ∷ roots);
  native_certs = codes "root" ∷ [];
  pem_file_iter = λ path. ok (ok (codes "ca") ∷ []);
}

abbrev one_server : Tls memory one_root
one_server = record {
  ServerName = Text;
  server_name = λ name. some name;
  tcp_connect = λ host port w. (ok 3, w);
  connect = λ roots alpn_protocols name tcp w.
      (if same name (codes "example.org") then ok tcp else err (external 3), w);
  peer_certificates = λ session w. some (codes "leaf" ∷ codes "root" ∷ []);
  digest = λ bytes. 0xab ∷ 0x01 ∷ [];
}

connected_name :
    (name : Text) (tcp session : ℕ)
    → (if same name (codes "example.org") then ok tcp else err (external 3)) ≡ ok session
    → name ≡ codes "example.org"
connected_name name tcp session e = elim (Bool-cases (same name (codes "example.org"))) [
  | inl known ↦ (same_iff name (codes "example.org")).0 known
  | inr other ↦ absurd (ground (arith, other))
]

abbrev one_handshake : Handshake memory one_root one_server
one_handshake = record {
  Verified = λ w session roots name. name ≡ codes "example.org";
  connect_law = λ w roots alpn_protocols name tcp session e. connected_name name tcp session e;
}

abbrev pinned_client : HttpClientArgs
pinned_client = record {
  host = codes "example.org";
  port = 443;
  path = codes "/rpc";
  max_message_bytes = 100;
  tls = true;
  tls_server_name = none;
  tls_ca_file = some (codes "ca.pem");
  tls_sha256 = some (codes "ab01");
}

connect_tls_client-pinned_example :
    (roots : List Bytes) × (name : Text) × (cert : Bytes) × (rest : List Bytes) × (trusted_roots
        one_root pinned_client.tls_ca_file
      ≡ ok roots)
    × (some (name_or_host pinned_client.tls_server_name pinned_client.host) ≡ some name)
    × (name ≡ codes "example.org")
    × (some (codes "leaf" ∷ codes "root" ∷ []) ≡ some (cert ∷ rest))
    × (hex_sha256 one_server.digest cert ≡ codes "ab01")
unfolding connect_tls_client trusted_roots verify_tls_pin hex_sha256 hex
connect_tls_client-pinned_example =
    connect_tls_client-pinned one_handshake pinned_client (codes "h2" ∷ []) (with_input []) 3
      (codes "ab01") refl refl
