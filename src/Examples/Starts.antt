-- ===== src/Examples/Starts.antt =====
-- A WebTransport server that starts on an empty file system.
use muxly.Base.{ℕ, ◌≡◌, refl, Option, none, some, [], ◌∷◌, ◌++◌, Bytes, Text, codes, same_refl}
use muxly.Std.Paths.{join, parent}
use muxly.Outcome.{Result, ok}
use muxly.Args.{H3wtServerArgs}
use muxly.Net.{verify_h3wt_pin}
use muxly.Identity.{
  ReadyFile, paths_in, identity_paths, create_parent, create_identity, load_or_create,
  load_or_create_from, load_or_create_identity, write_ready_file,
}
use muxly.Start.{Network, resolve_socket_addr, certificate_hash, start_h3wt_server}
use muxly.Start.Ready.{Written, start_h3wt_server-ready}
use muxly.Examples.Disks.{Disk, put_plain, disk_files, empty_disk}

put_plain_same :
    (path : Text) (bytes : Bytes) (files : Text → Option Bytes)
    → put_plain path bytes files path ≡ some bytes
put_plain_same path bytes files = rw (same_refl path)

abbrev disk_written : Written disk_files
disk_written = record {
  Contents = λ w path bytes. w.plain path ≡ some bytes;
  write_law = λ w path bytes e. put_plain_same path bytes w.plain;
}

-- Listeners are their ports.
abbrev network : Network disk_files
network = record {
  Address = Text × ℕ;
  Listener = ℕ;
  bind = λ host port w. (ok port, w);
  endpoint = λ identity address w. (ok address.1, w);
  local_port = λ listener w. (ok listener, w);
  to_socket_addrs = λ host port. ok ((host, port) ∷ []);
  certificate_chain = λ identity. (identity ∷ []) ∷ [];
  hash_text = λ certificate. codes "sha256:" ++ certificate;
}

abbrev path_and_pin : ReadyFile → Result Bytes
path_and_pin ready = ok (ready.path ++ (elim ready.sha256 [ none ↦ [] | some pin ↦ pin ]))

abbrev server : H3wtServerArgs
server = record {
  listen_host = codes "::1";
  listen_port = 4433;
  path = codes "/rpc";
  upstream_unix = codes "/sock";
  ready_file = codes "/run/ready.json";
  max_message_bytes = 100;
}

start_h3wt_server-ready_example :
    (identity : ℕ) × (address : Text × ℕ) × (v : Disk) × (port : ℕ) × (sha256 : Text)
    × (bytes : Bytes) × ((network.endpoint identity address v).0 ≡ ok 4433)
    × ((network.local_port 4433 (network.endpoint identity address v).1).0 ≡ ok port)
    × (path_and_pin (record {
      host = server.listen_host;
      port = port;
      path = server.path;
      sha256 = some sha256;
    })
        ≡ ok bytes)
    × ((start_h3wt_server disk_files network path_and_pin server empty_disk).1.plain
          server.ready_file
        ≡ some bytes)
    × (verify_h3wt_pin network.hash_text (some (network.certificate_chain identity)) (some sha256)
        ≡ ok tt)
unfolding start_h3wt_server load_or_create_identity load_or_create_from identity_paths paths_in
    load_or_create create_identity create_parent parent join certificate_hash resolve_socket_addr
    write_ready_file
start_h3wt_server-ready_example =
    start_h3wt_server-ready disk_written network path_and_pin server empty_disk 4433 refl
