-- ===== src/Identity.antt =====
-- The certificate of the WebTransport server and the ready file: `load_or_create_identity`,
-- `identity_paths` and `write_ready_file` of tools/transport_bridge/src/main.rs.
pub mod Stored
pub mod Restart
use muxly.Base.{
  ℕ, Bool, true, false, not, ◌&&◌, ◌||◌, Option, none, some, List, [], ◌∷◌, ◌++◌, Bytes, Text,
  codes, same, if◌then◌else◌,
}
use muxly.Std.Paths.{join, parent}
use muxly.Outcome.{Result, ok, err, ok_or, missing_home}
use muxly.Host.{Io, pure, lift, ◌>>=◌, ◌>>◌}

-- What the bridge takes from the environment, tokio's file system and the wtransport library.
pub record Files : Type 1 where
  pub World : Type 0
  pub Identity : Type 0
  -- `env::var(name).ok()`
  pub var : Text → Option Text
  -- `path.exists()`
  pub exists : Text → World → Bool
  pub create_dir_all : Text → Io World (Unit {0})
  -- `fs::write`
  pub write : Text → Bytes → Io World (Unit {0})
  -- `Identity::load_pemfiles(cert_path, key_path)`
  pub load_pemfiles : Text → Text → Io World Identity
  pub self_signed : List Text → Io World Identity
  -- `identity.certificate_chain().store_pemfile(path)`
  pub store_pemfile : Identity → Text → Io World (Unit {0})
  -- `identity.private_key().store_secret_pemfile(path)`
  pub store_secret_pemfile : Identity → Text → Io World (Unit {0})

pub record ReadyFile : Type 0 where
  pub host : Text
  pub port : ℕ
  pub path : Text
  pub sha256 : Option Text

abbrev pub any_same : Text → List Text → Bool
any_same name [] = false
any_same name (value ∷ values) = same value name || any_same name values

abbrev fixed_names : List Text
fixed_names = codes "localhost" ∷ codes "127.0.0.1" ∷ codes "::1" ∷ []

-- The names in a new certificate.
unfoldable pub certificate_names : Text → List Text
unfolding fixed_names
certificate_names listen_host =
    if not (same listen_host [])
      && not (same listen_host (codes "0.0.0.0"))
      && not (same listen_host (codes "::"))
      && not (any_same listen_host fixed_names)
    then fixed_names ++ listen_host ∷ []
    else fixed_names

-- `env::var(..)` for both, in an `if let`.
abbrev pub both : Option Text → Option Text → Option (Text × Text)
both (some a) (some b) = some (a, b)
both _ _ = none

abbrev two_files : Text → Text → Text → Text × Text
two_files base cert key = (join base cert, join base key)

abbrev state_files : Text → Text × Text
state_files base = two_files base (codes "h3wt-cert.pem") (codes "h3wt-key.pem")

-- By the three variables that it reads in turn.
unfoldable pub paths_in : Option Text → Option Text → Option Text → Result (Text × Text)
unfolding two_files state_files
paths_in (some dir) state_home home = ok (two_files dir (codes "cert.pem") (codes "key.pem"))
paths_in none (some state_home) home = ok (state_files (join state_home (codes "muxly")))
paths_in none none (some home) = ok (state_files (join home (codes ".local/state/muxly")))
paths_in none none none = err missing_home

module _ (files : Files) where
  open files use {
    World, Identity, var, exists, create_dir_all, write, load_pemfiles, self_signed, store_pemfile,
    store_secret_pemfile,
  }

  unfoldable pub identity_paths : Result (Text × Text)
  identity_paths =
      paths_in (var (codes "MUXLY_H3WT_IDENTITY_DIR")) (var (codes "XDG_STATE_HOME"))
        (var (codes "HOME"))

  -- `if let Some(parent) = path.parent() { fs::create_dir_all(parent).await?; }`
  unfoldable pub create_parent : Text → Io World (Unit {0})
  create_parent path = elim (parent path) [ none ↦ pure tt | some dir ↦ create_dir_all dir ]

  -- The part of `load_or_create_identity` for files that are not both there.
  unfoldable pub create_identity : Text → (cert_path key_path : Text) → Io World Identity
  create_identity listen_host cert_path key_path = do
    create_parent cert_path
    create_parent key_path
    identity ← self_signed (certificate_names listen_host)
    store_pemfile identity cert_path
    store_secret_pemfile identity key_path
    pure identity

  -- The part behind `identity_paths`.
  unfoldable pub load_or_create : Text → Text × Text → Io World Identity
  load_or_create listen_host (cert_path, key_path) w =
      if exists cert_path w && exists key_path w
      then load_pemfiles cert_path key_path w
      else create_identity listen_host cert_path key_path w

  -- By the paths that the two variables give.
  unfoldable pub load_or_create_from : Option (Text × Text) → Text → Io World Identity
  load_or_create_from (some (cert_path, key_path)) listen_host = load_pemfiles cert_path key_path
  load_or_create_from none listen_host = do
    paths ← lift identity_paths
    load_or_create listen_host paths

  unfoldable pub load_or_create_identity : Text → Io World Identity
  load_or_create_identity =
      load_or_create_from (both (var (codes "MUXLY_H3WT_CERT")) (var (codes "MUXLY_H3WT_KEY")))

  -- `serde_json::to_vec_pretty` is a parameter.
  unfoldable pub write_ready_file :
      (to_vec_pretty : ReadyFile → Result Bytes) → Text → ReadyFile → Io World (Unit {0})
  write_ready_file to_vec_pretty path ready = do
    create_parent path
    bytes ← lift (to_vec_pretty ready)
    write path bytes
