-- ===== src/Identity/Stored.antt =====
-- The files in which a server keeps its certificate: what the bridge relies on, their two paths, and
-- what later starts do to them.
use muxly.Base.{
  ℕ, ◌≡◌, ◌≢◌, refl, sym, ap, ◌∙◌, arith, true, Option, none, some, [], ◌∷◌, ◌++◌, Text, Bytes,
  codes, length, length-append, last, ◌==◌, if◌then◌else◌,
}
use muxly.Std.Paths.{join}
use muxly.Outcome.{Result, ok}
use muxly.Identity.{Files, paths_in, load_or_create_identity, ReadyFile, write_ready_file}

-- What the bridge relies on: a file that has been stored is there and is read back, and reading files,
-- making directories and writing another file leave it as it is. `HoldsChain w path i`: in `w` the file holds the chain of `i`.
pub record Stored (files : Files) : Type 1 where
  pub HoldsChain : files.World → Text → files.Identity → Type 0
  pub HoldsKey : files.World → Text → files.Identity → Type 0
  pub store_pemfile_law :
      (w : files.World) (i : files.Identity) (path : Text)
      → (files.store_pemfile i path w).0 ≡ ok tt
      → HoldsChain (files.store_pemfile i path w).1 path i
  pub store_secret_pemfile_law :
      (w : files.World) (i : files.Identity) (path : Text)
      → (files.store_secret_pemfile i path w).0 ≡ ok tt
      → HoldsKey (files.store_secret_pemfile i path w).1 path i
  pub store_secret_pemfile_keeps :
      (w : files.World) (i : files.Identity) (path other : Text)
      → other ≢ path
      → HoldsChain w other i
      → HoldsChain (files.store_secret_pemfile i path w).1 other i
  pub chain_exists :
      (w : files.World) (path : Text) (i : files.Identity)
      → HoldsChain w path i
      → files.exists path w ≡ true
  pub key_exists :
      (w : files.World) (path : Text) (i : files.Identity)
      → HoldsKey w path i
      → files.exists path w ≡ true
  pub load_pemfiles_law :
      (w : files.World) (i : files.Identity) (cert_path key_path : Text)
      → HoldsChain w cert_path i
      → HoldsKey w key_path i
      → (files.load_pemfiles cert_path key_path w).0 ≡ ok i
  pub load_pemfiles_keeps :
      (w : files.World) (i : files.Identity) (a b cert_path key_path : Text)
      → HoldsChain w cert_path i × HoldsKey w key_path i
      → HoldsChain (files.load_pemfiles a b w).1 cert_path i
        × HoldsKey (files.load_pemfiles a b w).1 key_path i
  pub create_dir_all_keeps :
      (w : files.World) (i : files.Identity) (dir cert_path key_path : Text)
      → HoldsChain w cert_path i × HoldsKey w key_path i
      → HoldsChain (files.create_dir_all dir w).1 cert_path i
        × HoldsKey (files.create_dir_all dir w).1 key_path i
  pub write_keeps :
      (w : files.World) (i : files.Identity) (path : Text) (bytes : Bytes)
      (cert_path key_path : Text)
      → path ≢ cert_path
      → path ≢ key_path
      → HoldsChain w cert_path i × HoldsKey w key_path i
      → HoldsChain (files.write path bytes w).1 cert_path i
        × HoldsKey (files.write path bytes w).1 key_path i

-- What the bridge does to its files behind the first start: further calls of
-- `load_or_create_identity`, for any host, and of `write_ready_file`, for a path that is neither of
-- the two, whether they succeed or fail.
pub data Later (files : Files) (cert_path key_path : Text) (w : files.World)
    : files.World → Type 0 where
  at_once : Later files cert_path key_path w w
  then_load :
      {v : files.World} (listen_host : Text)
      → Later files cert_path key_path w v
      → Later files cert_path key_path w (load_or_create_identity files listen_host v).1
  then_ready :
      {v : files.World} (to_vec_pretty : ReadyFile → Result Bytes) (path : Text) (ready : ReadyFile)
      → path ≢ cert_path
      → path ≢ key_path
      → Later files cert_path key_path w v
      → Later files cert_path key_path w (write_ready_file files to_vec_pretty path ready v).1

separator : Option ℕ → Text
separator none = []
separator (some c) = if c == b'/' then [] else b'/' ∷ []

join_separator :
    (base name : Text) (at_end : Option ℕ)
    → (elim at_end [
      | none ↦ name
      | some c ↦ if c == b'/' then base ++ name else base ++ b'/' ∷ name
    ])
      ≡ (elim at_end [ none ↦ [] | some c ↦ base ]) ++ (separator at_end ++ name)
unfolding separator
join_separator base name none = refl
join_separator base name (some c) = ground arith

-- Names of different lengths in one directory are different paths.
join_ne : (base name name' : Text) → length name ≢ length name' → join base name ≢ join base name'
unfolding join
join_ne base name name' ne same =
    let root : Text = elim (last base) [ none ↦ [] | some c ↦ base ] in
    let front : Text = separator (last base) in
    let e : length (root ++ (front ++ name)) ≡ length (root ++ (front ++ name')) =
      ap length (
        sym (join_separator base name (last base))
        ∙ same
        ∙ join_separator base name' (last base)) in
    ne (
      omega (
        arith,
        e,
        length-append root (front ++ name),
        length-append root (front ++ name'),
        length-append front name,
        length-append front name',
      ))

-- The two files of `identity_paths` are never the same.
pub paths_in_ne :
    (dir state_home home : Option Text) (cert_path key_path : Text)
    → paths_in dir state_home home ≡ ok (cert_path, key_path)
    → cert_path ≢ key_path
unfolding paths_in
paths_in_ne (some dir) state_home home cert_path key_path e same =
    join_ne dir (codes "cert.pem") (codes "key.pem") (omega arith) (cc (e, same))
paths_in_ne none (some state_home) home cert_path key_path e same =
    join_ne (join state_home (codes "muxly")) (codes "h3wt-cert.pem") (codes "h3wt-key.pem")
      (omega arith) (cc (e, same))
paths_in_ne none none (some home) cert_path key_path e same =
    join_ne (join home (codes ".local/state/muxly")) (codes "h3wt-cert.pem") (codes "h3wt-key.pem")
      (omega arith) (cc (e, same))
paths_in_ne none none none cert_path key_path e same = cc e
