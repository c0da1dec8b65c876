-- ===== src/Identity/Restart.antt =====
-- A server that is started again.
use mathlib.Core.Path.{subst}
use muxly.Base.{◌≡◌, ◌≢◌, refl, sym, ap, ◌∙◌, false, ◌&&◌, Option, none, some, Text, Bytes, codes}
use muxly.Std.Paths.{parent}
use muxly.Outcome.{Result, ok, err}
use muxly.Host.{Io, pure, follow, follow-eq-ok}
use muxly.Identity.{
  Files, both, identity_paths, create_parent, certificate_names, create_identity, load_or_create,
  load_or_create_from, load_or_create_identity, ReadyFile, write_ready_file,
}
use muxly.Identity.Stored.{Stored, Later, at_once, then_load, then_ready, paths_in_ne}

module _ {files : Files} (stored : Stored files) where
  open files use {
    World, Identity, var, exists, create_dir_all, load_pemfiles, self_signed, store_pemfile,
    store_secret_pemfile,
  }
  open stored use {
    HoldsChain, HoldsKey, store_pemfile_law, store_secret_pemfile_law, store_secret_pemfile_keeps,
    chain_exists, key_exists, load_pemfiles_law, load_pemfiles_keeps, create_dir_all_keeps,
    write_keeps,
  }

  -- An identity that was created is in its two files.
  create_identity-stored :
      (listen_host cert_path key_path : Text) (w : World) (i : Identity)
      → cert_path ≢ key_path
      → (create_identity files listen_host cert_path key_path w).0 ≡ ok i
      → HoldsChain (create_identity files listen_host cert_path key_path w).1 cert_path i
        × HoldsKey (create_identity files listen_host cert_path key_path w).1 key_path i
  unfolding create_identity
  create_identity-stored listen_host cert_path key_path w i ne e =
      let (_, _, e₁, at₁) = follow-eq-ok (create_parent files cert_path w) _ e in
      let w₁ = (create_parent files cert_path w).1 in
      let (_, _, e₂, at₂) = follow-eq-ok (create_parent files key_path w₁) _ e₁ in
      let w₂ = (create_parent files key_path w₁).1 in
      let (j, _, e₃, at₃) = follow-eq-ok (self_signed (certificate_names listen_host) w₂) _ e₂ in
      let w₃ = (self_signed (certificate_names listen_host) w₂).1 in
      let (_, chain, e₄, at₄) = follow-eq-ok (store_pemfile j cert_path w₃) _ e₃ in
      let w₄ = (store_pemfile j cert_path w₃).1 in
      let (_, key, e₅, at₅) = follow-eq-ok (store_secret_pemfile j key_path w₄) _ e₄ in
      let w₅ = (store_secret_pemfile j key_path w₄).1 in
      let same : j ≡ i = cc e₅ in
      let at = at₁ ∙ at₂ ∙ at₃ ∙ at₄ ∙ at₅ in
      (
        subst (λ v. HoldsChain v cert_path i) (sym at)
            (subst (λ k. HoldsChain w₅ cert_path k) same
              (store_secret_pemfile_keeps w₄ j key_path cert_path ne
                (store_pemfile_law w₃ j cert_path chain))),
        subst (λ v. HoldsKey v key_path i) (sym at)
            (subst (λ k. HoldsKey w₅ key_path k) same (store_secret_pemfile_law w₄ j key_path key)),
      )

  by_paths :
      (listen_host : Text) (w : World) {paths : Text × Text}
      → both (var (codes "MUXLY_H3WT_CERT")) (var (codes "MUXLY_H3WT_KEY")) ≡ none
      → identity_paths files ≡ ok paths
      → load_or_create_identity files listen_host w ≡ load_or_create files listen_host paths w
  unfolding load_or_create_identity load_or_create_from
  by_paths listen_host w unset e =
      ap (λ o. load_or_create_from files o listen_host w) unset
      ∙ ap (λ r. follow (r, w) (load_or_create files listen_host)) e

  Stands : (cert_path key_path : Text) → Identity → World → Type 0
  Stands cert_path key_path i w = HoldsChain w cert_path i × HoldsKey w key_path i

  -- With both files there, they are loaded.
  load_both_files :
      (listen_host cert_path key_path : Text) (w : World) (i : Identity)
      → both (var (codes "MUXLY_H3WT_CERT")) (var (codes "MUXLY_H3WT_KEY")) ≡ none
      → identity_paths files ≡ ok (cert_path, key_path)
      → Stands cert_path key_path i w
      → load_or_create_identity files listen_host w ≡ load_pemfiles cert_path key_path w
  unfolding load_or_create Stands
  load_both_files listen_host cert_path key_path w i unset paths (chain, key) =
      by_paths listen_host w unset paths
      ∙ rw (chain_exists w cert_path i chain, key_exists w key_path i key)

  create_parent-Stands :
      (path cert_path key_path : Text) (w : World) (i : Identity)
      → Stands cert_path key_path i w
      → Stands cert_path key_path i (create_parent files path w).1
  unfolding create_parent Stands
  create_parent-Stands path cert_path key_path w i h = made (parent path)
    where
      made :
          (dir : Option Text)
          → Stands cert_path key_path i
              ((elim dir as (λ _. Io World (Unit {0})) [
                | none ↦ pure tt
                | some d ↦ create_dir_all d
              ])
                w).1
      made none = h
      made (some d) = create_dir_all_keeps w i d cert_path key_path h

  write_ready_file-Stands :
      (to_vec_pretty : ReadyFile → Result Bytes) (path : Text) (ready : ReadyFile)
      (cert_path key_path : Text) (w : World) (i : Identity)
      → path ≢ cert_path
      → path ≢ key_path
      → Stands cert_path key_path i w
      → Stands cert_path key_path i (write_ready_file files to_vec_pretty path ready w).1
  unfolding write_ready_file Stands
  write_ready_file-Stands to_vec_pretty path ready cert_path key_path w i ne ne' h =
      written (create_parent files path w) (to_vec_pretty ready)
        (create_parent-Stands path cert_path key_path w i h)
    where
      written :
          (made : Result (Unit {0}) × World) (bytes : Result Bytes)
          → Stands cert_path key_path i made.1
          → Stands cert_path key_path i
              (follow made (λ _ v. follow (bytes, v) (files.write path))).1
      written (ok x, v) (ok bytes) k = write_keeps v i path bytes cert_path key_path ne ne' k
      written (ok x, v) (err e) k = k
      written (err e, v) bytes k = k

  Later-Stands :
      (cert_path key_path : Text) {w v : World} (i : Identity)
      → both (var (codes "MUXLY_H3WT_CERT")) (var (codes "MUXLY_H3WT_KEY")) ≡ none
      → identity_paths files ≡ ok (cert_path, key_path)
      → Later files cert_path key_path w v
      → Stands cert_path key_path i w
      → Stands cert_path key_path i v
  unfolding Stands
  Later-Stands cert_path key_path i unset paths at_once h = h
  Later-Stands cert_path key_path i unset paths (then_load {v} listen_host later) h =
      let k = Later-Stands cert_path key_path i unset paths later h in
      subst (λ r. Stands cert_path key_path i r.1)
        (sym (load_both_files listen_host cert_path key_path v i unset paths k))
        (load_pemfiles_keeps v i cert_path key_path cert_path key_path k)
  Later-Stands cert_path key_path i unset paths
        (then_ready {v} to_vec_pretty path ready ne ne' later) h =
      write_ready_file-Stands to_vec_pretty path ready cert_path key_path v i ne ne'
        (Later-Stands cert_path key_path i unset paths later h)

  -- A server that creates an identity leaves it to every later start: where the variables for files of
  -- one's own are not both set, and the two files of `identity_paths` are not both there, if a call of
  -- `load_or_create_identity` returns an identity, then after any further calls of
  -- `load_or_create_identity` and of `write_ready_file`, the latter for paths other than the two, and
  -- without other changes of the files, a call for any host returns the same identity, as the
  -- environment stays the same.
  pub load_or_create_identity-again :
      (listen_host later_host cert_path key_path : Text) (w v : World) (i : Identity)
      → both (var (codes "MUXLY_H3WT_CERT")) (var (codes "MUXLY_H3WT_KEY")) ≡ none
      → identity_paths files ≡ ok (cert_path, key_path)
      → (exists cert_path w && exists key_path w) ≡ false
      → (load_or_create_identity files listen_host w).0 ≡ ok i
      → Later files cert_path key_path (load_or_create_identity files listen_host w).1 v
      → (load_or_create_identity files later_host v).0 ≡ ok i
  unfolding load_or_create identity_paths Stands
  load_or_create_identity-again listen_host later_host cert_path key_path w v i unset paths absent e
        later =
      let created : load_or_create_identity files listen_host w
          ≡ create_identity files listen_host cert_path key_path w =
        by_paths listen_host w unset paths ∙ rw absent refl in
      let stored =
        create_identity-stored listen_host cert_path key_path w i
          (paths_in_ne _ _ _ cert_path key_path paths) (ap (λ r. r.0) (sym created) ∙ e) in
      let (chain, key) =
        Later-Stands cert_path key_path i unset paths later
          (subst (λ r. Stands cert_path key_path i r.1) (sym created) stored) in
      ap (λ r. r.0) (load_both_files later_host cert_path key_path v i unset paths (chain, key))
      ∙ load_pemfiles_law v i cert_path key_path chain key
