-- ===== src/Lane/Routing.antt =====
-- Which lane a request is put on.
use muxly.Base.{
  ℕ, ◌≡◌, ◌≢◌, sym, ap, ◌∙◌, true, Option, none, some, ◌⊎◌, inl, inr, arith, Bytes, Text, codes,
  same_iff, Bool-cases,
}
use muxly.Lane.{
  Json, IsU64, root, document_target, one_of, dynamic_methods, document_methods,
  request_runs_on_document_lane, request_supports_dynamic_domain_lane, request_target_key,
  request_of, document_path_of, method_of, classify_request, classify_upstream_lane_key,
}
use muxly.Lane.Keys.{
  Names, number, number-le, node_key-injective, request_target_key-Names, request_target_key-node,
}

module _ (json : Json) where
  open json use {Value, from_slice, get, as_str, as_u64}

  -- What a request on the lane of a target is.
  record OnTarget (r : Value) (d t : Text) : Type 0 where
    path : document_path_of json r ≡ d
    not_root : d ≢ codes "/"
    on_document :
        request_runs_on_document_lane json (method_of json r) (get r (codes "params")) ≡ true
    dynamic : request_supports_dynamic_domain_lane json (method_of json r) r ≡ true
    key : request_target_key json r ≡ some t

  classify_request-OnTarget :
      (r : Value) (d t : Text) → classify_request json r ≡ document_target d t → OnTarget r d t
  unfolding classify_request
  classify_request-OnTarget r d t e = record {
    path = ground arith;
    not_root = λ q. classify_root (ground (arith, q));
    on_document = ground arith;
    dynamic = ground arith;
    key = ground arith;
  }
    where
      classify_root : document_path_of json r ≡ codes "/" → ⊥
      classify_root p = ground (arith, (same_iff (document_path_of json r) (codes "/")).1 p)

  dynamic-methods :
      (m : Text) (r : Value)
      → request_supports_dynamic_domain_lane json m r ≡ true
      → (one_of dynamic_methods m ≡ true) ⊎ (m ≡ codes "node.update")
  unfolding request_supports_dynamic_domain_lane
  dynamic-methods m r e = elim (Bool-cases (one_of dynamic_methods m)) [
    | inl p ↦ inl p
    | inr p ↦ inr ((same_iff m (codes "node.update")).0 (ground (arith, p)))
  ]

  not-attach :
      (m : Text) (r : Value)
      → request_supports_dynamic_domain_lane json m r ≡ true
      → m ≢ codes "leaf.source.attach"
  unfolding one_of
  not-attach m r e q = elim (dynamic-methods m r e) [
    | inl p ↦ ground (arith, rw q at p)
    | inr p ↦ ground (arith, sym q ∙ p)
  ]

  document-methods :
      (m : Text) (r : Value) (params : Option Value)
      → request_supports_dynamic_domain_lane json m r ≡ true
      → request_runs_on_document_lane json m params ≡ true
      → one_of document_methods m ≡ true
  unfolding request_runs_on_document_lane
  document-methods m r params e d = elim (Bool-cases (one_of document_methods m)) [
    | inl p ↦ p
    | inr p ↦
        absurd (not-attach m r e ((same_iff m (codes "leaf.source.attach")).0 (ground (arith, p))))
  ]

  -- An envelope whose payload is a request is put on the lane of the payload alone: what else stands
  -- in the envelope, its own target too, makes no difference. (The payload holds no payload.)
  pub classify_upstream_lane_key-envelope :
      (envelope inner : Bytes) (v p m : Value)
      → from_slice envelope ≡ some v
      → get v (codes "payload") ≡ some p
      → get p (codes "method") ≡ some m
      → get p (codes "payload") ≡ none
      → from_slice inner ≡ some p
      → classify_upstream_lane_key json envelope ≡ classify_upstream_lane_key json inner
  unfolding classify_upstream_lane_key request_of
  classify_upstream_lane_key-envelope envelope inner v p m e₁ e₂ e₃ e₄ e₅ = ground arith

  -- The methods `debug.text.append` and `debug.tty.push`, which the list for targets names, are on
  -- the lane of the root, whatever document and node they name: the list for documents lacks them.
  pub classify_request_debug :
      (r : Value)
      → (method_of json r ≡ codes "debug.text.append") ⊎ (method_of json r ≡ codes "debug.tty.push")
      → classify_request json r ≡ root
  unfolding classify_request request_runs_on_document_lane one_of
  classify_request_debug r (inl e) = ground (arith, e)
  classify_request_debug r (inr e) = ground (arith, e)

  module _ (bounded : IsU64 json) where
    -- A lane of a target belongs to a document other than the root document, to a method of both
    -- lists or `node.update`, and to a node other than node 1 or a selector.
    pub classify_request_target :
        (r : Value) (d t : Text)
        → classify_request json r ≡ document_target d t
        → (document_path_of json r ≡ d)
          × (d ≢ codes "/")
          × (one_of document_methods (method_of json r) ≡ true)
          × ((one_of dynamic_methods (method_of json r) ≡ true)
              ⊎ (method_of json r ≡ codes "node.update"))
          × Names t
    classify_request_target r d t e =
        let f = classify_request-OnTarget r d t e in
        (
          f.path,
          f.not_root,
          document-methods (method_of json r) r (get r (codes "params")) f.dynamic f.on_document,
          dynamic-methods (method_of json r) r f.dynamic,
          request_target_key-Names json bounded r t f.key,
        )

    -- Two requests that name a node each in their targets share the lane of a target only if they
    -- name the same node of the same document.
    pub classify_request-injective :
        (r s : Value) (m n : ℕ) (d d' t t' : Text)
        → number json bounded (get r (codes "target")) (codes "nodeId") ≡ some m
        → number json bounded (get s (codes "target")) (codes "nodeId") ≡ some n
        → classify_request json r ≡ document_target d t
        → classify_request json s ≡ document_target d' t'
        → classify_request json r ≡ classify_request json s
        → (m ≡ n) × (document_path_of json r ≡ document_path_of json s)
    classify_request-injective r s m n d d' t t' em en er es same_lane =
        let f = classify_request-OnTarget r d t er in
        let g = classify_request-OnTarget s d' t' es in
        let q : document_target d t ≡ document_target d' t' = sym er ∙ same_lane ∙ es in
        let t_eq : t ≡ t' = cc in
        let d_eq : d ≡ d' = cc in
        let km = sym (request_target_key-node json bounded r m em) ∙ f.key in
        let kn = sym (request_target_key-node json bounded s n en) ∙ g.key ∙ ap some (sym t_eq) in
        (
          node_key-injective m n t
              (number-le json bounded (get r (codes "target")) (codes "nodeId") m em)
              (number-le json bounded (get s (codes "target")) (codes "nodeId") n en) km kn,
          f.path ∙ d_eq ∙ sym g.path,
        )
