-- ===== src/Lane/Keys.antt =====
-- What target keys say: which node or selector a lane belongs to.
use muxly.Base.{
  ℕ, ◌≤◌, ◌≡◌, ◌≢◌, refl, sym, ap, ◌∙◌, Option, none, some, ◌⊎◌, inl, inr, ◌++◌, arith, Text, codes,
  usize_max,
}
use muxly.Std.Decimal.{to_text, parse, parse-to_text}
use muxly.Lane.{Json, IsU64, and_then, node_key, first_key, request_target_key}

to_text-injective : (m n : ℕ) → m ≤ usize_max → n ≤ usize_max → to_text m ≡ to_text n → m ≡ n
to_text-injective m n hm hn e =
    ground
      (arith, parse-to_text m usize_max hm, parse-to_text n usize_max hn, ap (parse usize_max) e)

node_key-eq-some :
    (n : ℕ) (t : Text) → node_key n ≡ some t → (n ≢ 1) × (codes "node:" ++ to_text n ≡ t)
unfolding node_key
node_key-eq-some n t e = ground arith

-- The key of a node is that of no other node.
pub node_key-injective :
    (m n : ℕ) (t : Text)
    → m ≤ usize_max
    → n ≤ usize_max
    → node_key m ≡ some t
    → node_key n ≡ some t
    → m ≡ n
node_key-injective m n t hm hn em en =
    let p = (node_key-eq-some m t em).1 in
    let q = (node_key-eq-some n t en).1 in
    let both : codes "node:" ++ to_text m ≡ codes "node:" ++ to_text n = p ∙ sym q in
    to_text-injective m n hm hn (cc)

-- A key that names a node other than the root of a document, or a selector.
abbrev pub Names : Text → Type 0
Names t =
    ((n : ℕ) × (n ≢ 1) × (n ≤ usize_max) × (codes "node:" ++ to_text n ≡ t))
    ⊎ ((selector : Text) × (codes "selector:" ++ selector ≡ t))

Fits : Option ℕ → Type 0
Fits o = (n : ℕ) → o ≡ some n → n ≤ usize_max

node_key-Names : (n : ℕ) (t : Text) → n ≤ usize_max → node_key n ≡ some t → Names t
node_key-Names n t h e = inl (n, (node_key-eq-some n t e).0, h, (node_key-eq-some n t e).1)

first_key-Names :
    (a : Option ℕ) (s : Option Text) (b c : Option ℕ) (t : Text)
    → Fits a
    → Fits b
    → Fits c
    → first_key a s b c ≡ some t
    → Names t
unfolding first_key Fits
first_key-Names (some n) s b c t ha hb hc e = node_key-Names n t (ha n refl) e
first_key-Names none (some selector) b c t ha hb hc e = inr (selector, cc)
first_key-Names none none (some n) c t ha hb hc e = node_key-Names n t (hb n refl) e
first_key-Names none none none (some n) t ha hb hc e = node_key-Names n t (hc n refl) e
first_key-Names none none none none t ha hb hc e = absurd (ground arith)

module _ (json : Json) (bounded : IsU64 json) where
  open json use {Value, get, as_str, as_u64}

  -- The number under a key of an object.
  abbrev pub number : Option Value → Text → Option ℕ
  number v key = and_then (and_then v (λ value. get value key)) as_u64

  pub number-le : (v : Option Value) (key : Text) (n : ℕ) → number v key ≡ some n → n ≤ usize_max
  number-le v key n e = go (and_then v (λ value. get value key)) e
    where
      go : (o : Option Value) → and_then o as_u64 ≡ some n → n ≤ usize_max
      go none q = absurd (ground arith)
      go (some value) q = bounded value n q

  -- Every target key names a node other than node 1, or a selector.
  pub request_target_key-Names :
      (r : Value) (t : Text) → request_target_key json r ≡ some t → Names t
  unfolding request_target_key Fits
  request_target_key-Names r t e =
      let target = get r (codes "target") in
      let params = get r (codes "params") in
      first_key-Names (number target (codes "nodeId"))
        (and_then (and_then target (λ v. get v (codes "selector"))) as_str)
        (number params (codes "nodeId")) (number params (codes "parentId")) t
        (number-le target (codes "nodeId")) (number-le params (codes "nodeId"))
        (number-le params (codes "parentId")) e

  -- A node in the target comes first.
  pub request_target_key-node :
      (r : Value) (n : ℕ)
      → number (get r (codes "target")) (codes "nodeId") ≡ some n
      → request_target_key json r ≡ node_key n
  unfolding request_target_key first_key
  request_target_key-node r n e = rw (e, first_key)
