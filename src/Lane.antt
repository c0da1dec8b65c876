-- ===== src/Lane.antt =====
-- The lane of an H2 request: `classify_upstream_lane_key` and its helpers, `request_is_stream_open`
-- and `summarize_transport_payload` of tools/transport_bridge/src/main.rs. `serde_json` is a
-- parameter: a type of JSON values with the four operations that the bridge calls.
pub mod Keys
pub mod Routing
use mathlib.Core.Option.{get_or}
use muxly.Base.{
  ℕ, Bool, true, false, not, ◌&&◌, ◌||◌, Option, none, some, List, [], ◌∷◌, ◌++◌, Bytes, Text,
  codes, same, ◌==◌, ◌≡◌, ◌≤◌, if◌then◌else◌, usize_max,
}
use muxly.Std.Decimal.{to_text}
use muxly.Std.Str.{ends_with}

pub record Json : Type 1 where
  pub Value : Type 0
  -- `serde_json::from_slice::<Value>`
  pub from_slice : Bytes → Option Value
  -- `value.get(key)` at a text key
  pub get : Value → Text → Option Value
  pub as_str : Value → Option Text
  pub as_u64 : Value → Option ℕ

-- `as_u64` returns a `u64`.
abbrev pub IsU64 : Json → Type 0
IsU64 json = (v : json.Value) (n : ℕ) → json.as_u64 v ≡ some n → n ≤ usize_max

-- `option.and_then(..)`
abbrev pub and_then {ℓ κ} : {A : Type ℓ} {B : Type κ} → Option A → (A → Option B) → Option B
and_then none f = none
and_then (some a) f = f a

-- `option.or_else(..)`
abbrev pub or_else {ℓ} : {A : Type ℓ} → Option A → Option A → Option A
or_else none b = b
or_else (some a) b = some a

abbrev pub is_some {ℓ} : {A : Type ℓ} → Option A → Bool
is_some none = false
is_some (some a) = true

pub data UpstreamLaneKey : Type 0 where
  root : UpstreamLaneKey
  document : Text → UpstreamLaneKey
  document_target : (document_path target_key : Text) → UpstreamLaneKey

-- `matches!(method, "a" | "b" | ..)`
unfoldable pub one_of : List Text → Text → Bool
one_of [] method = false
one_of (name ∷ names) method = same method name || one_of names method

abbrev pub document_methods : List Text
document_methods =
    codes "document.get"
    ∷ codes "graph.get"
    ∷ codes "view.get"
    ∷ codes "projection.get"
    ∷ codes "document.status"
    ∷ codes "document.serialize"
    ∷ codes "document.freeze"
    ∷ codes "debug.sleep"
    ∷ codes "node.get"
    ∷ codes "debug.node.append"
    ∷ codes "debug.node.remove"
    ∷ codes "node.append"
    ∷ codes "node.update"
    ∷ codes "node.freeze"
    ∷ codes "node.remove"
    ∷ codes "view.setRoot"
    ∷ codes "view.clearRoot"
    ∷ codes "view.elide"
    ∷ codes "view.expand"
    ∷ codes "view.reset"
    ∷ codes "leaf.source.get"
    ∷ codes "file.capture"
    ∷ codes "file.followTail"
    ∷ []

abbrev pub dynamic_methods : List Text
dynamic_methods =
    codes "debug.sleep"
    ∷ codes "debug.text.append"
    ∷ codes "debug.tty.push"
    ∷ codes "node.append"
    ∷ codes "node.remove"
    ∷ codes "debug.node.append"
    ∷ codes "debug.node.remove"
    ∷ []

-- The key of a node; the root of a document, node 1, has none.
unfoldable pub node_key : ℕ → Option Text
node_key id = if id == 1 then none else some (codes "node:" ++ to_text id)

-- The early returns of `request_target_key`, on the values that its four tests look at: the node and
-- the selector of the target, the node and the parent of the parameters.
unfoldable pub first_key : Option ℕ → Option Text → Option ℕ → Option ℕ → Option Text
first_key (some node_id) selector param_id parent_id = node_key node_id
first_key none (some selector) param_id parent_id = some (codes "selector:" ++ selector)
first_key none none (some node_id) parent_id = node_key node_id
first_key none none none (some parent_id) = node_key parent_id
first_key none none none none = none

module _ (json : Json) where
  open json use {Value, from_slice, get, as_str, as_u64}

  unfoldable pub request_runs_on_document_lane : Text → Option Value → Bool
  request_runs_on_document_lane method params =
      one_of document_methods method
      || (same method (codes "leaf.source.attach")
          && (elim (and_then (and_then params (λ value. get value (codes "kind"))) as_str) [
            | none ↦ false
            | some kind ↦ same kind (codes "static-file") || same kind (codes "monitored-file")
          ]))

  unfoldable pub request_supports_dynamic_domain_lane : Text → Value → Bool
  request_supports_dynamic_domain_lane method request_value =
      let params = get request_value (codes "params") in
      let text = λ (key : Text). and_then (and_then params (λ value. get value key)) as_str in
      if one_of dynamic_methods method
      then true
      else if not (same method (codes "node.update"))
      then false
      else if not (is_some (text (codes "content")))
      then false
      else not (is_some (text (codes "title")))

  unfoldable pub request_target_key : Value → Option Text
  request_target_key request_value =
      let target = get request_value (codes "target") in
      let params = get request_value (codes "params") in
      let number =
        λ (v : Option Value) (key : Text). and_then (and_then v (λ value. get value key)) as_u64 in
      first_key (number target (codes "nodeId"))
        (and_then (and_then target (λ value. get value (codes "selector"))) as_str)
        (number params (codes "nodeId")) (number params (codes "parentId"))

  -- The payload of an envelope, if it is a request itself, or else the value.
  unfoldable pub request_of : Value → Value
  request_of value = elim (get value (codes "payload")) [
    | none ↦ value
    | some payload ↦ if is_some (get payload (codes "method")) then payload else value
  ]

  unfoldable pub document_path_of : Value → Text
  document_path_of request_value =
      get_or
        (and_then
          (and_then (get request_value (codes "target"))
            (λ target. get target (codes "documentPath")))
          as_str)
        (codes "/")

  unfoldable pub method_of : Value → Text
  method_of request_value = get_or (and_then (get request_value (codes "method")) as_str) []

  unfoldable pub classify_request : Value → UpstreamLaneKey
  classify_request request_value =
      let document_path = document_path_of request_value in
      let method = method_of request_value in
      if same document_path (codes "/")
      then root
      else if not (request_runs_on_document_lane method (get request_value (codes "params")))
      then root
      else if request_supports_dynamic_domain_lane method request_value
      then (elim (request_target_key request_value) [
        | some target_key ↦ document_target document_path target_key
        | none ↦ document document_path
      ])
      else document document_path

  unfoldable pub classify_upstream_lane_key : Bytes → UpstreamLaneKey
  classify_upstream_lane_key bytes = elim (from_slice bytes) [
    | none ↦ root
    | some value ↦ classify_request (request_of value)
  ]

  unfoldable pub request_is_stream_open : Bytes → Bool
  request_is_stream_open bytes = elim (from_slice bytes) [
    | none ↦ false
    | some value ↦
        elim (and_then
          (or_else
            (and_then (get value (codes "payload")) (λ payload. get payload (codes "method")))
            (get value (codes "method")))
          as_str) [ none ↦ false | some method ↦ ends_with method (codes ".stream.open") ]
  ]

  unfoldable pub summarize_transport_payload : Bytes → Text
  summarize_transport_payload bytes = elim (from_slice bytes) [
    | none ↦ codes "non-json"
    | some value ↦
        let payload = get value (codes "payload") in
        let conversation_id =
          get_or (and_then (get value (codes "conversationId")) as_str) (codes "?") in
        let request_id : Text = elim (and_then (get value (codes "requestId")) as_u64) [
          | none ↦ codes "?"
          | some id ↦ to_text id
        ] in
        let method =
          get_or (and_then (and_then payload (λ p. get p (codes "method"))) as_str) (codes "?") in
        let path = λ (target : Option Value). and_then target (λ t. get t (codes "documentPath")) in
        let document_path =
          get_or
            (and_then
              (or_else (path (get value (codes "target")))
                (path (and_then payload (λ p. get p (codes "target")))))
              as_str)
            (codes "?") in
        codes "conversation="
        ++ (conversation_id
            ++ (codes " request="
                ++ (request_id
                    ++ (codes " method=" ++ (method ++ (codes " document=" ++ document_path))))))
  ]
