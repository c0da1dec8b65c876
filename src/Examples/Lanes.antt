-- ===== src/Examples/Lanes.antt =====
-- Lanes and command lines at concrete inputs. The requests follow the unit tests of main.rs.
use muxly.Base.{
  ℕ, ◌≤◌, ◌≡◌, ◌≢◌, refl, true, Option, none, some, ◌⊎◌, inr, [], ◌∷◌, arith, Bytes, Text, codes,
  same, if◌then◌else◌, usize_max, leb,
}
use muxly.Std.Decimal.{to_text}
use muxly.Lane.{
  Json, IsU64, root, document_target, one_of, dynamic_methods, document_methods, classify_request,
  request_of, document_path_of, method_of, classify_upstream_lane_key,
  request_runs_on_document_lane, request_supports_dynamic_domain_lane, request_target_key,
  first_key, node_key,
}
use muxly.Lane.Keys.{Names}
use muxly.Lane.Routing.{
  classify_upstream_lane_key-envelope, classify_request_debug, classify_request_target,
  classify_request-injective,
}
use muxly.Outcome.{ok, err, missing_flag}
use muxly.Args.{
  Command, h2_client, parse_args_from, parse_flags, command, http_client_args, get, required,
  required_port,
}
use muxly.Args.RoundTrip.{command_line, parse_args_from-command_line}
use muxly.Std.Str.{starts_with, trim_start_dashes}
use muxly.Std.Decimal.{parse}

-- JSON values without arrays and the like.
mutual
  pub data Tree : Type 0 where
    text : Text → Tree
    number_of : ℕ → Tree
    object : Fields → Tree

  pub data Fields : Type 0 where
    end : Fields
    field : Text → Tree → Fields → Fields

pub field_at : Text → Fields → Option Tree
field_at key end = none
field_at key (field k v rest) = if same k key then some v else field_at key rest

pub get_tree : Tree → Text → Option Tree
unfolding field_at
get_tree (object fields) key = field_at key fields
get_tree _ key = none

pub text_of : Tree → Option Text
text_of (text s) = some s
text_of _ = none

pub u64_of : Tree → Option ℕ
u64_of (number_of n) = if leb n usize_max then some n else none
u64_of _ = none

-- An object with one field, and with two.
abbrev one : Text → Tree → Tree
one k v = object (field k v end)

abbrev two : Text → Tree → Text → Tree → Tree
two k v k' v' = object (field k v (field k' v' end))

abbrev demo_target : ℕ → Tree
demo_target n = two (codes "documentPath") (text (codes "/demo")) (codes "nodeId") (number_of n)

abbrev request : Text → ℕ → Tree
request method n = two (codes "target") (demo_target n) (codes "method") (text method)

abbrev envelope : Tree → Tree
envelope payload =
    two (codes "target") (one (codes "documentPath") (text (codes "/other"))) (codes "payload")
      payload

-- The bytes stand for these values.
abbrev parse_bytes : Bytes → Option Tree
parse_bytes bs =
    if same bs (codes "request")
    then some (request (codes "debug.sleep") 42)
    else if same bs (codes "envelope")
    then some (envelope (request (codes "debug.sleep") 42))
    else none

abbrev pub trees : Json
trees = record {
  Value = Tree;
  from_slice = parse_bytes;
  get = get_tree;
  as_str = text_of;
  as_u64 = u64_of;
}

trees-IsU64 : IsU64 trees
unfolding u64_of
trees-IsU64 (text s) n e = absurd (ground arith)
trees-IsU64 (number_of m) n e = ground arith
trees-IsU64 (object fields) n e = absurd (ground arith)

classify_runs :
    classify_upstream_lane_key trees (codes "envelope")
    ≡ document_target (codes "/demo") (codes "node:42")
unfolding classify_upstream_lane_key request_of classify_request document_path_of method_of get_tree
    text_of u64_of request_runs_on_document_lane request_supports_dynamic_domain_lane one_of
    request_target_key first_key node_key to_text
classify_runs = refl

classify_upstream_lane_key-envelope_example :
    classify_upstream_lane_key trees (codes "envelope")
    ≡ classify_upstream_lane_key trees (codes "request")
unfolding get_tree
classify_upstream_lane_key-envelope_example =
    classify_upstream_lane_key-envelope trees (codes "envelope") (codes "request")
      (envelope (request (codes "debug.sleep") 42)) (request (codes "debug.sleep") 42)
      (text (codes "debug.sleep")) refl refl refl refl refl

classify_request_debug_example : classify_request trees (request (codes "debug.tty.push") 7) ≡ root
unfolding method_of get_tree text_of
classify_request_debug_example =
    classify_request_debug trees (request (codes "debug.tty.push") 7) (inr refl)

classify_sleep :
    (n : ℕ) (t : Text)
    → node_key n ≡ some t
    → n ≤ usize_max
    → classify_request trees (request (codes "debug.sleep") n) ≡ document_target (codes "/demo") t
unfolding classify_request document_path_of method_of get_tree text_of u64_of
    request_runs_on_document_lane request_supports_dynamic_domain_lane one_of request_target_key
    first_key
classify_sleep n t e h = ground (arith, e)

classify_request_target_example :
    (document_path_of trees (request (codes "debug.sleep") 42) ≡ codes "/demo")
    × (codes "/demo" ≢ codes "/")
    × (one_of document_methods (method_of trees (request (codes "debug.sleep") 42)) ≡ true)
    × ((one_of dynamic_methods (method_of trees (request (codes "debug.sleep") 42)) ≡ true)
        ⊎ (method_of trees (request (codes "debug.sleep") 42) ≡ codes "node.update"))
    × Names (codes "node:42")
unfolding node_key to_text
classify_request_target_example =
    classify_request_target trees trees-IsU64 (request (codes "debug.sleep") 42) (codes "/demo")
      (codes "node:42") (classify_sleep 42 (codes "node:42") refl (omega arith))

classify_request-injective_example :
    (◌≡◌ {A = ℕ} 42 42)
    × (document_path_of trees (request (codes "debug.sleep") 42)
        ≡ document_path_of trees (request (codes "debug.sleep") 42))
unfolding node_key to_text get_tree u64_of
classify_request-injective_example =
    classify_request-injective trees trees-IsU64 (request (codes "debug.sleep") 42)
      (request (codes "debug.sleep") 42) 42 42 (codes "/demo") (codes "/demo") (codes "node:42")
      (codes "node:42") refl refl (classify_sleep 42 (codes "node:42") refl (omega arith))
      (classify_sleep 42 (codes "node:42") refl (omega arith)) refl

abbrev client : Command
client = h2_client (record {
  host = codes "mux.example.com";
  port = 9443;
  path = codes "/rpc";
  max_message_bytes = 4096;
  tls = true;
  tls_server_name = some (codes "rpc.example.com");
  tls_ca_file = none;
  tls_sha256 = some (codes "deadbeef");
})

parse_args_from-command_line_example : parse_args_from (command_line client) ≡ ok client
parse_args_from-command_line_example = parse_args_from-command_line client (omega arith)

missing_path :
    parse_args_from
      (codes "h2-client" ∷ codes "--host" ∷ codes "h" ∷ codes "--port" ∷ codes "80" ∷ [])
    ≡ err (missing_flag (codes "path"))
unfolding parse_args_from parse_flags starts_with trim_start_dashes command http_client_args get
    required required_port parse
missing_path = refl
