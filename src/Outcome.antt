-- ===== src/Outcome.antt =====
-- The errors of the bridge (tools/transport_bridge/src/main.rs): a constructor for each message that
-- its `bail!`, `anyhow!` and `context` calls name, with the values that stand in the message.
use muxly.Base.{ℕ, ◌≡◌, refl, Text, ◌⊎◌, inl, inr, Option, none, some}

pub data Error : Type 0 where
  -- an error that a library returned, by a code of its own
  external : ℕ → Error
  -- a loop of the model met the end of its fuel
  out_of_fuel : Error
  missing_subcommand : Error
  missing_home : Error
  parent_died : Error
  no_resolved_address : Error
  -- a panic
  index_out_of_bounds : Error
  unexpected_argument : Text → Error
  missing_value : Text → Error
  missing_flag : Text → Error
  invalid_flag : Text → Error
  unknown_subcommand : Text → Error
  message_exceeds_cap : ℕ → Error
  body_exceeds_cap : ℕ → Error
  not_utf8 : Error
  missing_http_method : Error
  missing_http_path : Error
  missing_http_version : Error
  unsupported_request_line : Text → Error
  eof_in_headers : Error
  eof_in_response : Error
  unexpected_status_line : Text → Error
  missing_content_length : Error
  invalid_content_length : Error
  upstream_closed : Error
  multiple_messages : Error
  missing_h2_body : Error
  unexpected_h2_path : Text → Error
  unexpected_h2_status : ℕ → Error
  -- of the session that is named
  certificate_chain_unavailable : Text → Error
  certificate_chain_empty : Text → Error
  pin_mismatch : Text → Error
  invalid_tls_server_name : Error
  invalid_sha256_hash : Error
  missing_h3wt_body : Error
  unexpected_h3wt_path : Text → Error
  connection_ended_early : Error

pub data Result {ℓ} (A : Type ℓ) : Type ℓ where
  ok : A → Result A
  err : Error → Result A

infixl 5 ◌>>=◌
abbrev pub ◌>>=◌ {ℓ κ} : {A : Type ℓ} {B : Type κ} → Result A → (A → Result B) → Result B
ok a >>= f = f a
err e >>= f = err e

-- `option.ok_or_else(..)?`
abbrev pub ok_or {ℓ} : {A : Type ℓ} → Option A → Error → Result A
ok_or none e = err e
ok_or (some a) e = ok a

pub Result-cases {ℓ} :
    {A : Type ℓ} (r : Result A) → ((a : A) × (r ≡ ok a)) ⊎ ((e : Error) × (r ≡ err e))
Result-cases (ok a) = inl (a, refl)
Result-cases (err e) = inr (e, refl)

-- A chain that ends well had a first step that did.
pub bind-eq-ok {ℓ κ} :
    {A : Type ℓ} {B : Type κ} (first : Result A) (next : A → Result B) {end_value : B}
    → (first >>= next) ≡ ok end_value
    → (value : A) × (first ≡ ok value) × (next value ≡ ok end_value)
bind-eq-ok (err e) next ends = cc
bind-eq-ok (ok value) next ends = (value, refl, ends)
