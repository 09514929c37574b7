-- ===== src/Rpc/Request.antt =====
-- anything_rpc_request, the variables of the parser, and the errors that it reports.
use anything_tool.Base.{ℕ, ◌<◌, ◌≡◌, refl, Bool, false, Option, none, some, [], length}
use anything_tool.Text.{Bytes, codes}
use anything_tool.Json.Escape.{IsPlain}
use anything_tool.Rpc.Hash.{hash_request}

pub record Request : Type 0 where
  pub id : Bytes
  pub method : Bytes
  pub session_id : Bytes
  pub params : Bytes
  pub request_hash : ℕ

-- rpc_scan, with the fields of the request that are filled during the scan.
pub record RpcScan : Type 0 where
  pub seen_jsonrpc : Bool
  pub seen_id : Bool
  pub seen_method : Bool
  pub seen_params : Bool
  pub id : Bytes
  pub method : Bytes
  pub params : Bytes

abbrev pub no_fields : RpcScan
no_fields = record {
  seen_jsonrpc = false;
  seen_id = false;
  seen_method = false;
  seen_params = false;
  id = [];
  method = [];
  params = [];
}

pub data RpcError : Type 0 where
  invalid_json invalid_object invalid_request invalid_key invalid_shape duplicate_key : RpcError
  invalid_version invalid_id invalid_method non_object_params invalid_params : RpcError
  invalid_value invalid_terminator trailing_data missing_field : RpcError

-- The text that anything_rpc_parse leaves in `error`.
unfoldable pub error_text : RpcError → Bytes
error_text invalid_json = codes "invalid JSON"
error_text invalid_object = codes "invalid JSON object"
error_text invalid_request = codes "invalid JSON-RPC request"
error_text invalid_key = codes "invalid top-level key"
error_text invalid_shape = codes "invalid request shape"
error_text duplicate_key = codes "duplicate top-level key"
error_text invalid_version = codes "invalid JSON-RPC version"
error_text invalid_id = codes "invalid id"
error_text invalid_method = codes "invalid method"
error_text non_object_params = codes "non-object params"
error_text invalid_params = codes "invalid params"
error_text invalid_value = codes "invalid value"
error_text invalid_terminator = codes "invalid request terminator"
error_text trailing_data = codes "trailing data"
error_text missing_field = codes "missing required JSON-RPC field"

-- A return of -1 with its error, or what a return of 0 has produced.
pub data Result {ℓ} (A : Type ℓ) : Type ℓ where
  err : RpcError → Result A
  ok : A → Result A

infixl 5 ◌>>=◌ ◌>>◌
-- `if (call != 0) return -1;` and what comes behind it.
abbrev pub ◌>>=◌ {ℓ κ} : {A : Type ℓ} {B : Type κ} → Result A → (A → Result B) → Result B
err why >>= rest = err why
ok value >>= rest = rest value

abbrev pub or_err {ℓ} : {A : Type ℓ} → Option A → RpcError → Result A
or_err none e = err e
or_err (some a) e = ok a

abbrev pub ◌>>◌ {ℓ} : {B : Type ℓ} → Result (Unit {0}) → Result B → Result B
first >> rest = first >>= λ done. rest

-- What every request that the parser accepts satisfies: each field is in its buffer, the
-- fields that are printed later are plain, and the hash is that of the fields.
pub record IsWellFormed (r : Request) : Type 0 where
  pub id_fits : length r.id < 64
  pub id_plain : IsPlain r.id
  pub method_fits : length r.method < 64
  pub method_plain : IsPlain r.method
  pub session_fits : length r.session_id < 64
  pub session_plain : IsPlain r.session_id
  pub params_fits : length r.params < 1024
  pub hash_is : r.request_hash ≡ hash_request r.method r.params r.session_id

abbrev pub Ensures {ℓ κ} : {A : Type ℓ} → (A → Type κ) → Result A → Type κ
Ensures Q (ok a) = Q a
Ensures Q (err e) = Unit

pub or_err-Ensures {ℓ κ ι} :
    {A : Type ℓ} {B : Type κ} (Q : B → Type ι) (o : Option A) (e : RpcError) (k : A → Result B)
    → ((a : A) → o ≡ some a → Ensures Q (k a))
    → Ensures Q (or_err o e >>= k)
or_err-Ensures Q none e k h = tt
or_err-Ensures Q (some a) e k h = h a refl
