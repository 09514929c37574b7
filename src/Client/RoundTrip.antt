-- ===== src/Client/RoundTrip.antt =====
-- The daemon reads back what the client sends.
use anything_tool.Base.{
  ◌≤◌, Bool, ◌&&◌, ℕ, ◌<◌, ◌≡◌, refl, ap, ◌∙◌, true, false, some, [], ◌∷◌, ◌++◌, arith, length,
  length-append, take_all, ◌==◌,
}
use anything_tool.Text.{Bytes, codes, c_str, clip, str_eq}
use anything_tool.Rpc.Scan.{skip_ws}
use anything_tool.Rpc.Param.{extract_param_string}
use anything_tool.Rpc.Request.{Request, ok, ◌>>=◌}
use anything_tool.Rpc.Parse.{
  is_finished, complete, finish_parse, parse_members, parse_object, rpc_parse,
}
use anything_tool.Client.{request_text, param_text, make_request}
use anything_tool.Client.Simple.{is_simple, IsSimple, one_member, extract_param_string-one_member}
use anything_tool.Client.Members.{
  with_params, request_of, request_text_is, request_of-c_str, run_members,
}

rpc_parse_some :
    (body : Bytes)
    → (length body == 0) ≡ false
    → rpc_parse body ≡ parse_object (skip_ws (c_str body))
unfolding rpc_parse
rpc_parse_some body h = rw h refl

-- The request is read with the method and with the object of its one parameter.
pub request_of-parsed :
    (method name arg : Bytes)
    → IsSimple method
    → length method < 64
    → IsSimple name
    → IsSimple arg
    → length (one_member name arg []) < 1024
    → rpc_parse (request_of method name arg)
      ≡ ok (complete (with_params method (one_member name arg [])))
unfolding parse_object parse_members finish_parse is_finished skip_ws
request_of-parsed method name arg h short k l room =
    rpc_parse_some (request_of method name arg) (ground arith)
    ∙ ap (λ p. parse_object (skip_ws p)) (request_of-c_str method name arg h k l)
    ∙ ap (λ r. r >>= finish_parse) (run_members method name arg h short k l room)

-- What each command of the client asks for: the method, and the name of its parameter.
pub data Asks : Bytes → Bytes → Bytes → Type 0 where
  asks_sys_info : Asks (codes "sys-info") (codes "sys.info") (codes "session_id")
  asks_approve : Asks (codes "approve") (codes "approval.approve") (codes "request_id")
  asks_reject : Asks (codes "reject") (codes "approval.reject") (codes "request_id")
  asks_execute : Asks (codes "execute") (codes "approval.execute") (codes "request_id")

uncut :
    (method name arg : Bytes)
    → length (request_of method name arg) < 2048
    → clip 2048 (request_text method (param_text name arg)) ≡ request_of method name arg
uncut method name arg short =
    ap (clip 2048) (request_text_is method name arg) ∙ take_all 2047 _ (omega arith)

pub record IsShort (method name arg : Bytes) : Type 0 where
  pub method_simple : IsSimple method
  pub method_short : length method < 64
  pub name_simple : IsSimple name
  pub name_short : length name < 64
  pub params_short : length (one_member name arg []) < 1024
  pub request_short : length (request_of method name arg) < 2048

abbrev all_simple : Bytes → Bool
all_simple [] = true
all_simple (c ∷ cs) = is_simple c && all_simple cs

all_simple-IsSimple : (s : Bytes) → all_simple s ≡ true → IsSimple s
all_simple-IsSimple [] h = tt
all_simple-IsSimple (c ∷ cs) h = (ground arith, all_simple-IsSimple cs (ground arith))

request_of-IsShort :
    (method name arg : Bytes)
    → all_simple method ≡ true
    → all_simple name ≡ true
    → length method ≤ 16
    → length name ≤ 16
    → length arg < 64
    → IsShort method name arg
request_of-IsShort method name arg h k m l short =
    let inner = b'"' ∷ b':' ∷ b'"' ∷ (arg ++ (b'"' ∷ b'}' ∷ [])) in
    let outer = b'"' ∷ b':' ∷ b'"' ∷ (arg ++ (b'"' ∷ b'}' ∷ codes "}\n")) in
    let inside : length (one_member name arg []) < 200 =
      omega (arith, length-append name inner, length-append arg (b'"' ∷ b'}' ∷ [])) in
    let behind : length (one_member name arg (codes "}\n")) < 200 =
      omega (arith, length-append name outer, length-append arg (b'"' ∷ b'}' ∷ codes "}\n")) in
    record {
      method_simple = all_simple-IsSimple method h;
      method_short = omega arith;
      name_simple = all_simple-IsSimple name k;
      name_short = omega arith;
      params_short = omega arith;
      request_short = omega (
        arith,
        length-append method (codes "\",\"params\":" ++ one_member name arg (codes "}\n")),
      );
    }

pub Asks-IsShort :
    {command method name : Bytes} (arg : Bytes)
    → Asks command method name
    → length arg < 64
    → IsShort method name arg
Asks-IsShort arg asks_sys_info h =
    request_of-IsShort _ _ arg refl refl (omega arith) (omega arith) h
Asks-IsShort arg asks_approve h = request_of-IsShort _ _ arg refl refl (omega arith) (omega arith) h
Asks-IsShort arg asks_reject h = request_of-IsShort _ _ arg refl refl (omega arith) (omega arith) h
Asks-IsShort arg asks_execute h = request_of-IsShort _ _ arg refl refl (omega arith) (omega arith) h

make_request_of :
    {command method name : Bytes} (arg : Bytes)
    → Asks command method name
    → make_request command arg ≡ clip 2048 (request_text method (param_text name arg))
unfolding make_request str_eq
make_request_of arg asks_sys_info = refl
make_request_of arg asks_approve = refl
make_request_of arg asks_reject = refl
make_request_of arg asks_execute = refl

pub make_request_whole :
    {command method name : Bytes} (arg : Bytes)
    → Asks command method name
    → length arg < 64
    → make_request command arg ≡ request_of method name arg
make_request_whole {method = method} {name = name} arg asks short =
    make_request_of arg asks ∙ uncut method name arg (Asks-IsShort arg asks short).request_short

-- What the client sends for a command with an argument of less than 64 bytes, none of them a
-- quote, a backslash or a control byte, the daemon's parser accepts, with the method that the
-- command stands for and with a parameter that reads as the argument into any buffer that it fits.
pub rpc_parse-make_request :
    {command method name : Bytes} (arg : Bytes)
    → Asks command method name
    → IsSimple arg
    → length arg < 64
    → (r : Request) × (rpc_parse (make_request command arg) ≡ ok r)
      × (r.method ≡ method)
      × ((n : ℕ) → length arg < n → extract_param_string r.params name n ≡ some arg)
unfolding complete
rpc_parse-make_request {command} {method} {name} arg asks simple short =
    let t : IsShort method name arg = Asks-IsShort arg asks short in
    (
      complete (with_params method (one_member name arg [])),
      ap rpc_parse (make_request_whole arg asks short)
          ∙ request_of-parsed method name arg t.method_simple t.method_short t.name_simple simple
              t.params_short,
      refl,
      λ n room. extract_param_string-one_member name arg n t.name_simple t.name_short simple room,
    )
