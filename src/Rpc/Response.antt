-- ===== src/Rpc/Response.antt =====
-- anything_rpc_result and anything_rpc_error of rpc.c, into the response buffer of 4096 bytes.
-- `none` is a return of -1, which leaves the buffer as it was.
pub mod Framed
use anything_tool.Base.{ℕ, suc, Option, some, ◌>>=◌, ◌∷◌, ◌++◌, ℤ, pos, negsuc}
use anything_tool.Text.{Bytes, codes, clip}
use anything_tool.Text.Decimal.{decimal}
use anything_tool.Json.{escape_string}

abbrev pub max_response : ℕ
max_response = 4096

-- %d and %ld
unfoldable pub format_int : ℤ → Bytes
format_int (pos n) = decimal n
format_int (negsuc n) = b'-' ∷ decimal (suc n)

unfoldable pub result_text : Bytes → Bytes → Bytes
result_text escaped_id json_result =
    codes "{\"jsonrpc\":\"2.0\",\"id\":\""
    ++ (escaped_id ++ (codes "\",\"result\":" ++ (json_result ++ codes "}\n")))

unfoldable pub rpc_result : Bytes → Bytes → Option Bytes
unfolding result_text
rpc_result id json_result = do
  escaped_id ← escape_string (some id) 128
  some (clip max_response (result_text escaped_id json_result))

unfoldable pub error_response_text : Bytes → ℤ → Bytes → Bytes → Bytes → Bytes
error_response_text escaped_id code escaped_kind escaped_message extra =
    codes "{\"jsonrpc\":\"2.0\",\"id\":\""
    ++ (escaped_id
        ++ (codes "\",\"error\":{\"code\":"
            ++ (format_int code
                ++ (codes ",\"message\":\""
                    ++ (escaped_message
                        ++ (codes "\",\"data\":{\"kind\":\""
                            ++ (escaped_kind ++ (codes "\"" ++ (extra ++ codes "}}}\n")))))))))

-- The null pointer for `id` and for `extra` is the text that the code puts in its place.
unfoldable pub rpc_error : Bytes → ℤ → Bytes → Bytes → Bytes → Option Bytes
unfolding error_response_text format_int
rpc_error id code kind message extra = do
  escaped_id ← escape_string (some id) 128
  escaped_kind ← escape_string (some kind) 128
  escaped_message ← escape_string (some message) 256
  some (clip max_response (error_response_text escaped_id code escaped_kind escaped_message extra))
