-- ===== src/Tests/ParseTests.antt =====
-- Runs of the request parser.
use anything_tool.Base.{◌≡◌, refl}
use anything_tool.Text.{Bytes, codes}
use anything_tool.Rpc.Request.{Request, ok}
use anything_tool.Rpc.Hash.{hash_request}
use anything_tool.Rpc.Parse.{rpc_parse}

abbrev pub sys_info_body : Bytes
sys_info_body =
    codes
      "{\"jsonrpc\":\"2.0\",\"id\":\"1\",\"method\":\"sys.info\",\"params\":{\"session_id\":\"s\"}}\n"

abbrev pub sys_info_request : Request
sys_info_request = record {
  id = codes "1";
  method = codes "sys.info";
  session_id = codes "s";
  params = codes "{\"session_id\":\"s\"}";
  request_hash = hash_request (codes "sys.info") (codes "{\"session_id\":\"s\"}") (codes "s");
}

pub rpc_parse_sys_info : rpc_parse sys_info_body ≡ ok sys_info_request
unfolding rpc_parse
rpc_parse_sys_info = refl

rpc_parse_unterminated :
    rpc_parse (codes "{\"jsonrpc\":\"2.0\",\"id\":\"1\",\"method\":\"m\",")
    ≡ ok (record {
      id = codes "1";
      method = codes "m";
      session_id = codes "default";
      params = codes "{}";
      request_hash = hash_request (codes "m") (codes "{}") (codes "default");
    })
unfolding rpc_parse
rpc_parse_unterminated = refl
