-- ===== src/Client/Main.antt =====
-- main of anythingctl.c: from the arguments to the exit code, on what the system answers.
use anything_tool.Base.{ℕ, Option, none, some, List, [], ◌++◌, take}
use anything_tool.Text.{Bytes, codes, clip, c_str}
use anything_tool.Transport.{WriteAnswer, Writing, write_response}
use anything_tool.Client.{Invocation, usage, sends, invoke}

-- What read gives into the response buffer, or the text of strerror.
pub data ClientRead : Type 0 where
  read_bytes read_error : Bytes → ClientRead

-- The system: socket and connect for the path in sun_path, with the text of strerror where one
-- fails, the answers of write, and that of read.
pub record ClientSystem : Type 0 where
  pub connect : Bytes → Option Bytes
  pub writes : List WriteAnswer
  pub read : ClientRead

-- What is printed, what the connection has taken, and the exit code.
pub record ClientRun : Type 0 where
  pub exit_code : ℕ
  pub stdout : Bytes
  pub stderr : Bytes
  pub sent : Option Writing

unfoldable pub usage_text : Bytes
usage_text =
    codes "anythingctl v0.1.0\nUsage:\n"
    ++ (codes "  anythingctl --socket PATH raw JSON\n"
        ++ (codes "  anythingctl --socket PATH sys-info SESSION\n"
            ++ (codes "  anythingctl --admin-socket PATH pending\n"
                ++ (codes "  anythingctl --admin-socket PATH approve REQUEST_ID\n"
                    ++ (codes "  anythingctl --admin-socket PATH reject REQUEST_ID\n"
                        ++ codes "  anythingctl --admin-socket PATH execute REQUEST_ID\n")))))

-- sun_path has 108 bytes, and a longer path is cut.
unfoldable pub connect_socket : ClientSystem → Bytes → Option Bytes
connect_socket sys path = sys.connect (clip 108 path)

-- One read into a buffer of 4096 bytes, of which fputs prints what is before the first NUL.
unfoldable pub show_response : Writing → ClientRead → ClientRun
show_response sent (read_error why) = record {
  exit_code = 1;
  stdout = [];
  stderr = codes "read failed: " ++ (why ++ codes "\n");
  sent = some sent;
}
show_response sent (read_bytes response) = record {
  exit_code = 0;
  stdout = c_str (take 4095 response);
  stderr = [];
  sent = some sent;
}

unfoldable pub talk : ClientSystem → Bytes → Option Bytes → ClientRun
talk sys request (some why) = record {
  exit_code = 1;
  stdout = [];
  stderr = codes "connect failed: " ++ (why ++ codes "\n");
  sent = none;
}
talk sys request none = show_response (write_response request sys.writes) sys.read

unfoldable pub run_invocation : ClientSystem → Invocation → ClientRun
run_invocation sys usage = record { exit_code = 2; stdout = []; stderr = usage_text; sent = none }
run_invocation sys (sends path request) = talk sys request (connect_socket sys path)

unfoldable pub run_client : ClientSystem → List Bytes → ClientRun
unfolding run_invocation talk show_response connect_socket usage_text
run_client sys argv = run_invocation sys (invoke argv)
