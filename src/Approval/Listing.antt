-- ===== src/Approval/Listing.antt =====
-- anything_approval_list_json of approval.c.
pub mod Whole
use anything_tool.Base.{
  ℕ, ◌+◌, ◌-◌, Option, none, some, ◌>>=◌, List, [], ◌∷◌, ◌++◌, leb, ◌==◌, if◌then◌else◌, length,
}
use anything_tool.Text.{Bytes, codes}
use anything_tool.Text.Decimal.{decimal}
use anything_tool.Json.{escape_string}
use anything_tool.Approval.{Status, pending, granted, rejected, executed, Pending, Store}

unfoldable pub status_number : Status → ℕ
status_number pending = 0
status_number granted = 1
status_number rejected = 2
status_number executed = 3

-- snprintf at the end of what is written in a buffer of n bytes, with its check.
unfoldable pub append_bounded : ℕ → Bytes → Bytes → Option Bytes
append_bounded n out text = if leb (n - length out) (length text) then none else some (out ++ text)

unfoldable pub entry_text : ℕ → Pending → Option Bytes
unfolding status_number
entry_text i p = do
  request_id ← escape_string (some p.request_id) 128
  method ← escape_string (some p.method) 128
  risk ← escape_string (some p.risk) 64
  summary ← escape_string (some p.summary) 512
  some (
      (if i == 0 then [] else codes ",")
      ++ (codes "{\"request_id\":\""
          ++ (request_id
              ++ (codes "\",\"method\":\""
                  ++ (method
                      ++ (codes "\",\"risk\":\""
                          ++ (risk
                              ++ (codes "\",\"status\":"
                                  ++ (decimal (status_number p.status)
                                      ++ (codes ",\"summary\":\""
                                          ++ (summary ++ codes "\"}")))))))))))

-- The loop over the entries, from index i on.
unfoldable pub list_entries : ℕ → ℕ → List Pending → Bytes → Option Bytes
list_entries n i [] out = some out
list_entries n i (p ∷ ps) out = do
  text ← entry_text i p
  out' ← append_bounded n out text
  list_entries n (i + 1) ps out'

unfoldable pub approval_list_json : ℕ → Store → Option Bytes
unfolding list_entries entry_text append_bounded
approval_list_json n store = do
  out ← append_bounded n [] (codes "{\"pending\":[")
  listed ← list_entries n 0 store.entries out
  append_bounded n listed (codes "]}")
