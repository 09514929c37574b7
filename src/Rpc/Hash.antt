-- ===== src/Rpc/Hash.antt =====
-- anything_rpc_hash_request of rpc.c: FNV-1a over 64 bits, on the parts with `|` between them.
use Prim.Native.Nat.{bit_xor}
use anything_tool.Base.{ℕ, ◌*◌, ◌%◌, ◌<◌, ◌≡◌, refl, List, [], ◌∷◌, ◌++◌, arith}
use anything_tool.Text.{Bytes}

abbrev pub u64 : ℕ → ℕ
u64 n = n % 18446744073709551616

-- The inner loop, over the bytes of one part.
unfoldable pub hash_bytes : ℕ → Bytes → ℕ
hash_bytes hash [] = hash
hash_bytes hash (c ∷ cs) = hash_bytes (u64 (bit_xor hash c * 1099511628211)) cs

-- The outer loop, over the parts.
unfoldable pub hash_parts : ℕ → List Bytes → ℕ
hash_parts hash [] = hash
hash_parts hash (part ∷ parts) = hash_parts (hash_bytes hash part) parts

unfoldable pub hash_request : Bytes → Bytes → Bytes → ℕ
unfolding hash_parts hash_bytes
hash_request method params session_id =
    hash_parts 1469598103934665603 (method ∷ (b'|' ∷ []) ∷ params ∷ (b'|' ∷ []) ∷ session_id ∷ [])

hash_bytes-u64 :
    (hash : ℕ) (s : Bytes) → hash < 18446744073709551616 → hash_bytes hash s < 18446744073709551616
unfolding hash_bytes
hash_bytes-u64 hash [] h = h
hash_bytes-u64 hash (c ∷ cs) h =
    hash_bytes-u64 (u64 (bit_xor hash c * 1099511628211)) cs (omega arith)

hash_parts-u64 :
    (hash : ℕ) (parts : List Bytes)
    → hash < 18446744073709551616
    → hash_parts hash parts < 18446744073709551616
unfolding hash_parts
hash_parts-u64 hash [] h = h
hash_parts-u64 hash (part ∷ parts) h =
    hash_parts-u64 (hash_bytes hash part) parts (hash_bytes-u64 hash part h)

-- The hash of a request is a uint64_t.
pub hash_request-u64 :
    (method params session_id : Bytes)
    → hash_request method params session_id < 18446744073709551616
unfolding hash_request
hash_request-u64 method params session_id =
    hash_parts-u64 1469598103934665603
      (method ∷ (b'|' ∷ []) ∷ params ∷ (b'|' ∷ []) ∷ session_id ∷ []) (omega arith)

hash_bytes-append :
    (hash : ℕ) (a b : Bytes) → hash_bytes hash (a ++ b) ≡ hash_bytes (hash_bytes hash a) b
unfolding hash_bytes
hash_bytes-append hash [] b = refl
hash_bytes-append hash (c ∷ a) b = hash_bytes-append (u64 (bit_xor hash c * 1099511628211)) a b

-- The hash of a request is that of one text, the method, the parameters and the session with bars
-- between them: it does not see where one part ends.
pub hash_request_joined :
    (method params session_id : Bytes)
    → hash_request method params session_id
      ≡ hash_bytes 1469598103934665603 (method ++ (b'|' ∷ (params ++ (b'|' ∷ session_id))))
unfolding hash_request
hash_request_joined method params session_id = simp hash_bytes-append
