-- ===== src/Daemon/Replies/Answers.antt =====
-- One response, and that a whole line: what an action answers, by the parts of the action.
use mathlib.Core.Option
use anything_tool.Base.{
  ℕ, ◌+◌, ◌<◌, ◌≡◌, refl, Bool, true, false, not, ltb, Option, none, some, [], ◌∷◌, ◌++◌, arith,
  length, inl, inr, Bool-cases, if◌then◌else◌, All-append,
}
use anything_tool.Text.{Bytes, codes}
use anything_tool.Text.Clip.{length-clip, All-clip}
use anything_tool.Text.Decimal.{decimal}
use anything_tool.Json.{escape_string}
use anything_tool.Json.Escape.{IsVisible}
use anything_tool.Json.Visible.{Visible, VisibleOr, escape_string-Visible, then_text}
use anything_tool.Approval.{Pending, Store}
use anything_tool.Audit.{AuditEvent, audit_write_event}
use anything_tool.Rpc.Request.{Result, ok, err, RpcError}
use anything_tool.Rpc.Response.{format_int, rpc_error}
use anything_tool.Rpc.Response.Framed.{
  IsFramed, Escapes, is_literal, is_literal-Escapes, format_int-IsVisible, rpc_error-IsFramed,
}
use anything_tool.Daemon.World.{
  Os, World, M, ◌>>=◌, ◌>>◌, pure, skip, on_option, on_result, write_response, get_store, put_store,
  time_now, audit_event, checked_audit, code,
}
use anything_tool.Daemon.Tool.{approval_data}

-- From every state the action sends one response, which is framed.
pub record Answers (m : M (Unit {0})) : Type 0 where
  pub at :
      (w : World)
      → (response : Option Bytes) × ((m w).1.sent ≡ w.sent ++ response ∷ []) × IsFramed response

pub Answers-write_response : (r : Option Bytes) → IsFramed r → Answers (write_response r)
unfolding write_response
Answers-write_response r h = record { at = λ w. (r, refl, h) }

pub Answers-store :
    (k : Store → M (Unit {0})) → ((s : Store) → Answers (k s)) → Answers (get_store >>= k)
unfolding get_store ◌>>=◌
Answers-store k h = record { at = λ w. (h w.store).at w }

pub Answers-put : (s : Store) (k : M (Unit {0})) → Answers k → Answers (put_store s >> k)
unfolding put_store ◌>>◌
Answers-put s k h = record { at = λ w. h.at (record w { store = s }) }

pub Answers-clock :
    (os : Os) (k : ℕ → M (Unit {0})) → ((now : ℕ) → Answers (k now)) → Answers (time_now os >>= k)
unfolding time_now ◌>>=◌
Answers-clock os k h = record { at = λ w. (h (os.time w.ticks)).at _ }

pub Answers-if :
    (b : Bool) {l r : M (Unit {0})}
    → (b ≡ true → Answers l)
    → (b ≡ false → Answers r)
    → Answers (if b then l else r)
Answers-if true h k = h refl
Answers-if false h k = k refl

pub Answers-option :
    {A : Type 0} (o : Option A) {m : M (Unit {0})} {k : A → M (Unit {0})}
    → Answers m
    → ((a : A) → o ≡ some a → Answers (k a))
    → Answers (on_option o m k)
Answers-option none h k = h
Answers-option (some a) h k = k a refl

pub Answers-result :
    {A : Type 0} (o : Result A) {m : RpcError → M (Unit {0})} {k : A → M (Unit {0})}
    → ((e : RpcError) → Answers (m e))
    → ((a : A) → o ≡ ok a → Answers (k a))
    → Answers (on_result o m k)
Answers-result (err e) h k = h e
Answers-result (ok a) h k = k a refl

pub plain_error :
    (id : Bytes) (n : ℕ) (kind message : Bytes)
    → Escapes 128 id
    → Escapes 128 kind
    → Escapes 256 message
    → length (format_int (code n)) < 16
    → IsFramed (rpc_error id (code n) kind message [])
plain_error id n kind message i k m short =
    rpc_error-IsFramed id (code n) kind message [] i k m tt (omega arith) short

pub literal_error :
    (id : Bytes) (n : ℕ) (kind message : Bytes)
    → Escapes 128 id
    → is_literal 128 kind ≡ true
    → is_literal 256 message ≡ true
    → ltb (length (format_int (code n))) 16 ≡ true
    → IsFramed (rpc_error id (code n) kind message [])
literal_error id n kind message i k m short =
    plain_error id n kind message i (is_literal-Escapes 128 kind k)
      (is_literal-Escapes 256 message m) (ground arith)

pub Answers-logged :
    (os : Os) (e : AuditEvent) (id : Bytes) (k : M (Unit {0}))
    → Escapes 128 id
    → Answers k
    → Answers (checked_audit os e id >>= λ logged. if not logged then skip else k)
unfolding checked_audit ◌>>=◌ ◌>>◌ pure write_response audit_event format_int decimal
Answers-logged os e id k i h = record {
  at = λ w.
      let result = audit_write_event (os.audit w.ticks) e in
      elim (Bool-cases result.1) [
        | inl wrote ↦ rw wrote (h.at (record w { log = w.log ++ result.0; ticks = w.ticks + 1 }))
        | inr failed ↦ rw failed (
          _,
          refl,
          literal_error id 32050 (codes "audit_failed") (codes "audit write failed") i refl refl
              refl,
        )
      ];
}

abbrev DataFits : Option Bytes → Type 0
DataFits none = Unit
DataFits (some text) = Visible text × (length text < 768)

bind-DataFits :
    (o : Option Bytes) (k : Bytes → Option Bytes)
    → VisibleOr o
    → ((text : Bytes) → Visible text → DataFits (k text))
    → DataFits (Option.bind o k)
unfolding Option.bind
bind-DataFits none k h f = tt
bind-DataFits (some text) k h f = f text h

abbrev data_text : Pending → Bytes → Bytes → Bytes → Bytes
data_text p id risk summary =
    codes ",\"request_id\":\""
    ++ (id
        ++ (codes "\",\"risk\":\""
            ++ (risk
                ++ (codes "\",\"summary\":\""
                    ++ (summary ++ (codes "\",\"expires_at\":" ++ format_int p.expires_at))))))

data_text-Visible :
    (p : Pending) (id risk summary : Bytes)
    → Visible id
    → Visible risk
    → Visible summary
    → Visible (data_text p id risk summary)
data_text-Visible p id risk summary i r s =
    let join = All-append IsVisible in
    then_text (codes ",\"request_id\":\"") _ refl (
      join id _ i (
        then_text (codes "\",\"risk\":\"") _ refl (
          join risk _ r (
            then_text (codes "\",\"summary\":\"") _ refl (
              join summary _ s (
                then_text (codes "\",\"expires_at\":") _ refl
                  (format_int-IsVisible p.expires_at)))))))

approval_data-DataFits : (p : Pending) → DataFits (approval_data p)
unfolding approval_data
approval_data-DataFits p =
    bind-DataFits (escape_string (some p.request_id) 128) _ (escape_string-Visible 128 p.request_id)
      λ id i.
        bind-DataFits (escape_string (some p.risk) 64) _ (escape_string-Visible 64 p.risk) λ risk r.
          bind-DataFits (escape_string (some p.summary) 512) _ (escape_string-Visible 512 p.summary)
            λ summary s. (
              All-clip IsVisible 768 (data_text p id risk summary)
                  (data_text-Visible p id risk summary i r s),
              length-clip 768 (data_text p id risk summary) (omega arith),
            )

pub approval_data-some :
    (p : Pending) (text : Bytes) → approval_data p ≡ some text → Visible text × (length text < 768)
approval_data-some p text e = rw e at (approval_data-DataFits p)
