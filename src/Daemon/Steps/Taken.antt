-- ===== src/Daemon/Steps/Taken.antt =====
-- What anything_approval_add takes into the store for a request that the policy lets wait.
use anything_tool.Base.{ℕ, ◌≡◌, refl, ap, ◌∙◌, true, some, arith}
use anything_tool.Text.{clip, codes, str_eq}
use anything_tool.Text.Clip.{clip_fits}
use anything_tool.Json.Escape.{all_plain-IsPlain}
use anything_tool.Identity.{Identity}
use anything_tool.Config.{Config}
use anything_tool.Policy.{preflight}
use anything_tool.Rpc.Request.{Request, IsWellFormed}
use anything_tool.Approval.{Status, pending, Pending, Store, new_entry, add}
use anything_tool.Approval.Sound.{is_authorised, IsEntry, IsSound, append-IsSound, add-entries}
use anything_tool.Daemon.Steps.{Takes}

-- What the policy says of a request for sys.info with the capability on.
preflight-texts :
    (config : Config) (r : Request) (caller : Identity)
    → r.method ≡ codes "sys.info"
    → config.capability_sys_read ≡ true
    → ((preflight config r caller).request_hash ≡ r.request_hash)
      × ((preflight config r caller).risk ≡ codes "low")
      × ((preflight config r caller).summary ≡ codes "Read Linux system information with sys.info")
unfolding preflight str_eq
preflight-texts config r caller method on = rw (method, on) (refl, refl, refl)

none_yet : (a : Status) → a ≡ pending → is_authorised a ≡ true → ⊥
none_yet a e h = ground arith

module _ (config : Config) (caller : Identity) (r : Request) (now : ℕ) (s t : Store) where
  pub add-Takes :
      (p : Pending)
      → IsWellFormed r
      → r.method ≡ codes "sys.info"
      → config.capability_sys_read ≡ true
      → add s r (preflight config r caller) caller config.approval_ttl_seconds now ≡ some (t, p)
      → Takes config caller r now s t
  unfolding new_entry
  add-Takes p w method on added =
      let (listed, counted, made, room) =
        add-entries s r (preflight config r caller) caller config.approval_ttl_seconds now t p
          added in
      let (hash, risk, summary) = preflight-texts config r caller method on in
      record {
        entry = p;
        room = room;
        listed = listed;
        counted = counted;
        waits = ap (λ (q : Pending). q.status) made;
        requester_is = ap (λ (q : Pending). q.requester) made;
        unapproved = ap (λ (q : Pending). q.approver) made;
        id_is = ap (λ (q : Pending). q.request_id) made;
        hash_is = ap (λ (q : Pending). q.request_hash) made ∙ hash;
        session_is =
            ap (λ (q : Pending). q.session_id) made ∙ clip_fits 64 r.session_id w.session_fits;
        method_is = ap (λ (q : Pending). q.method) made ∙ clip_fits 64 r.method w.method_fits;
        params_is = ap (λ (q : Pending). q.params) made ∙ clip_fits 1024 r.params w.params_fits;
        risk_is = ap (λ (q : Pending). q.risk) made ∙ ap (clip 16) risk;
        summary_is = ap (λ (q : Pending). q.summary) made ∙ ap (clip 256) summary;
        expires = ap (λ (q : Pending). q.expires_at) made;
      }

  module _ (taken : Takes config caller r now s t) (w : IsWellFormed r) where
    entry-IsEntry : IsEntry config taken.entry
    entry-IsEntry = record {
      hash_is = rw (taken.hash_is, taken.method_is, taken.params_is, taken.session_is) w.hash_is;
      method_fits = rw taken.method_is w.method_fits;
      method_plain = rw taken.method_is w.method_plain;
      session_fits = rw taken.session_is w.session_fits;
      session_plain = rw taken.session_is w.session_plain;
      params_fits = rw taken.params_is w.params_fits;
      risk_fits = rw taken.risk_is (omega arith);
      risk_plain = rw taken.risk_is (all_plain-IsPlain (codes "low") refl);
      summary_fits = rw taken.summary_is (omega arith);
      summary_plain =
          rw taken.summary_is
            (all_plain-IsPlain (codes "Read Linux system information with sys.info") refl);
      other_approver = λ h. absurd (unapproved h);
      admin_approver = λ h. absurd (unapproved h);
    }
      where
        unapproved : is_authorised taken.entry.status ≡ true → ⊥
        unapproved h = none_yet taken.entry.status taken.waits h

    pub Takes-IsSound : IsSound config s → IsSound config t
    Takes-IsSound h =
        append-IsSound config s t taken.entry h taken.room taken.listed taken.counted taken.id_is
          entry-IsEntry
