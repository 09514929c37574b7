-- ===== src/Approval/Listing/Whole.antt =====
-- The listing is the whole text of all entries, or none of it.
use anything_tool.Base.{
  ℕ, ◌+◌, ◌*◌, ◌<◌, ◌≤◌, ◌≡◌, refl, sym, ap, ◌∙◌, subst, true, false, Option, none, some, ◌>>=◌,
  List, [], ◌∷◌, ◌++◌, append_assoc, append-nil, arith, ltb, ◌==◌, if◌then◌else◌, length,
  length-append, Bool-cases, inl, inr, All, lt→ltb,
}
use anything_tool.Text.{Bytes, codes}
use anything_tool.Text.Clip.{length-clip, All-clip}
use anything_tool.Text.Decimal.{decimal}
use anything_tool.Json.Escape.{IsPlain, is_plain, escaped, escape_string-IsPlain}
use anything_tool.Config.{Config}
use anything_tool.Approval.{Pending, Store, request_id_of}
use anything_tool.Approval.Sound.{IsEntry, Numbered, IsSound}
use anything_tool.Text.Decimal.{decimal-IsVisible}
use anything_tool.Approval.Listing.{
  status_number, append_bounded, entry_text, list_entries, approval_list_json,
}

-- The text of an entry, and of the entries from index i on, with no buffer.
pub whole_entry : ℕ → Pending → Bytes
whole_entry i p =
    (if i == 0 then [] else codes ",")
    ++ (codes "{\"request_id\":\""
        ++ (escaped p.request_id
            ++ (codes "\",\"method\":\""
                ++ (escaped p.method
                    ++ (codes "\",\"risk\":\""
                        ++ (escaped p.risk
                            ++ (codes "\",\"status\":"
                                ++ (decimal (status_number p.status)
                                    ++ (codes ",\"summary\":\""
                                        ++ (escaped p.summary ++ codes "\"}"))))))))))

abbrev pub whole_entries : ℕ → List Pending → Bytes
whole_entries i [] = []
whole_entries i (p ∷ ps) = whole_entry i p ++ whole_entries (i + 1) ps

abbrev pub whole_list : Store → Bytes
whole_list s = codes "{\"pending\":[" ++ (whole_entries 0 s.entries ++ codes "]}")

-- The texts of an entry go into their buffers.
record IsShown (p : Pending) : Type 0 where
  id : IsPlain p.request_id × (2 * length p.request_id < 128)
  method : IsPlain p.method × (2 * length p.method < 128)
  risk : IsPlain p.risk × (2 * length p.risk < 64)
  summary : IsPlain p.summary × (2 * length p.summary < 512)

entry_text-whole_entry : (i : ℕ) (p : Pending) → IsShown p → entry_text i p ≡ some (whole_entry i p)
unfolding entry_text whole_entry
entry_text-whole_entry i p s =
    rw
      (
        escape_string-IsPlain 128 p.request_id s.id.0 s.id.1,
        escape_string-IsPlain 128 p.method s.method.0 s.method.1,
        escape_string-IsPlain 64 p.risk s.risk.0 s.risk.1,
        escape_string-IsPlain 512 p.summary s.summary.0 s.summary.1,
      )
      refl

abbrev bounded : ℕ → Bytes → Option Bytes
bounded n text = if ltb (length text) n then some text else none

append_bounded-bounded :
    (n : ℕ) (out text : Bytes) → append_bounded n out text ≡ bounded n (out ++ text)
unfolding append_bounded
append_bounded-bounded n out text = ground (arith, length-append out text)

-- A text that does not fit does not fit with more behind it.
bounded-more :
    (n : ℕ) (text more : Bytes) → ltb (length text) n ≡ false → bounded n (text ++ more) ≡ none
bounded-more n text more h = ground (arith, length-append text more)

list_entries-bounded :
    (n i : ℕ) (ps : List Pending) (out : Bytes)
    → All IsShown ps
    → length out < n
    → list_entries n i ps out ≡ bounded n (out ++ whole_entries i ps)
unfolding list_entries
list_entries-bounded n i [] out shown room = rw (append-nil out, lt→ltb (length out) n room) refl
list_entries-bounded n i (p ∷ ps) out shown room =
    rw (entry_text-whole_entry i p shown.0, append_bounded-bounded n out (whole_entry i p))
      (elim (Bool-cases (ltb (length (out ++ whole_entry i p)) n)) [
        | inl fits ↦ rw fits (
            list_entries-bounded n (i + 1) ps (out ++ whole_entry i p) shown.1 (ground arith)
            ∙ ap (bounded n) (append_assoc out (whole_entry i p) (whole_entries (i + 1) ps)))
        | inr full ↦ rw full (
            sym (bounded-more n (out ++ whole_entry i p) (whole_entries (i + 1) ps) full)
            ∙ ap (bounded n) (append_assoc out (whole_entry i p) (whole_entries (i + 1) ps)))
      ])

visible-IsPlain : (s : Bytes) → All (λ c. 0x20 ≤ c) s → IsPlain s
visible-IsPlain [] h = tt
visible-IsPlain (c ∷ s) h = (ground arith, visible-IsPlain s h.1)

request_id_of-IsPlain : (n : ℕ) → IsPlain (request_id_of n)
unfolding request_id_of
request_id_of-IsPlain n =
    All-clip (λ c. is_plain c ≡ true) 40 (codes "req_" ++ decimal n)
      (refl, (refl, (refl, (refl, visible-IsPlain (decimal n) (decimal-IsVisible n)))))

length-request_id_of : (n : ℕ) → length (request_id_of n) < 40
unfolding request_id_of
length-request_id_of n = length-clip 40 (codes "req_" ++ decimal n) (omega arith)

entries-IsShown :
    (config : Config) (n : ℕ) (ps : List Pending)
    → Numbered n ps
    → All (IsEntry config) ps
    → All IsShown ps
entries-IsShown config n [] h e = tt
entries-IsShown config n (p ∷ ps) h e = (
  record {
    id =
        subst (λ s. IsPlain s × (2 * length s < 128)) (sym h.0)
          (request_id_of-IsPlain n, omega (arith, length-request_id_of n));
    method = (e.0.method_plain, omega (arith, e.0.method_fits));
    risk = (e.0.risk_plain, omega (arith, e.0.risk_fits));
    summary = (e.0.summary_plain, omega (arith, e.0.summary_fits));
  },
  entries-IsShown config (n + 1) ps h.1 e.1,
)

-- Behind the entries, and behind the opening.
close-bounded :
    (n : ℕ) (text : Bytes)
    → (bounded n text >>= λ listed. append_bounded n listed (codes "]}"))
      ≡ bounded n (text ++ codes "]}")
close-bounded n text = elim (Bool-cases (ltb (length text) n)) [
  | inl fits ↦ rw fits (append_bounded-bounded n text (codes "]}"))
  | inr full ↦ rw full (sym (bounded-more n text (codes "]}") full))
]

open-bounded :
    (n : ℕ) (ps : List Pending) (text : Bytes)
    → All IsShown ps
    → (bounded n text >>= λ out. list_entries n 0 ps out) ≡ bounded n (text ++ whole_entries 0 ps)
open-bounded n ps text shown = elim (Bool-cases (ltb (length text) n)) [
  | inl fits ↦ rw fits (list_entries-bounded n 0 ps text shown (ground arith))
  | inr full ↦ rw full (sym (bounded-more n text (whole_entries 0 ps) full))
]

bind_assoc :
    (o : Option Bytes) (f g : Bytes → Option Bytes) → (o >>= λ x. f x >>= g) ≡ ((o >>= f) >>= g)
bind_assoc none f g = refl
bind_assoc (some x) f g = refl

-- For every store of a run of the daemon, a buffer of n bytes gets the text of all its entries,
-- each with its fields escaped, where that text and its NUL fit; else the call fails: the listing
-- never leaves out an entry and never cuts one.
pub approval_list_json-whole_list :
    (config : Config) (n : ℕ) (s : Store)
    → IsSound config s
    → approval_list_json n s ≡ (if ltb (length (whole_list s)) n then some (whole_list s) else none)
unfolding approval_list_json
approval_list_json-whole_list config n s h =
    let opening = codes "{\"pending\":[" in
    let close : Bytes → Option Bytes = λ listed. append_bounded n listed (codes "]}") in
    let entries : Bytes → Option Bytes = λ out. list_entries n 0 s.entries out in
    ap (λ o. o >>= λ out. entries out >>= close) (append_bounded-bounded n [] opening)
    ∙ bind_assoc (bounded n opening) entries close
    ∙ ap (λ o. o >>= close)
        (open-bounded n s.entries opening (entries-IsShown config 1 s.entries h.numbered h.each))
    ∙ close-bounded n (opening ++ whole_entries 0 s.entries)
    ∙ ap (bounded n) (append_assoc opening (whole_entries 0 s.entries) (codes "]}"))
