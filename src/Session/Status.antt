-- ===== src/Session/Status.antt =====
-- Common/DtaSession.cpp: `sendCommand` on a reply that ends with a method status.
use sedutil.Prelude.{
  ℕ, ◌+◌, ◌%◌, ◌^◌, ◌<◌, ◌≡◌, ◌≢◌, arith, true, false, List, [], ◌∷◌, ◌++◌, length, length-append,
  get_elem?, get_elem?-append, ◌==◌, ◌||◌, if◌then◌else◌, Bool-cases, inl, inr,
}
use sedutil.Outcome.{done}
use sedutil.Lexicon.Token.{token_code, startlist, endlist, endofsession}
use sedutil.Command.Encode.{uint_bytes}
use sedutil.Response.{DtaResponse, token_is, get_uint8, get_token_count}
use sedutil.Response.Values.{get_uint64-uint_bytes}
use sedutil.Session.Reply.{check_reply, method_status_present, minus32}

-- The end of a reply: a list of the status and two reserved values.
abbrev pub status_list : ℕ → List ℕ → List ℕ → List (List ℕ)
status_list status a b = (0xf0 ∷ []) ∷ uint_bytes status ∷ a ∷ b ∷ (0xf1 ∷ []) ∷ []

-- A header with no length of zero.
abbrev pub HasLengths : DtaResponse → Type 0
HasLengths r = (r.h.cp_length ≢ 0) × (r.h.pkt_length ≢ 0) × (r.h.subpkt_length ≢ 0)

module _ (r : DtaResponse) (body : List (List ℕ)) (status : ℕ) (a b : List ℕ) where
  module _ (shape : r.response ≡ body ++ status_list status a b)
      (short : length body < 2 ^ 31) where
    count : get_token_count r ≡ length body + 5
    unfolding get_token_count
    count = rw shape (omega (arith, length-append body (status_list status a b)))

    at_body :
        (i : ℕ) → get_elem? r.response (length body + i) ≡ get_elem? (status_list status a b) i
    at_body i = rw shape (get_elem?-append body (status_list status a b) i)

    last : token_is r (minus32 (get_token_count r) 1) ≡ done (token_code endlist)
    unfolding token_is
    last =
        let i : minus32 (length body + 5) 1 ≡ length body + 4 = omega arith in
        rw (count, i, at_body 4)

    start : token_is r (minus32 (get_token_count r) 5) ≡ done (token_code startlist)
    unfolding token_is
    start =
        let i : minus32 (length body + 5) 5 ≡ length body + 0 = omega arith in
        rw (count, i, at_body 0)

    present : method_status_present r ≡ done true
    unfolding method_status_present
    present = rw (last, start)

    value : status < 256 → get_uint8 r (minus32 (get_token_count r) 4) ≡ done status
    unfolding get_uint8
    value s =
        let i : minus32 (length body + 5) 4 ≡ length body + 1 = omega arith in
        let fits : status % 2 ^ 8 ≡ status = omega arith in
        rw (
          count,
          i,
          get_uint64-uint_bytes r (length body + 1) status (omega arith) (at_body 1),
          fits,
        )

    -- For a reply that ends with a status list, and whose header has no length of zero, `sendCommand`
    -- returns the status of the list, whatever tokens stand before it; but 0 if the reply begins with
    -- the end of the session.
    pub check_reply-status :
        HasLengths r
        → status < 256
        → (t : ℕ) → token_is r 0 ≡ done t
        → check_reply r ≡ done (if t == token_code endofsession then 0 else status)
    unfolding check_reply
    check_reply-status h s t e =
        let lengths : ((r.h.cp_length == 0) || (r.h.pkt_length == 0) || (r.h.subpkt_length == 0))
            ≡ false =
          ground arith in
        rw (lengths, e)
          (elim (Bool-cases (t == token_code endofsession)) [
            | inl k ↦ rw k
            | inr k ↦ rw (k, present, value s)
          ])
