-- ===== src/Session/Reply.antt =====
-- Common/DtaSession.cpp: what `sendCommand` and `start` read from a reply.
use sedutil.Prelude.{ℕ, ◌+◌, ◌-◌, ◌%◌, ◌^◌, Bool, false, [], ◌||◌, ◌==◌, if◌then◌else◌}
use sedutil.Outcome.{Outcome, done, ◌>>=◌}
use sedutil.Endian.{swap32}
use sedutil.Lexicon.Token.{token_code, startlist, endlist, endofsession}
use sedutil.Lexicon.Status.{error_code, command_error, no_method_status}
use sedutil.Response.{DtaResponse, token_is, get_uint32, get_uint8, get_token_count}

-- A `DtaResponse` before its first `init`.
abbrev pub no_response : DtaResponse
no_response = record {
  h = record {
    outstanding_data = 0;
    min_transfer = 0;
    cp_length = 0;
    pkt_length = 0;
    subpkt_length = 0;
  };
  response = [];
}

-- uint32_t arithmetic on token numbers
abbrev pub minus32 : ℕ → ℕ → ℕ
minus32 a b = (a + 2 ^ 32 - b) % 2 ^ 32

-- code == response.tokenIs(n)
abbrev pub is_token : DtaResponse → ℕ → ℕ → Outcome Bool
is_token r n code = do t ← token_is r n; done (t == code)

-- The end of the status list is looked at first, and its start only if that is there.
unfoldable pub method_status_present : DtaResponse → Outcome Bool
method_status_present r = do
  last ← is_token r (minus32 (get_token_count r) 1) (token_code endlist)
  if last then is_token r (minus32 (get_token_count r) 5) (token_code startlist) else done false

-- What `sendCommand` makes of the reply: the method status, or an error of its own.
unfoldable pub check_reply : DtaResponse → Outcome ℕ
unfolding method_status_present
check_reply r =
    if (r.h.cp_length == 0) || (r.h.pkt_length == 0) || (r.h.subpkt_length == 0)
    then done (error_code command_error)
    else (do
      ended ← is_token r 0 (token_code endofsession)
      if ended then done 0 else do
        present ← method_status_present r
        if present
            then get_uint8 r (minus32 (get_token_count r) 4)
            else done (error_code no_method_status))

-- The session numbers of the host and of the drive, in the byte order of the protocol.
unfoldable pub session_numbers : DtaResponse → Outcome (ℕ × ℕ)
session_numbers r = do host ← get_uint32 r 4; tper ← get_uint32 r 5; done (swap32 host, swap32 tper)
