-- ===== src/Wire/Tests.antt =====
-- A StartSession call from the buffer back to its tokens.
use sedutil.Prelude.{ℕ, ◌+◌, ◌%◌, ◌≤◌, ◌≡◌, arith, true, List, [], ◌∷◌, ◌++◌, length, inr, All, ◌≢◌}
use sedutil.Outcome.{done, ◌>>=◌}
use sedutil.Endian.{swap32}
use sedutil.Lexicon.Uid.{opal_smuid_uid, opal_lockingsp_uid}
use sedutil.Lexicon.Method.{startsession}
use sedutil.Lexicon.Token.{startlist, endlist, uint_01}
use sedutil.Command.{
  DtaCommand, Token, opal, tiny, uid, uint, add_tokens, complete, reset_method, special_bytes,
}
use sedutil.Command.Layout.{finished, eod_bytes, complete_special-at}
use sedutil.Command.Encode.{at, uid_bytes, uint_bytes, token_bytes}
use sedutil.Response.{DtaResponse, init}
use sedutil.Response.Tokens.{kept, concat, Framed}
use sedutil.Wire.Special.{complete_special-unframed}
use sedutil.Wire.{IsToken}
use sedutil.Wire.Calls.{call_tokens, init-complete}

abbrev session_args : List Token
session_args = opal startlist ∷ uint 105 ∷ uid opal_lockingsp_uid ∷ tiny uint_01 ∷ opal endlist ∷ []

abbrev ok : All IsToken session_args
ok = (inr (omega arith, omega arith), (tt, (tt, (tt, (inr (omega arith, omega arith), tt)))))

init-complete_example :
    (c : DtaCommand) × (r : DtaResponse) × ((add_tokens session_args
          (reset_method opal_smuid_uid startsession)
        >>= complete true)
      ≡ done c)
    × (init c.cmdbuf ≡ done r)
    × (r.response ≡ kept (call_tokens (uid_bytes opal_smuid_uid) startsession session_args true))
    × (swap32 r.h.cp_length + 20 ≡ c.bufferpos)
    × (swap32 r.h.pkt_length + 44 ≡ c.bufferpos)
    × (swap32 r.h.subpkt_length + 56 ≤ c.bufferpos)
    × (c.bufferpos ≤ swap32 r.h.subpkt_length + 59)
    × (c.bufferpos % 4 ≡ 0)
unfolding uint_bytes token_bytes
init-complete_example = init-complete opal_smuid_uid startsession session_args true ok (omega arith)

abbrev special : DtaCommand
special = at (finished 0 0 0 (0xf0 ∷ 0xf1 ∷ eod_bytes true ++ special_bytes))

complete_special-unframed_example :
    (s : List ℕ) × (special ≡ at (finished 0 0 0 ((0xf0 ∷ 0xf1 ∷ []) ++ (eod_bytes true ++ s))))
    × (length s ≡ 20)
    × ((ws : List (List ℕ)) → All Framed ws → concat ws ≢ s)
complete_special-unframed_example =
    complete_special-unframed (0xf0 ∷ 0xf1 ∷ []) true special
      (complete_special-at (0xf0 ∷ 0xf1 ∷ []) true)
