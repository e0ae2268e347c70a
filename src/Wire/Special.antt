-- ===== src/Wire/Special.antt =====
-- Common/DtaCommand.cpp: the bytes that `completeSpecial` puts behind the status list.
use sedutil.Prelude.{ℕ, ◌≡◌, ◌≢◌, sym, ap, ◌∙◌, refl, arith, Bool, List, [], ◌++◌, length, All}
use sedutil.Outcome.{done, fault}
use sedutil.Command.{DtaCommand, reset, complete_special, special_bytes}
use sedutil.Command.Encode.{at}
use sedutil.Command.Layout.{finished, eod_bytes, buffered-eq-done, complete_special-at}
use sedutil.Response.{read_tokens, token_length, take_bytes}
use sedutil.Response.Tokens.{Framed, concat, kept, read_tokens-concat}

special-fault : read_tokens 20 20 0 (special_bytes ++ []) ≡ fault
unfolding read_tokens token_length take_bytes
special-fault = refl

special_bytes-unframed : (ws : List (List ℕ)) → All Framed ws → concat ws ≢ special_bytes
special_bytes-unframed ws h e =
    let size : length (concat ws) ≡ 20 = ap length e in
    let split = read_tokens-concat ws [] 20 20 0 h (omega arith) (omega arith) in
    let same : fault ≡ done (kept ws) =
      sym special-fault ∙ ap (λ l. read_tokens 20 20 0 (l ++ [])) (sym e) ∙ split in
    cc same

-- A call that `completeSpecial` completes carries, behind the status list, 20 bytes in its
-- subpacket that are no sequence of tokens, each of the length that its head announces.
pub complete_special-unframed :
    (p : List ℕ) (eod : Bool) (c : DtaCommand)
    → complete_special eod (at (reset.cmdbuf ++ p)) ≡ done c
    → (s : List ℕ) × (c ≡ at (finished 0 0 0 (p ++ (eod_bytes eod ++ s))))
      × (length s ≡ 20)
      × ((ws : List (List ℕ)) → All Framed ws → concat ws ≢ s)
complete_special-unframed p eod c h =
    let q =
      buffered-eq-done (p ++ (eod_bytes eod ++ special_bytes)) c
        (sym (complete_special-at p eod) ∙ h) in
    (special_bytes, q.1, refl, special_bytes-unframed)
