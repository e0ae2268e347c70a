-- ===== src/Opal/Wire.antt =====
-- Common/DtaDevOpal.cpp: what an Opal drive is sent by a method call on a row of a table.
use sedutil.Prelude.{
  ℕ, ◌+◌, ◌≤◌, ◌≡◌, refl, sym, ap, ◌∙◌, subst, arith, true, List, some, length, All, ◌==◌,
  Bool-cases, inl, inr,
}
use sedutil.Outcome.{done}
use sedutil.Lexicon.Uid.{opal_authority_table}
use sedutil.Lexicon.Method.{OpalMethod}
use sedutil.Command.{DtaCommand, Token, max_buffer_length}
use sedutil.Command.Encode.{at, change_invoking_uid-at}
use sedutil.Command.Layout.{finished}
use sedutil.Response.{DtaResponse, init, token_length}
use sedutil.Response.Tokens.{Framed, concat, kept}
use sedutil.Wire.{IsToken, args-Framed}
use sedutil.Wire.Calls.{call_tokens, build-call, buffered-fits, finished-call}
use sedutil.Device.{Platform, Request, DtaDev, com_id, >>=-eq-done}
use sedutil.Device.Exec.{last_sent, send_request}
use sedutil.Session.{DtaSession, send_command}
use sedutil.Session.Trace.{stamped, stamped-finished, send_command_sent}
use sedutil.Opal.{table_command, invoke, range_uid}

-- The row that a vector of nine bytes names takes the place of the invoking UID.
pub table_command-fits :
    (table : List ℕ) (method : OpalMethod) (ts : List Token)
    → length table ≡ 9
    → All IsToken ts
    → length (concat (call_tokens table method ts true)) + 59 ≤ max_buffer_length
    → table_command table method ts
      ≡ done (at (finished 0 0 0 (concat (call_tokens table method ts true))))
unfolding table_command
table_command-fits table method ts nine h fits =
    rw (change_invoking_uid-at table opal_authority_table method nine) (
      build-call table method ts true (args-Framed ts h).1
      ∙ buffered-fits (concat (call_tokens table method ts true)) fits)

module _ (p : Platform) (s : DtaSession) (d : DtaDev) (cmd : DtaCommand) where
  invoke_sent :
      {rc : ℕ} {d' : DtaDev}
      → invoke p s (done cmd) d ≡ done (rc, d')
      → last_sent d'.requests ≡ some (send_request s.security_protocol (stamped s d cmd) d)
  unfolding invoke
  invoke_sent {rc} {d'} h =
      let (r, d1, ran, rest) = >>=-eq-done (send_command p s cmd d.response) _ d h in
      let q : record d1 { response = r.1 } ≡ d' = cc rest in
      ap (λ (e : DtaDev). last_sent e.requests) (sym q)
      ∙ (send_command_sent p s cmd d.response d ran).0

-- A method call on a row of a table, with arguments that are tokens and fit the buffer: if it returns,
-- the last command that the drive was sent goes to its ComID under the session's protocol, and its
-- buffer reads as the call of this method on this row with these arguments.
pub invoke_table :
    (p : Platform) (s : DtaSession) (d : DtaDev) (table : List ℕ) (method : OpalMethod)
    (ts : List Token) (rc : ℕ) (d' : DtaDev)
    → length table ≡ 9
    → Framed table
    → All IsToken ts
    → length (concat (call_tokens table method ts true)) + 59 ≤ max_buffer_length
    → invoke p s (table_command table method ts) d ≡ done (rc, d')
    → (req : Request) × (r : DtaResponse) × (last_sent d'.requests ≡ some req)
      × (req.protocol ≡ s.security_protocol)
      × (req.com_id ≡ com_id d)
      × (init req.buffer ≡ done r)
      × (r.response ≡ kept (call_tokens table method ts true))
invoke_table p s d table method ts rc d' nine f h fits ran =
    let payload = concat (call_tokens table method ts true) in
    let ran' =
      subst (λ o. invoke p s o d ≡ done (rc, d')) (table_command-fits table method ts nine h fits)
        ran in
    let (r, parsed, tokens) = finished-call table method ts true f h fits (com_id d) s.tsn s.hsn in
    (
      send_request s.security_protocol (at (finished (com_id d) s.tsn s.hsn payload)) d,
      r,
      invoke_sent p s d (at (finished 0 0 0 payload)) ran'
          ∙ ap (λ c. some (send_request s.security_protocol c d)) (stamped-finished s d payload),
      refl,
      refl,
      parsed,
      tokens,
    )

-- The vector of a range is a token of nine bytes, and tells the ranges apart.
pub range_uid-Framed : (n : ℕ) → (length (range_uid n) ≡ 9) × Framed (range_uid n)
unfolding range_uid token_length
range_uid-Framed n = elim (Bool-cases (n == 0)) [
  | inl e ↦ rw e (refl, (omega arith, λ rest. refl))
  | inr e ↦ rw e (refl, (omega arith, λ rest. refl))
]

pub range_uid-inj : (m n : ℕ) → range_uid m ≡ range_uid n → m ≡ n
unfolding range_uid
range_uid-inj m n h = elim (Bool-cases (m == 0)) [
  | inl e ↦ elim (Bool-cases (n == 0)) [ inl k ↦ ground arith | inr k ↦ cc (rw (e, k) at h) ]
  | inr e ↦ elim (Bool-cases (n == 0)) [ inl k ↦ cc (rw (e, k) at h) | inr k ↦ cc (rw (e, k) at h) ]
]
