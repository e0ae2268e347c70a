-- ===== src/Wire/Calls.antt =====
-- A method call, from `reset` to the tokens that the other side sees.
use sedutil.Prelude.{
  ℕ, ◌+◌, ◌%◌, ◌≤◌, ◌≡◌, refl, sym, ap, ◌∙◌, arith, Bool, true, false, ltb, List, [], ◌∷◌, ◌++◌,
  append_assoc, length, All, All-append, inl, inr,
}
use sedutil.Outcome.{done, ◌>>=◌}
use sedutil.Endian.{swap32}
use sedutil.Lexicon.Uid.{OpalUid}
use sedutil.Lexicon.Method.{OpalMethod, opalmethod, properties}
use sedutil.Lexicon.Token.{token_code, call, bytestring8, short_code}
use sedutil.Command.{
  DtaCommand, Token, add_tokens, reset, reset_method, complete, max_buffer_length,
}
use sedutil.Command.Encode.{
  at, tokens_bytes, uid_bytes, method_bytes, Fits, add_tokens-at, reset_method-at,
}
use sedutil.Command.Layout.{finished, padded, eod_bytes, complete-at, buffered, length-padded}
use sedutil.Response.{DtaResponse, init, token_length}
use sedutil.Response.Tokens.{Framed, concat, kept}
use sedutil.Response.Values.{byte-Framed, uid-Framed}
use sedutil.Wire.{IsToken, args, args-Framed, concat-args, init-finished}

abbrev pub eod_tokens : Bool → List (List ℕ)
eod_tokens true = (0xf9 ∷ []) ∷ (0xf0 ∷ []) ∷ (0 ∷ []) ∷ (0 ∷ []) ∷ (0 ∷ []) ∷ (0xf1 ∷ []) ∷ []
eod_tokens false = []

-- The call token, the invoking UID, the method UID, the arguments, the status list.
abbrev pub call_tokens : List ℕ → OpalMethod → List Token → Bool → List (List ℕ)
call_tokens invoker method ts eod =
    (token_code call ∷ [])
    ∷ invoker
    ∷ (short_code bytestring8 ∷ opalmethod method)
    ∷ (args ts ++ eod_tokens eod)

concat-append : (a b : List (List ℕ)) → concat (a ++ b) ≡ concat a ++ concat b
concat-append [] b = refl
concat-append (t ∷ a) b = rw (concat-append a b) (sym (append_assoc t (concat a) (concat b)))

concat-eod_tokens : (eod : Bool) → concat (eod_tokens eod) ≡ eod_bytes eod
concat-eod_tokens true = refl
concat-eod_tokens false = refl

pub concat-call_tokens :
    (invoker : List ℕ) (method : OpalMethod) (ts : List Token) (eod : Bool)
    → concat (call_tokens invoker method ts eod)
      ≡ (method_bytes invoker method ++ tokens_bytes ts) ++ eod_bytes eod
concat-call_tokens invoker method ts eod =
    simp (concat-append, concat-eod_tokens, concat-args, append_assoc)

opalmethod-Framed : (m : OpalMethod) → Framed (short_code bytestring8 ∷ opalmethod m)
unfolding token_length
opalmethod-Framed properties = (omega arith, λ rest. refl)
opalmethod-Framed _ = (omega arith, λ rest. refl)

eod_tokens-Framed : (eod : Bool) → All Framed (eod_tokens eod)
eod_tokens-Framed true =
    (high, (byte-Framed 0xf0 (inr (omega arith)), (zero, (zero, (zero, (last, tt))))))
  where
    high : Framed (0xf9 ∷ [])
    high = byte-Framed _ (inr (omega arith))

    zero : Framed (0 ∷ [])
    zero = byte-Framed _ (inl (omega arith))

    last : Framed (0xf1 ∷ [])
    last = byte-Framed _ (inr (omega arith))
eod_tokens-Framed false = tt

pub call_tokens-Framed :
    (invoker : List ℕ) (method : OpalMethod) (ts : List Token) (eod : Bool)
    → Framed invoker
    → All IsToken ts
    → All Framed (call_tokens invoker method ts eod)
call_tokens-Framed invoker method ts eod f h = (
  byte-Framed _ (inr (omega arith)),
  (
    f,
    (
      opalmethod-Framed method,
      All-append Framed (args ts) (eod_tokens eod) (args-Framed ts h).0 (eod_tokens-Framed eod),
    ),
  ),
)

-- The buffer of a whole call: the payload is the call's tokens, and the only way not to finish is
-- that they do not fit the buffer.
pub build-call :
    (invoker : List ℕ) (method : OpalMethod) (ts : List Token) (eod : Bool)
    → All Fits ts
    → (add_tokens ts (at (reset.cmdbuf ++ method_bytes invoker method)) >>= complete eod)
      ≡ buffered (concat (call_tokens invoker method ts eod))
build-call invoker method ts eod h =
    let z = reset.cmdbuf in
    let m = method_bytes invoker method in
    ap (λ o. o >>= complete eod) (add_tokens-at ts (z ++ m) h)
    ∙ ap (λ l. complete eod (at l)) (append_assoc z m (tokens_bytes ts))
    ∙ complete-at (m ++ tokens_bytes ts) eod
    ∙ ap buffered (sym (concat-call_tokens invoker method ts eod))

-- A payload that fits gives a finished buffer, and `init` reads its tokens back from it under any
-- header.
pub finished-call :
    (invoker : List ℕ) (method : OpalMethod) (ts : List Token) (eod : Bool)
    → Framed invoker
    → All IsToken ts
    → length (concat (call_tokens invoker method ts eod)) + 59 ≤ max_buffer_length
    → (cid tsn hsn : ℕ)
    → (r : DtaResponse) × (init (finished cid tsn hsn (concat (call_tokens invoker method ts eod)))
        ≡ done r)
      × (r.response ≡ kept (call_tokens invoker method ts eod))
finished-call invoker method ts eod f h fits cid tsn hsn =
    let ws = call_tokens invoker method ts eod in
    let size = length-padded (concat ws) in
    let (r, ran, tokens, cp, pkt, sub) =
      init-finished cid tsn hsn ws (call_tokens-Framed invoker method ts eod f h) (omega arith) in
    (r, ran, tokens)

pub buffered-fits :
    (p : List ℕ) → length p + 59 ≤ max_buffer_length → buffered p ≡ done (at (finished 0 0 0 p))
buffered-fits p fits =
    let size = length-padded p in
    let test : ltb max_buffer_length (length (padded p) + 56) ≡ false = ground arith in rw test

module _ (u : OpalUid) (method : OpalMethod) (ts : List Token) (eod : Bool) where
  -- A call whose arguments are tokens, and which fits the buffer, is built by `DtaCommand` and split
  -- by `DtaResponse` into just these tokens: none is merged, cut or lost but an empty atom. The
  -- three lengths of the header are those of what follows each packet header, and the buffer ends
  -- at a multiple of four.
  pub init-complete :
      All IsToken ts
      → length (concat (call_tokens (uid_bytes u) method ts eod)) + 59 ≤ max_buffer_length
      → (c : DtaCommand) × (r : DtaResponse) × ((add_tokens ts (reset_method u method)
            >>= complete eod)
          ≡ done c)
        × (init c.cmdbuf ≡ done r)
        × (r.response ≡ kept (call_tokens (uid_bytes u) method ts eod))
        × (swap32 r.h.cp_length + 20 ≡ c.bufferpos)
        × (swap32 r.h.pkt_length + 44 ≡ c.bufferpos)
        × (swap32 r.h.subpkt_length + 56 ≤ c.bufferpos)
        × (c.bufferpos ≤ swap32 r.h.subpkt_length + 59)
        × (c.bufferpos % 4 ≡ 0)
  init-complete h fits =
      let ws = call_tokens (uid_bytes u) method ts eod in
      let size = length-padded (concat ws) in
      let made : (add_tokens ts (reset_method u method) >>= complete eod)
          ≡ done (at (finished 0 0 0 (concat ws))) =
        rw reset_method-at (
          build-call (uid_bytes u) method ts eod (args-Framed ts h).1
          ∙ buffered-fits (concat ws) fits) in
      let (r, ran, tokens, cp, pkt, sub) =
        init-finished 0 0 0 ws (call_tokens-Framed (uid_bytes u) method ts eod (uid-Framed u) h)
          (omega arith) in
      (
        at (finished 0 0 0 (concat ws)),
        r,
        made,
        ran,
        tokens,
        omega arith,
        omega arith,
        omega arith,
        omega arith,
        omega arith,
      )
