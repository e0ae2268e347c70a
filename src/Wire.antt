-- ===== src/Wire.antt =====
-- DtaCommand.cpp against DtaResponse.cpp: the buffer that `complete` leaves, split by `init`.
pub mod Calls
pub mod Special
mod Tests
use sedutil.Prelude.{
  ℕ, zero, suc, ◌+◌, ◌*◌, ◌/◌, ◌%◌, ◌^◌, ◌<◌, ◌≤◌, ◌≡◌, refl, sym, ap, ◌∙◌, arith, Bool, true,
  false, ltb, List, [], ◌∷◌, ◌++◌, append-nil, append_assoc, length, length-append, All, All-append,
  ◌⊎◌, inl, inr, if◌then◌else◌, Bool-cases, some, get_elem?,
}
use mathlib.Core.List.{map}
use sedutil.Outcome.{Outcome, done, exit, ◌>>=◌, >>=-eq-done}
use sedutil.Endian.{swap32, word32, be32}
use sedutil.Endian.Laws.{swap32-word}
use sedutil.Lexicon.Uid.{OpalUid, opaluid}
use sedutil.Lexicon.Method.{OpalMethod, opalmethod, properties}
use sedutil.Lexicon.Token.{
  token_code, call, bytestring8, short_code, OpalTinyAtom, tiny_code, uint_00,
}
use sedutil.Command.{
  DtaCommand, Token, opal, tiny, short, uid, uint, vec, cstring, add_tokens, reset, reset_method,
  complete, max_buffer_length,
}
use sedutil.Command.Encode.{
  at, token_bytes, tokens_bytes, uid_bytes, method_bytes, Fits, add_tokens-at, reset_method-at,
}
use sedutil.Command.Layout.{
  finished, padded, padding, eod_bytes, complete-at, length-padded, header,
}
use sedutil.Response.{DtaResponse, OpalHeader, init, read_header, read32, read_tokens}
use sedutil.Response.Tokens.{Framed, concat, kept, read_tokens-concat}
use sedutil.Response.Values.{byte-Framed, uid-Framed, uint-Framed, cstring-Framed}

-- A `uint32_t` that was stored highest byte first.
abbrev stored : ℕ → ℕ
stored n = word32 (n / 2 ^ 24 % 256) (n / 2 ^ 16 % 256) (n / 2 ^ 8 % 256) (n % 256)

stored_big : (n : ℕ) → n < 2 ^ 32 → swap32 (stored n) ≡ n
stored_big n h =
    swap32-word _ _ _ _ (omega arith) (omega arith) (omega arith) (omega arith) ∙ omega arith

-- What `init` makes of a finished buffer whose payload is a sequence of tokens.
pub init-finished :
    (cid tsn hsn : ℕ) (ts : List (List ℕ))
    → All Framed ts
    → length (padded (concat ts)) + 56 ≤ max_buffer_length
    → (r : DtaResponse) × (init (finished cid tsn hsn (concat ts)) ≡ done r)
      × (r.response ≡ kept ts)
      × (swap32 r.h.cp_length ≡ length (padded (concat ts)) + 36)
      × (swap32 r.h.pkt_length ≡ length (padded (concat ts)) + 12)
      × (swap32 r.h.subpkt_length ≡ length (concat ts))
unfolding init read_header read32
init-finished cid tsn hsn ts h fits =
    let p : List ℕ = concat ts in
    let size = length-append p (padding (length p)) in
    let len : swap32 (stored (length p)) ≡ length p = stored_big (length p) (omega (arith, size)) in
    let split : read_tokens (length (finished cid tsn hsn p)) (length p) 0 (padded p)
        ≡ done (kept ts) =
      read_tokens-concat ts (padding (length p)) _ _ 0 h (omega arith) (omega (arith, size)) in
    (
      record {
        h = record {
          outstanding_data = 0;
          min_transfer = 0;
          cp_length = stored (length (padded p) + 36);
          pkt_length = stored (length (padded p) + 12);
          subpkt_length = stored (length p);
        };
        response = kept ts;
      },
      rw (len, split),
      refl,
      stored_big _ (omega arith),
      stored_big _ (omega arith),
      len,
    )

-- The arguments that are one token each. A vector is the caller's to frame.
abbrev pub IsToken : Token → Type 0
IsToken (opal token) =
    (token_code token < 128) ⊎ ((240 ≤ token_code token) × (token_code token < 256))
IsToken (tiny token) = Unit {0}
IsToken (short token) = ⊥
IsToken (uid token) = Unit {0}
IsToken (uint number) = Unit {0}
IsToken (vec token) = Framed token
IsToken (cstring bytestring) = length bytestring < 2048

tiny-Framed : (t : OpalTinyAtom) → Framed (tiny_code t ∷ [])
tiny-Framed uint_00 = byte-Framed _ (inl (omega arith))
tiny-Framed _ = byte-Framed _ (inl (omega arith))

pub token-Framed : (t : Token) → IsToken t → Framed (token_bytes t)
unfolding token_bytes
token-Framed (opal token) h = byte-Framed _ h
token-Framed (tiny token) h = tiny-Framed token
token-Framed (short token) h = absurd h
token-Framed (uid token) h = uid-Framed token
token-Framed (uint number) h = uint-Framed number
token-Framed (vec token) h = h
token-Framed (cstring bytestring) h = cstring-Framed bytestring h

IsToken-Fits : (t : Token) → IsToken t → Fits t
IsToken-Fits (cstring bytestring) h = h
IsToken-Fits (short token) h = absurd h
IsToken-Fits (opal token) h = tt
IsToken-Fits (tiny token) h = tt
IsToken-Fits (uid token) h = tt
IsToken-Fits (uint number) h = tt
IsToken-Fits (vec token) h = tt

-- What the parser is to see of a run of `addToken` calls.
abbrev pub args : List Token → List (List ℕ)
args [] = []
args (t ∷ ts) = token_bytes t ∷ args ts

pub args-Framed : (ts : List Token) → All IsToken ts → All Framed (args ts) × All Fits ts
args-Framed [] h = (tt, tt)
args-Framed (t ∷ ts) h =
    let (f, g) = args-Framed ts h.1 in ((token-Framed t h.0, f), (IsToken-Fits t h.0, g))

concat-args : (ts : List Token) → concat (args ts) ≡ tokens_bytes ts
concat-args [] = refl
concat-args (t ∷ ts) = rw (concat-args ts)
