-- ===== src/Response.antt =====
-- Common/DtaResponse.cpp: the tokens of a reply, and access to them by number.
-- A buffer is the list of its bytes. `init` trusts the length in the reply, and no accessor tests
-- its token number: what leaves the buffer or the vector is `fault`.
pub mod Tokens
pub mod Values
mod Tests
use sedutil.Prelude.{
  ℕ, zero, suc, ◌+◌, ◌-◌, ◌*◌, ◌/◌, ◌%◌, ◌^◌, Bool, List, [], ◌∷◌, length, get_elem?, drop, ltb,
  ◌==◌, bytes_eq, if◌then◌else◌,
}
use mathlib.Core.List.{reverse}
use sedutil.Outcome.{Outcome, done, exit, fault, hung, ◌>>=◌, or_fault}
use sedutil.Endian.{swap32, word32}
use sedutil.Command.{header_size}
use sedutil.Lexicon.Token.{token_code, dta_tokenid_bytestring, dta_tokenid_sint, dta_tokenid_uint}

-- The fields of `OPALHeader` that the program reads, as the machine holds them.
pub record OpalHeader : Type 0 where
  pub outstanding_data : ℕ
  pub min_transfer : ℕ
  pub cp_length : ℕ
  pub pkt_length : ℕ
  pub subpkt_length : ℕ

pub record DtaResponse : Type 0 where
  pub h : OpalHeader
  pub response : List (List ℕ)

unfoldable pub read32 : List ℕ → ℕ → Outcome ℕ
read32 buffer offset = do
  a ← or_fault (get_elem? buffer offset)
  b ← or_fault (get_elem? buffer (offset + 1))
  c ← or_fault (get_elem? buffer (offset + 2))
  d ← or_fault (get_elem? buffer (offset + 3))
  done (word32 a b c d)

-- memcpy(&h, buffer, sizeof (OPALHeader))
unfoldable pub read_header : List ℕ → Outcome OpalHeader
unfolding read32
read_header buffer = do
  outstanding_data ← read32 buffer 8
  min_transfer ← read32 buffer 12
  cp_length ← read32 buffer 16
  pkt_length ← read32 buffer 40
  subpkt_length ← read32 buffer 52
  done (record {
    outstanding_data = outstanding_data;
    min_transfer = min_transfer;
    cp_length = cp_length;
    pkt_length = pkt_length;
    subpkt_length = subpkt_length;
  })

-- The tests of one bit of the first byte of a token.
abbrev pub is_tiny : ℕ → Bool
is_tiny b = b / 0x80 % 2 == 0

abbrev pub is_short : ℕ → Bool
is_short b = b / 0x40 % 2 == 0

abbrev pub is_medium : ℕ → Bool
is_medium b = b / 0x20 % 2 == 0

abbrev pub is_long : ℕ → Bool
is_long b = b / 0x10 % 2 == 0

-- `tokenLength`; the list is `reply` from `cpos` on.
unfoldable pub token_length : List ℕ → Outcome ℕ
token_length [] = fault
token_length (b ∷ reply) =
    if is_tiny b
    then done 1
    else if is_short b
    then done (b % 16 + 1)
    else if is_medium b
    then (do b1 ← or_fault (get_elem? reply 0); done (b % 8 * 2 ^ 8 + b1 + 2))
    else if is_long b
    then (do
      b1 ← or_fault (get_elem? reply 0)
      b2 ← or_fault (get_elem? reply 1)
      b3 ← or_fault (get_elem? reply 2)
      done (b1 * 2 ^ 16 + b2 * 2 ^ 8 + b3 + 4))
    else done 1

-- The bytes that the inner loop moves to `bytestring`, and those behind.
unfoldable pub take_bytes : ℕ → List ℕ → Outcome (List ℕ × List ℕ)
take_bytes zero reply = done ([], reply)
take_bytes (suc n) [] = fault
take_bytes (suc n) (b ∷ reply) = do
  (bytestring, rest) ← take_bytes n reply
  done (b ∷ bytestring, rest)

abbrev pub push : List ℕ → List (List ℕ) → List (List ℕ)
push bytestring response =
    if bytes_eq bytestring (0xff ∷ []) then response else bytestring ∷ response

-- while (cpos < len); a round takes a byte at least.
unfoldable pub read_tokens : ℕ → ℕ → ℕ → List ℕ → Outcome (List (List ℕ))
read_tokens zero len cpos reply = if ltb cpos len then hung else done []
read_tokens (suc fuel) len cpos reply =
    if ltb cpos len
    then (do
      n ← token_length reply
      (bytestring, rest) ← take_bytes n reply
      response ← read_tokens fuel len (cpos + n) rest
      done (push bytestring response))
    else done []

unfoldable pub init : List ℕ → Outcome DtaResponse
init buffer = do
  h ← read_header buffer
  response ← read_tokens (length buffer) (swap32 h.subpkt_length) 0 (drop header_size buffer)
  done (record { h = h; response = response })

-- response[tokenNum] and response[tokenNum][0]
abbrev pub token : DtaResponse → ℕ → Outcome (List ℕ)
token r n = or_fault (get_elem? r.response n)

abbrev pub first : List ℕ → Outcome ℕ
first t = or_fault (get_elem? t 0)

abbrev kind : Bool → Bool → ℕ
kind bytestring signed =
    if bytestring
    then token_code dta_tokenid_bytestring
    else if signed
    then token_code dta_tokenid_sint
    else token_code dta_tokenid_uint

unfoldable pub token_is : DtaResponse → ℕ → Outcome ℕ
token_is r n = do
  t ← token r n
  b ← first t
  done (
      if is_tiny b
      then (if b / 0x40 % 2 == 0 then token_code dta_tokenid_uint else token_code dta_tokenid_sint)
      else if is_short b
      then kind (b / 0x20 % 2 == 1) (b / 0x10 % 2 == 1)
      else if is_medium b
      then kind (b / 0x10 % 2 == 1) (b / 0x08 % 2 == 1)
      else if is_long b
      then kind (b / 0x02 % 2 == 1) (b / 0x01 % 2 == 1)
      else b)

unfoldable pub get_length : DtaResponse → ℕ → Outcome ℕ
get_length r n = do t ← token r n; done (length t % 2 ^ 32)

-- The loop of `getUint64`, from the last byte to the first behind the head; `scale` is 2 ^ (8 * b).
unfoldable pub collect : List ℕ → ℕ → ℕ → ℕ
collect [] scale whatever = whatever
collect (x ∷ xs) scale whatever = collect xs (scale * 256) (whatever + x * scale)

-- A ninth byte would be shifted by 64, which is undefined for a uint64_t.
unfoldable pub get_uint64 : DtaResponse → ℕ → Outcome ℕ
get_uint64 r n = do
  t ← token r n
  b ← first t
  if is_tiny b
      then (if b / 0x40 % 2 == 0 then done (b % 64) else exit)
      else if is_short b
      then (if b / 0x10 % 2 == 0
          then (if ltb 9 (length t) then fault else done (collect (reverse (drop 1 t)) 1 0))
          else exit)
      else exit

unfoldable pub get_uint32 : DtaResponse → ℕ → Outcome ℕ
get_uint32 r n = do i ← get_uint64 r n; done (i % 2 ^ 32)

unfoldable pub get_uint16 : DtaResponse → ℕ → Outcome ℕ
get_uint16 r n = do i ← get_uint64 r n; done (i % 2 ^ 16)

unfoldable pub get_uint8 : DtaResponse → ℕ → Outcome ℕ
get_uint8 r n = do i ← get_uint64 r n; done (i % 2 ^ 8)

unfoldable pub get_raw_token : DtaResponse → ℕ → Outcome (List ℕ)
get_raw_token r n = token r n

unfoldable pub get_string : DtaResponse → ℕ → Outcome (List ℕ)
get_string r n = do
  t ← token r n
  b ← first t
  if is_tiny b
      then exit
      else if is_short b
      then done (drop 1 t)
      else if is_medium b
      then done (drop 2 t)
      else if is_long b
      then done (drop 4 t)
      else done []

-- The bytes that `getBytes` stores in the array.
unfoldable pub get_bytes : DtaResponse → ℕ → Outcome (List ℕ)
get_bytes r n = do
  t ← token r n
  b ← first t
  if is_tiny b
      then exit
      else if is_short b
      then done (drop 1 t)
      else if is_medium b
      then done (drop 2 t)
      else if is_long b
      then done (drop 4 t)
      else exit

unfoldable pub get_token_count : DtaResponse → ℕ
get_token_count r = length r.response % 2 ^ 32
