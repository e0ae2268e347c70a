-- ===== src/Command.antt =====
-- Common/DtaCommand.cpp: the command buffer that a method call is built in.
-- `cmdbuf` lists the buffer from its start; what it does not hold is the zeros that `reset` wrote.
-- The response buffer of the class is scratch memory of `exec`, which clears it before each use.
pub mod Encode
pub mod Layout
use sedutil.Prelude.{
  ℕ, zero, suc, ◌+◌, ◌-◌, ◌*◌, ◌/◌, ◌%◌, ◌^◌, Bool, List, [], ◌∷◌, length, take, replicate, poke,
  ltb, ◌==◌, if◌then◌else◌,
}
use sedutil.Outcome.{Outcome, done, exit, fault, ◌>>=◌}
use sedutil.Endian.{swap32, bytes32}
use sedutil.Lexicon.Uid.{OpalUid, opaluid}
use sedutil.Lexicon.Method.{OpalMethod, opalmethod}
use sedutil.Lexicon.Token.{
  OpalToken, OpalTinyAtom, OpalShortAtom, token_code, tiny_code, short_code, call, startlist,
  endlist, endofdata, bytestring8,
}

abbrev pub max_buffer_length : ℕ
max_buffer_length = 61440

-- The room from the buffer's start on. The array has MAX_BUFFER_LENGTH + IO_BUFFER_ALIGNMENT bytes, and
-- the buffer starts behind the first of them or, by the alignment of the array, farther.
abbrev pub array_room : ℕ
array_room = 62463

-- sizeof (OPALHeader), sizeof (OPALComPacket), sizeof (OPALPacket)
abbrev pub header_size : ℕ
header_size = 56

abbrev pub com_packet_size : ℕ
com_packet_size = 20

abbrev pub packet_size : ℕ
packet_size = 24

pub record DtaCommand : Type 0 where
  pub cmdbuf : List ℕ
  pub bufferpos : ℕ

-- cmdbuf[bufferpos++] = b
unfoldable pub emit : ℕ → DtaCommand → DtaCommand
emit b c = record { cmdbuf = poke c.cmdbuf c.bufferpos b; bufferpos = c.bufferpos + 1 }

-- A copy of bytes at bufferpos, by memcpy or by a loop.
unfoldable pub emit_all : List ℕ → DtaCommand → DtaCommand
emit_all [] c = c
emit_all (b ∷ bs) c = emit_all bs (emit b c)

unfoldable pub reset : DtaCommand
reset = record { cmdbuf = replicate header_size 0; bufferpos = header_size }

-- The loop of addToken(uint64_t): `rounds` is i + 1.
unfoldable pub emit_number : ℕ → ℕ → DtaCommand → DtaCommand
emit_number zero number c = c
emit_number (suc i) number c = emit_number i number (emit (number / 2 ^ (i * 8) % 256) c)

unfoldable pub add_uint : ℕ → DtaCommand → DtaCommand
add_uint number c =
    if ltb number 64
    then emit (number % 256 % 64) c
    else if ltb number 0x100
    then emit_number 1 number (emit 0x81 c)
    else if ltb number 0x10000
    then emit_number 2 number (emit 0x82 c)
    else if ltb number 0x100000000
    then emit_number 4 number (emit 0x84 c)
    else emit_number 8 number (emit 0x88 c)

-- A C string is the list of its bytes before the terminating zero.
unfoldable pub add_cstring : List ℕ → DtaCommand → Outcome DtaCommand
add_cstring bytestring c =
    let len = length bytestring % 2 ^ 16 in
    if len == 0
    then done (emit_all (take len bytestring) (emit 0x00 (emit 0xa1 c)))
    else if ltb len 16
    then done (emit_all (take len bytestring) (emit (len % 256 + 0xa0) c))
    else if ltb len 2048
    then done (emit_all (take len bytestring) (emit (len % 256) (emit (0xd0 + len / 2 ^ 8 % 8) c)))
    else exit

unfoldable pub add_uid : OpalUid → DtaCommand → DtaCommand
add_uid token c = emit_all (opaluid token) (emit (short_code bytestring8) c)

-- One constructor for each overload of `addToken`.
pub data Token : Type 0 where
  opal : OpalToken → Token
  tiny : OpalTinyAtom → Token
  short : OpalShortAtom → Token
  uid : OpalUid → Token
  uint : ℕ → Token
  vec : List ℕ → Token
  cstring : List ℕ → Token

unfoldable pub add_token : Token → DtaCommand → Outcome DtaCommand
add_token (opal token) c = done (emit (token_code token) c)
add_token (tiny token) c = done (emit (tiny_code token) c)
add_token (short token) c = done (emit (short_code token) c)
add_token (uid token) c = done (add_uid token c)
add_token (uint number) c = done (add_uint number c)
add_token (vec token) c = done (emit_all token c)
add_token (cstring bytestring) c = add_cstring bytestring c

-- A run of `addToken` calls.
unfoldable pub add_tokens : List Token → DtaCommand → Outcome DtaCommand
add_tokens [] c = done c
add_tokens (t ∷ ts) c = do c' ← add_token t c; add_tokens ts c'

-- reset(OPAL_UID, OPAL_METHOD)
unfoldable pub reset_method : OpalUid → OpalMethod → DtaCommand
reset_method invoking_uid method =
    emit_all (opalmethod method)
      (emit (short_code bytestring8) (add_uid invoking_uid (emit (token_code call) reset)))

-- reset(OPAL_UID, vector<uint8_t>)
unfoldable pub reset_uid_vec : OpalUid → List ℕ → DtaCommand
reset_uid_vec invoking_uid method =
    emit_all method (add_uid invoking_uid (emit (token_code call) reset))

-- reset(vector<uint8_t>, vector<uint8_t>)
unfoldable pub reset_vecs : List ℕ → List ℕ → DtaCommand
reset_vecs invoking_uid method =
    emit_all method (emit_all invoking_uid (emit (token_code call) reset))

-- Bytes stored from an offset of the buffer on.
unfoldable pub poke_all : List ℕ → ℕ → List ℕ → List ℕ
poke_all m offset [] = m
poke_all m offset (b ∷ bs) = poke_all (poke m offset b) (offset + 1) bs

unfoldable pub store : ℕ → List ℕ → DtaCommand → DtaCommand
store offset bs c = record c { cmdbuf = poke_all c.cmdbuf offset bs }

unfoldable pub change_invoking_uid : List ℕ → DtaCommand → DtaCommand
change_invoking_uid invoker c = store (header_size + 1) invoker c

-- hdr->cp.extendedComID
unfoldable pub set_com_id : ℕ → DtaCommand → DtaCommand
set_com_id com_id c = store 4 (com_id / 2 ^ 8 % 256 ∷ com_id % 256 ∷ 0 ∷ 0 ∷ []) c

-- hdr->pkt.TSN and hdr->pkt.HSN, in the byte order of the machine
unfoldable pub set_tsn : ℕ → DtaCommand → DtaCommand
set_tsn tsn c = store 20 (bytes32 tsn) c

unfoldable pub set_hsn : ℕ → DtaCommand → DtaCommand
set_hsn hsn c = store 24 (bytes32 hsn) c

-- while (bufferpos % 4 != 0); three rounds are enough
unfoldable pub pad : ℕ → DtaCommand → DtaCommand
pad zero c = c
pad (suc rounds) c = let rest = pad rounds (emit 0x00 c) in if c.bufferpos % 4 == 0 then c else rest

-- `if (EOD)`: the end of data token and the method status list
unfoldable pub add_eod : Bool → DtaCommand → DtaCommand
add_eod eod c =
    if eod
    then emit_all
        (token_code endofdata ∷ token_code startlist ∷ 0 ∷ 0 ∷ 0 ∷ token_code endlist ∷ []) c
    else c

-- hdr->subpkt.length, before the padding
unfoldable pub set_subpkt_length : DtaCommand → DtaCommand
set_subpkt_length c = store 52 (bytes32 (swap32 (c.bufferpos - header_size))) c

-- hdr->pkt.length and hdr->cp.length, after the padding
unfoldable pub set_lengths : DtaCommand → DtaCommand
set_lengths c =
    store 16 (bytes32 (swap32 (c.bufferpos - com_packet_size)))
      (store 40 (bytes32 (swap32 (c.bufferpos - com_packet_size - packet_size))) c)

-- The buffer that is too long ends the program. No call tests the room for what it writes: a
-- position behind the array tells that bytes were written behind it.
abbrev pub overrun {ℓ} : {A : Type ℓ} → ℕ → Outcome A
overrun pos = if ltb array_room pos then fault else exit

-- Fills in the lengths and pads.
unfoldable pub finish : DtaCommand → Outcome DtaCommand
finish c =
    let c' = set_lengths (pad 3 (set_subpkt_length c)) in
    if ltb max_buffer_length c'.bufferpos then overrun c'.bufferpos else done c'

unfoldable pub complete : Bool → DtaCommand → Outcome DtaCommand
complete eod c = finish (add_eod eod c)

abbrev pub special_bytes : List ℕ
special_bytes =
    0x01 ∷ 0x02 ∷ 0x03 ∷ 0x04 ∷ 0x05 ∷ 0x06 ∷ 0x07 ∷ 0x08 ∷ 0x11 ∷ 0x12 ∷ 0x13 ∷ 0x14 ∷ 0x15 ∷ 0x16
    ∷ 0x17 ∷ 0x18 ∷ 0x88 ∷ 0x13 ∷ 0x00 ∷ 0x00 ∷ []

unfoldable pub complete_special : Bool → DtaCommand → Outcome DtaCommand
complete_special eod c = finish (emit_all special_bytes (add_eod eod c))

-- (uint16_t), with the conversion before the product as the source has it
unfoldable pub output_buffer_size : DtaCommand → ℕ
output_buffer_size c =
    if c.bufferpos % 512 == 0
    then (c.bufferpos / 512 % 2 ^ 16 * 512) % 2 ^ 16
    else ((c.bufferpos / 512 % 2 ^ 16 + 1) * 512) % 2 ^ 16

-- A whole call: the tokens behind a `reset`, then `complete`.
abbrev pub build : List Token → Bool → DtaCommand → Outcome DtaCommand
build ts eod c = add_tokens ts c >>= complete eod
