-- ===== src/Opal/Properties.antt =====
-- Common/DtaDevOpal.cpp: what `properties` reads from the reply.
pub mod Ends
use sedutil.Prelude.{
  ℕ, zero, suc, ◌+◌, Bool, true, false, List, [], ◌∷◌, not, ◌&&◌, ltb, ◌==◌, bytes_eq,
  if◌then◌else◌, codes,
}
use mathlib.Core.List.{map}
use sedutil.Outcome.{Outcome, done, hung, ◌>>=◌}
use sedutil.Lexicon.Token.{token_code, startname, dta_tokenid_bytestring}
use sedutil.Response.{DtaResponse, token_is, get_string, get_uint32, get_token_count}

-- The bytes before the first zero, as a C string ends there.
unfoldable pub c_str : List ℕ → List ℕ
c_str [] = []
c_str (c ∷ l) = let rest = c_str l in if c == 0 then [] else c ∷ rest

-- `strcasecmp` without a difference.
abbrev to_lower : ℕ → ℕ
to_lower c = if not (ltb c 65) && ltb c 91 then c + 32 else c

abbrev pub same_word : List ℕ → List ℕ → Bool
same_word a b = bytes_eq (map to_lower a) (map to_lower b)

-- One name and its value: the sizes after it, and whether it is the last that is looked for.
unfoldable pub read_property : DtaResponse → ℕ → ℕ × ℕ → Outcome ((ℕ × ℕ) × Bool)
unfolding c_str
read_property r i (max_packet, max_token) = do
  name ← get_string r (i + 1)
  if same_word (codes "MaxComPacketSize") (c_str name)
      then (do size ← get_uint32 r (i + 2); done ((size, max_token), false))
      else if same_word (codes "MaxIndTokenSize") (c_str name)
      then (do size ← get_uint32 r (i + 2); done ((max_packet, size), true))
      else done ((max_packet, max_token), false)

-- The loop over the reply, which finds `tperMaxPacket` and `tperMaxToken`.
unfoldable pub scan_properties : ℕ → ℕ → DtaResponse → ℕ × ℕ → Outcome (ℕ × ℕ)
unfolding read_property
scan_properties zero i r sizes = hung
scan_properties (suc fuel) i r sizes =
    let next = scan_properties fuel in
    if ltb i (get_token_count r)
    then (do
      kind ← token_is r i
      if kind == token_code startname
          then (do
            name_kind ← token_is r (i + 1)
            if name_kind == token_code dta_tokenid_bytestring
                then (do
                  (sizes', last) ← read_property r i sizes
                  if last then done sizes' else next (i + 3) r sizes')
                else done sizes)
          else next (i + 1) r sizes)
    else done sizes
