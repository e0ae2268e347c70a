-- ===== src/Response/Values.antt =====
-- Common/DtaCommand.cpp against Common/DtaResponse.cpp: the tokens of `addToken` and the accessors.
use sedutil.Prelude.{
  ℕ, ◌^◌, ◌<◌, ◌≤◌, ◌≡◌, sym, ap, ◌∙◌, arith, List, [], ◌∷◌, ◌++◌, length, get_elem?, some, ◌⊎◌,
  inl, inr,
}
use mathlib.Core.List.{reverse, append_cancel_left}
use sedutil.Outcome.{done}
use sedutil.Lexicon.Uid.{OpalUid}
use sedutil.Command.{DtaCommand, add_uint, add_cstring}
use sedutil.Command.Encode.{
  at, uint_bytes, cstring_bytes, uid_bytes, number_bytes, length-opaluid, add_uint-at,
  add_cstring-at,
}
use sedutil.Response.{DtaResponse, token_length, collect, get_uint64, get_string}
use sedutil.Response.Tokens.{Framed}

pub byte-Framed : (b : ℕ) → (b < 128) ⊎ ((240 ≤ b) × (b < 256)) → Framed (b ∷ [])
unfolding token_length
byte-Framed b h = (omega arith, λ rest. ground arith)

pub uid-Framed : (u : OpalUid) → Framed (uid_bytes u)
unfolding token_length
uid-Framed u = (omega arith, λ rest. rw length-opaluid)

pub uint-Framed : (n : ℕ) → Framed (uint_bytes n)
unfolding token_length uint_bytes
uint-Framed n = (ground arith, λ rest. ground arith)

pub cstring-Framed : (s : List ℕ) → length s < 2048 → Framed (cstring_bytes s)
unfolding token_length cstring_bytes
cstring-Framed s h = (ground arith, λ rest. ground arith)

collect_1 : (n : ℕ) → n < 0x100 → collect (reverse (number_bytes 1 n)) 1 0 ≡ n
unfolding collect
collect_1 n h = omega arith

collect_2 : (n : ℕ) → n < 0x10000 → collect (reverse (number_bytes 2 n)) 1 0 ≡ n
unfolding collect
collect_2 n h = omega arith

collect_4 : (n : ℕ) → n < 0x100000000 → collect (reverse (number_bytes 4 n)) 1 0 ≡ n
unfolding collect
collect_4 n h = omega arith

collect_8 : (n : ℕ) → n < 2 ^ 64 → collect (reverse (number_bytes 8 n)) 1 0 ≡ n
unfolding collect
collect_8 n h = omega arith

pub get_uint64-uint_bytes :
    (r : DtaResponse) (i n : ℕ)
    → n < 2 ^ 64
    → get_elem? r.response i ≡ some (uint_bytes n)
    → get_uint64 r i ≡ done n
unfolding get_uint64 uint_bytes
get_uint64-uint_bytes r i n h e =
    rw e (ground (arith, collect_1 n, collect_2 n, collect_4 n, collect_8 n))

-- The same for an atom of four bytes, however small the integer is.
get_uint64-wide :
    (r : DtaResponse) (i n : ℕ)
    → n < 0x100000000
    → get_elem? r.response i ≡ some (0x84 ∷ number_bytes 4 n)
    → get_uint64 r i ≡ done n
unfolding get_uint64
get_uint64-wide r i n h e = rw e (ground (arith, collect_4 n))

-- A token of a reply that holds an integer of 32 bits, in the least width or in four bytes.
abbrev pub HoldsUint : DtaResponse → ℕ → ℕ → Type 0
HoldsUint r i n =
    (n < 2 ^ 32)
    × ((get_elem? r.response i ≡ some (uint_bytes n))
        ⊎ (get_elem? r.response i ≡ some (0x84 ∷ number_bytes 4 n)))

pub get_uint64-HoldsUint : (r : DtaResponse) (i n : ℕ) → HoldsUint r i n → get_uint64 r i ≡ done n
get_uint64-HoldsUint r i n (h, inl e) = get_uint64-uint_bytes r i n (omega arith) e
get_uint64-HoldsUint r i n (h, inr e) = get_uint64-wide r i n (omega arith) e

get_string-cstring_bytes :
    (r : DtaResponse) (i : ℕ) (s : List ℕ)
    → 0 < length s
    → length s < 2048
    → get_elem? r.response i ≡ some (cstring_bytes s)
    → get_string r i ≡ done s
unfolding get_string cstring_bytes
get_string-cstring_bytes r i s pos h e = rw e (ground arith)

-- The bytes that a call put behind a buffer are determined by the buffer that it left.
written : (m a b : List ℕ) → at (m ++ a) ≡ at (m ++ b) → a ≡ b
written m a b e = append_cancel_left m a b (ap (λ (c : DtaCommand). c.cmdbuf) e)

-- Whatever bytes `addToken` puts behind a buffer for an unsigned integer below 2 ^ 64, `getUint64`
-- reads the integer back of them, as any token of a reply.
pub get_uint64-add_uint :
    (r : DtaResponse) (i n : ℕ) (m bytes : List ℕ)
    → n < 2 ^ 64
    → add_uint n (at m) ≡ at (m ++ bytes)
    → get_elem? r.response i ≡ some bytes
    → get_uint64 r i ≡ done n
get_uint64-add_uint r i n m bytes h wrote e =
    let same : uint_bytes n ≡ bytes = written m _ _ (sym (add_uint-at n m) ∙ wrote) in
    get_uint64-uint_bytes r i n h (e ∙ ap (λ b. some b) (sym same))

-- Whatever bytes `addToken` puts behind a buffer for a string of 1 to 2047 bytes, `getString` reads
-- the string back of them, as any token of a reply.
pub get_string-add_cstring :
    (r : DtaResponse) (i : ℕ) (s m bytes : List ℕ)
    → 0 < length s
    → length s < 2048
    → add_cstring s (at m) ≡ done (at (m ++ bytes))
    → get_elem? r.response i ≡ some bytes
    → get_string r i ≡ done s
get_string-add_cstring r i s m bytes pos h wrote e =
    let both : done (at (m ++ cstring_bytes s)) ≡ done (at (m ++ bytes)) =
      sym (add_cstring-at s m h) ∙ wrote in
    let same : cstring_bytes s ≡ bytes = written m _ _ (cc both) in
    get_string-cstring_bytes r i s pos h (e ∙ ap (λ b. some b) (sym same))
