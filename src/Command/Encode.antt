-- ===== src/Command/Encode.antt =====
-- Common/DtaCommand.cpp: what the `addToken` calls append to the buffer.
use sedutil.Prelude.{
  ℕ, zero, suc, ◌+◌, ◌*◌, ◌/◌, ◌%◌, ◌^◌, ◌<◌, ◌≡◌, refl, sym, ap, ◌∙◌, arith, List, [], ◌∷◌, ◌++◌,
  append-nil, append_assoc, length, length-append, take, take-append, poke-length, poke-middle, All,
  ltb, ◌==◌, if◌then◌else◌,
}
use sedutil.Outcome.{done}
use sedutil.Lexicon.Uid.{OpalUid, opaluid, opal_smuid_uid}
use sedutil.Lexicon.Method.{OpalMethod, opalmethod}
use sedutil.Lexicon.Token.{token_code, tiny_code, short_code, call, bytestring8}
use sedutil.Command.{
  DtaCommand, emit, emit_all, emit_number, reset, add_uint, add_cstring, add_uid, Token, opal, tiny,
  short, uid, uint, vec, cstring, add_token, add_tokens, reset_method, poke_all, store,
  change_invoking_uid,
}

-- The command whose buffer is written up to the position.
abbrev pub at : List ℕ → DtaCommand
at m = record { cmdbuf = m; bufferpos = length m }

pub emit-at : (b : ℕ) (m : List ℕ) → emit b (at m) ≡ at (m ++ b ∷ [])
unfolding emit
emit-at b m = ground (arith, poke-length m b, length-append m (b ∷ []))

pub emit_all-at : (bs m : List ℕ) → emit_all bs (at m) ≡ at (m ++ bs)
unfolding emit_all
emit_all-at [] m = ap at (sym (append-nil m))
emit_all-at (b ∷ bs) m =
    rw emit-at (emit_all-at bs (m ++ b ∷ []) ∙ ap at (append_assoc m (b ∷ []) bs))

-- The low `k` bytes of a number, highest first.
abbrev pub number_bytes : ℕ → ℕ → List ℕ
number_bytes zero number = []
number_bytes (suc k) number = number / 2 ^ (k * 8) % 256 ∷ number_bytes k number

emit_number-at :
    (k number : ℕ) (m : List ℕ) → emit_number k number (at m) ≡ at (m ++ number_bytes k number)
unfolding emit_number
emit_number-at zero number m = ap at (sym (append-nil m))
emit_number-at (suc k) number m = rw emit-at (
    emit_number-at k number (m ++ number / 2 ^ (k * 8) % 256 ∷ [])
    ∙ ap at (append_assoc m (number / 2 ^ (k * 8) % 256 ∷ []) (number_bytes k number)))

-- A tiny atom, or a short atom of 1, 2, 4 or 8 bytes.
unfoldable pub uint_bytes : ℕ → List ℕ
uint_bytes number =
    if ltb number 64
    then number ∷ []
    else if ltb number 0x100
    then 0x81 ∷ number_bytes 1 number
    else if ltb number 0x10000
    then 0x82 ∷ number_bytes 2 number
    else if ltb number 0x100000000
    then 0x84 ∷ number_bytes 4 number
    else 0x88 ∷ number_bytes 8 number

wide-at :
    (k head number : ℕ) (m : List ℕ)
    → emit_number k number (emit head (at m)) ≡ at (m ++ head ∷ number_bytes k number)
wide-at k head number m = rw emit-at (
    emit_number-at k number (m ++ head ∷ [])
    ∙ ap at (append_assoc m (head ∷ []) (number_bytes k number)))

pub add_uint-at : (number : ℕ) (m : List ℕ) → add_uint number (at m) ≡ at (m ++ uint_bytes number)
unfolding add_uint uint_bytes
add_uint-at number m = ground (
  arith,
  emit-at (number % 256 % 64) m,
  wide-at 1 0x81 number m,
  wide-at 2 0x82 number m,
  wide-at 4 0x84 number m,
  wide-at 8 0x88 number m,
)

pub add_uid-at :
    (u : OpalUid) (m : List ℕ) → add_uid u (at m) ≡ at (m ++ short_code bytestring8 ∷ opaluid u)
unfolding add_uid emit_all
add_uid-at u m = emit_all-at (short_code bytestring8 ∷ opaluid u) m

-- The heads that `addToken(const char *)` writes, for a string that fits the packet.
unfoldable pub cstring_bytes : List ℕ → List ℕ
cstring_bytes s =
    if length s == 0
    then 0xa1 ∷ 0 ∷ []
    else if ltb (length s) 16
    then (length s + 0xa0) ∷ s
    else (0xd0 + length s / 256) ∷ length s % 256 ∷ s

take-length : (s : List ℕ) → take (length s) s ≡ s
take-length s = rw append-nil at (take-append s [])

cstring_arms :
    (s m : List ℕ)
    → (emit_all s (emit (length s + 0xa0) (at m)) ≡ at (m ++ (length s + 0xa0) ∷ s))
      × (emit_all s (emit (length s % 256) (emit (0xd0 + length s / 256) (at m)))
          ≡ at (m ++ (0xd0 + length s / 256) ∷ length s % 256 ∷ s))
unfolding emit_all
cstring_arms s m = (
  emit_all-at ((length s + 0xa0) ∷ s) m,
  emit_all-at ((0xd0 + length s / 256) ∷ length s % 256 ∷ s) m,
)

pub add_cstring-at :
    (s m : List ℕ) → length s < 2048 → add_cstring s (at m) ≡ done (at (m ++ cstring_bytes s))
unfolding add_cstring cstring_bytes emit_all
add_cstring-at [] m h = ap done (emit_all-at (0xa1 ∷ 0 ∷ []) m)
add_cstring-at (x ∷ xs) m h =
    let s : List ℕ = x ∷ xs in
    let small : length s % 2 ^ 16 ≡ length s = omega arith in
    let high : length s / 2 ^ 8 % 8 ≡ length s / 2 ^ 8 = omega arith in
    rw (small, take-length s, high) (ground (arith, cstring_arms s m))

-- The bytes that one `addToken` call appends.
unfoldable pub token_bytes : Token → List ℕ
unfolding uint_bytes cstring_bytes
token_bytes (opal token) = token_code token ∷ []
token_bytes (tiny token) = tiny_code token ∷ []
token_bytes (short token) = short_code token ∷ []
token_bytes (uid token) = short_code bytestring8 ∷ opaluid token
token_bytes (uint number) = uint_bytes number
token_bytes (vec token) = token
token_bytes (cstring bytestring) = cstring_bytes bytestring

-- Every call but that with a C string of 2048 bytes or more returns.
abbrev pub Fits : Token → Type 0
Fits (cstring bytestring) = length bytestring < 2048
Fits _ = Unit {0}

abbrev pub tokens_bytes : List Token → List ℕ
tokens_bytes [] = []
tokens_bytes (t ∷ ts) = token_bytes t ++ tokens_bytes ts

pub add_token-at :
    (t : Token) (m : List ℕ) → Fits t → add_token t (at m) ≡ done (at (m ++ token_bytes t))
unfolding add_token token_bytes
add_token-at (opal token) m h = ap done (emit-at _ m)
add_token-at (tiny token) m h = ap done (emit-at _ m)
add_token-at (short token) m h = ap done (emit-at _ m)
add_token-at (uid token) m h = ap done (add_uid-at token m)
add_token-at (uint number) m h = ap done (add_uint-at number m)
add_token-at (vec token) m h = ap done (emit_all-at token m)
add_token-at (cstring bytestring) m h = add_cstring-at bytestring m h

-- A run of `addToken` calls returns, and appends the bytes of each in order, if every C string among
-- them is shorter than 2048 bytes.
pub add_tokens-at :
    (ts : List Token) (m : List ℕ)
    → All Fits ts
    → add_tokens ts (at m) ≡ done (at (m ++ tokens_bytes ts))
unfolding add_tokens
add_tokens-at [] m h = ap (λ l. done (at l)) (sym (append-nil m))
add_tokens-at (t ∷ ts) m h = rw (add_token-at t m h.0) (
    add_tokens-at ts (m ++ token_bytes t) h.1
    ∙ ap (λ l. done (at l)) (append_assoc m (token_bytes t) (tokens_bytes ts)))

-- The method call that `reset` starts: the call token, the invoking UID, the method UID.
abbrev pub method_bytes : List ℕ → OpalMethod → List ℕ
method_bytes invoking_uid method =
    token_code call ∷ invoking_uid ++ short_code bytestring8 ∷ opalmethod method

abbrev pub uid_bytes : OpalUid → List ℕ
uid_bytes u = short_code bytestring8 ∷ opaluid u

pub reset-at : reset ≡ at reset.cmdbuf
unfolding reset
reset-at = refl

pub reset_method-at :
    (u : OpalUid) (method : OpalMethod)
    → reset_method u method ≡ at (reset.cmdbuf ++ method_bytes (uid_bytes u) method)
unfolding reset_method
reset_method-at u method =
    let z = reset.cmdbuf in
    let m = z ++ token_code call ∷ [] in
    let n = m ++ uid_bytes u in
    let k = n ++ short_code bytestring8 ∷ [] in
    let regroup : k ++ opalmethod method ≡ z ++ method_bytes (uid_bytes u) method =
      simp append_assoc in
    cc (
      reset-at,
      emit-at (token_code call) z,
      add_uid-at u m,
      emit-at (short_code bytestring8) n,
      emit_all-at (opalmethod method) k,
      regroup,
    )

-- Stores over bytes that the buffer holds.
poke_all-middle :
    (a b c r : List ℕ) → length b ≡ length c → poke_all (a ++ (b ++ r)) (length a) c ≡ a ++ (c ++ r)
unfolding poke_all
poke_all-middle a [] [] r h = refl
poke_all-middle a [] (y ∷ c) r h = absurd (omega arith)
poke_all-middle a (x ∷ b) [] r h = absurd (omega arith)
poke_all-middle a (x ∷ b) (y ∷ c) r h = rw (poke-middle a (b ++ r) x y) (
    cc (
      poke_all-middle (a ++ y ∷ []) b c r (omega arith),
      append_assoc a (y ∷ []) (b ++ r),
      append_assoc a (y ∷ []) (c ++ r),
      grow,
    ))
  where
    grow : length (a ++ y ∷ []) ≡ length a + 1
    grow = length-append a (y ∷ [])

pub length-opaluid : (u : OpalUid) → length (opaluid u) ≡ 8
length-opaluid opal_smuid_uid = refl
length-opaluid _ = refl

-- After a `reset`, `changeInvokingUid` of a vector of nine bytes gives the call that a `reset` on that
-- row would have started.
pub change_invoking_uid-at :
    (invoker : List ℕ) (u : OpalUid) (method : OpalMethod)
    → length invoker ≡ 9
    → change_invoking_uid invoker (reset_method u method)
      ≡ at (reset.cmdbuf ++ method_bytes invoker method)
unfolding change_invoking_uid store reset
change_invoking_uid-at invoker u method h =
    let r = short_code bytestring8 ∷ opalmethod method in
    let same : length (uid_bytes u) ≡ length invoker = omega (arith, length-opaluid u) in
    let sizes : length (uid_bytes u ++ r) ≡ length (invoker ++ r) =
      omega (arith, length-append (uid_bytes u) r, length-append invoker r) in
    rw reset_method-at (
      cc (
        poke_all-middle (reset.cmdbuf ++ token_code call ∷ []) (uid_bytes u) invoker r same,
        sizes,
      ))
