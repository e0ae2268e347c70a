-- ===== src/Response/Tokens.antt =====
-- Common/DtaResponse.cpp: the loop of `init`, on tokens and on any buffer.
use sedutil.Prelude.{
  ℕ, zero, suc, ◌+◌, ◌<◌, ◌≤◌, ◌≡◌, ◌≢◌, refl, ap, arith, true, List, [], ◌∷◌, ◌++◌, append_assoc,
  length, length-append, All, ltb, Bool-cases, inl, inr, Option, none, some, get_elem?, drop,
}
use sedutil.Outcome.{done, hung, >>=-eq-done, or_fault, bind-ne-hung}
use sedutil.Endian.{swap32}
use sedutil.Command.{header_size}
use sedutil.Response.{token_length, take_bytes, read_tokens, push, init, read_header, read32}

abbrev pub concat : List (List ℕ) → List ℕ
concat [] = []
concat (t ∷ ts) = t ++ concat ts

-- What `init` keeps of the tokens of the data: all but the empty atoms.
abbrev pub kept : List (List ℕ) → List (List ℕ)
kept [] = []
kept (t ∷ ts) = push t (kept ts)

-- A token whose head announces its own length.
abbrev pub Framed : List ℕ → Type 0
Framed t = (1 ≤ length t) × ((rest : List ℕ) → token_length (t ++ rest) ≡ done (length t))

take_bytes-append : (t rest : List ℕ) → take_bytes (length t) (t ++ rest) ≡ done (t, rest)
unfolding take_bytes
take_bytes-append [] rest = refl
take_bytes-append (b ∷ t) rest = rw (take_bytes-append t rest)

read_tokens_step :
    (fuel len cpos n : ℕ) (t reply rest : List ℕ) {response : List (List ℕ)}
    → cpos < len
    → token_length reply ≡ done n
    → take_bytes n reply ≡ done (t, rest)
    → read_tokens fuel len (cpos + n) rest ≡ done response
    → read_tokens (suc fuel) len cpos reply ≡ done (push t response)
unfolding read_tokens
read_tokens_step fuel len cpos n t reply rest lt h k e =
    let test : ltb cpos len ≡ true = ground arith in rw (test, h, k, e)

read_tokens_end : (fuel len : ℕ) (reply : List ℕ) → read_tokens fuel len len reply ≡ done []
unfolding read_tokens
read_tokens_end zero len reply = ground arith
read_tokens_end (suc fuel) len reply = ground arith

-- Data that is a sequence of tokens, each of the length that its head announces, is split into
-- these, whatever stands behind it, with a round for each byte; empty atoms are dropped.
pub read_tokens-concat :
    (ts : List (List ℕ)) (rest : List ℕ) (fuel len cpos : ℕ)
    → All Framed ts
    → len ≡ cpos + length (concat ts)
    → length (concat ts) ≤ fuel
    → read_tokens fuel len cpos (concat ts ++ rest) ≡ done (kept ts)
read_tokens-concat [] rest fuel len cpos h e f =
    let same : len ≡ cpos = omega arith in rw same (read_tokens_end fuel cpos rest)
read_tokens-concat (t ∷ ts) rest zero len cpos h e f =
    absurd (omega (arith, length-append t (concat ts), h.0.0))
read_tokens-concat (t ∷ ts) rest (suc fuel) len cpos h e f =
    let size = length-append t (concat ts) in
    rw (append_assoc t (concat ts) rest) (
      read_tokens_step fuel len cpos (length t) t (t ++ (concat ts ++ rest)) (concat ts ++ rest)
        (omega (arith, size, h.0.0)) (h.0.1 (concat ts ++ rest))
        (take_bytes-append t (concat ts ++ rest))
        (read_tokens-concat ts rest fuel len (cpos + length t) h.1 (omega (arith, size))
          (omega (arith, size, h.0.0))))

token_length_pos : (reply : List ℕ) (n : ℕ) → token_length reply ≡ done n → 1 ≤ n
unfolding token_length
token_length_pos [] n h = cc
token_length_pos (b ∷ reply) n h = ground arith

token_length-ne-hung : (reply : List ℕ) → token_length reply ≢ hung
unfolding token_length
token_length-ne-hung [] = λ e. cc
token_length-ne-hung (b ∷ reply) = ground arith

take_bytes_rest :
    (n : ℕ) (reply t rest : List ℕ)
    → take_bytes n reply ≡ done (t, rest)
    → length rest + n ≡ length reply
unfolding take_bytes
take_bytes_rest zero reply t rest h = ground arith
take_bytes_rest (suc n) [] t rest h = cc
take_bytes_rest (suc n) (b ∷ reply) t rest h =
    let (p, e, e') =
      >>=-eq-done (take_bytes n reply) (λ (p : List ℕ × List ℕ). done (b ∷ p.0, p.1)) h in
    let same : p.1 ≡ rest = cc e' in
    omega (arith, take_bytes_rest n reply p.0 p.1 e, ap length same)

take_bytes-ne-hung : (n : ℕ) (reply : List ℕ) → take_bytes n reply ≢ hung
unfolding take_bytes
take_bytes-ne-hung zero reply = λ e. cc
take_bytes-ne-hung (suc n) [] = λ e. cc
take_bytes-ne-hung (suc n) (b ∷ reply) =
    bind-ne-hung (take_bytes n reply) _ (take_bytes-ne-hung n reply) (λ p e. λ e'. cc)

read_tokens-ne-hung :
    (fuel len cpos : ℕ) (reply : List ℕ)
    → length reply < fuel
    → read_tokens fuel len cpos reply ≢ hung
unfolding read_tokens
read_tokens-ne-hung zero len cpos reply h = absurd (omega arith)
read_tokens-ne-hung (suc fuel) len cpos reply h = elim (Bool-cases (ltb cpos len)) [
  | inr over ↦ rw over (λ e. cc)
  | inl more ↦ rw more (
      bind-ne-hung (token_length reply) _ (token_length-ne-hung reply) λ n en.
        bind-ne-hung (take_bytes n reply) _ (take_bytes-ne-hung n reply) λ p ep.
          bind-ne-hung (read_tokens fuel len (cpos + n) p.1) _
            (read_tokens-ne-hung fuel len (cpos + n) p.1
              (omega (arith, take_bytes_rest n reply p.0 p.1 ep, token_length_pos reply n en)))
            (λ r er. λ e. cc))
]

pub or_fault-ne-hung {ℓ} : {A : Type ℓ} (o : Option A) → or_fault o ≢ hung
or_fault-ne-hung none = λ e. cc
or_fault-ne-hung (some a) = λ e. cc

read32-ne-hung : (buffer : List ℕ) (o : ℕ) → read32 buffer o ≢ hung
unfolding read32
read32-ne-hung buffer o =
    bind-ne-hung (or_fault (get_elem? buffer o)) _ (or_fault-ne-hung _) λ a ea.
      bind-ne-hung (or_fault (get_elem? buffer (o + 1))) _ (or_fault-ne-hung _) λ b eb.
        bind-ne-hung (or_fault (get_elem? buffer (o + 2))) _ (or_fault-ne-hung _) λ c ec.
          bind-ne-hung (or_fault (get_elem? buffer (o + 3))) _ (or_fault-ne-hung _)
            (λ d ed. λ e. cc)

read_header-ne-hung : (buffer : List ℕ) → read_header buffer ≢ hung
unfolding read_header
read_header-ne-hung buffer = bind-ne-hung (read32 buffer 8) _ (read32-ne-hung buffer 8) λ a ea.
    bind-ne-hung (read32 buffer 12) _ (read32-ne-hung buffer 12) λ b eb.
      bind-ne-hung (read32 buffer 16) _ (read32-ne-hung buffer 16) λ c ec.
        bind-ne-hung (read32 buffer 40) _ (read32-ne-hung buffer 40)
          λ d ed. bind-ne-hung (read32 buffer 52) _ (read32-ne-hung buffer 52) (λ f ef. λ e. cc)

length-drop : (n : ℕ) (l : List ℕ) → length (drop n l) ≤ length l
length-drop zero l = omega arith
length-drop (suc n) [] = omega arith
length-drop (suc n) (x ∷ l) = omega (arith, length-drop n l)

-- The loop of `init` ends on every buffer, whatever length the reply claims and however its tokens
-- are cut: each round takes a byte at least.
pub init-ne-hung : (buffer : List ℕ) → init buffer ≢ hung
unfolding init read_header read32
init-ne-hung [] = λ e. cc
init-ne-hung (x ∷ l) = bind-ne-hung (read_header (x ∷ l)) _ (read_header-ne-hung (x ∷ l)) λ h eh.
    bind-ne-hung
      (read_tokens (length (x ∷ l)) (swap32 h.subpkt_length) 0 (drop header_size (x ∷ l))) _
      (read_tokens-ne-hung (length (x ∷ l)) (swap32 h.subpkt_length) 0 (drop header_size (x ∷ l))
        (omega (arith, length-drop 55 l)))
      (λ r er. λ e. cc)
