-- ===== src/Command/Layout.antt =====
-- Common/DtaCommand.cpp: the buffer that `complete` leaves: the header of 56 bytes, the call, the padding.
use sedutil.Prelude.{
  ℕ, zero, suc, ◌+◌, ◌-◌, ◌/◌, ◌%◌, ◌^◌, ◌<◌, ◌≤◌, ◌≡◌, ◌≢◌, refl, ap, ◌∙◌, arith, Bool, true,
  false, List, [], ◌∷◌, ◌++◌, append-nil, append_assoc, length, length-append, replicate,
  length-replicate, ltb, ◌==◌, if◌then◌else◌, Bool-cases, inl, inr,
}
use sedutil.Outcome.{Outcome, done}
use sedutil.Endian.{bytes32}
use sedutil.Endian.Laws.{bytes32-swap32}
use sedutil.Command.{
  DtaCommand, reset, store, poke_all, pad, add_eod, set_subpkt_length, set_lengths, finish, overrun,
  array_room, complete, complete_special, special_bytes, set_com_id, set_tsn, set_hsn,
  max_buffer_length, output_buffer_size,
}
use sedutil.Command.Encode.{at, emit-at, emit_all-at}

-- A number in four bytes: highest first as the protocol has it, lowest first in front of a list.
abbrev pub big : ℕ → List ℕ → List ℕ
big n l = n / 2 ^ 24 % 256 ∷ n / 2 ^ 16 % 256 ∷ n / 2 ^ 8 % 256 ∷ n % 256 ∷ l

abbrev pub little : ℕ → List ℕ → List ℕ
little n l = n % 256 ∷ n / 2 ^ 8 % 256 ∷ n / 2 ^ 16 % 256 ∷ n / 2 ^ 24 % 256 ∷ l

abbrev pub zeros : ℕ → List ℕ → List ℕ
zeros n l = replicate n 0 ++ l

-- `OPALHeader` in memory, with what follows it.
abbrev pub header : (cid tsn hsn cp pkt subpkt : ℕ) → List ℕ → List ℕ
header cid tsn hsn cp pkt subpkt l = zeros 4 (
    cid / 2 ^ 8 % 256
    ∷ cid % 256
    ∷ zeros 10 (big cp (little tsn (little hsn (zeros 12 (big pkt (zeros 8 (big subpkt l))))))))

module _ (cid tsn hsn cp pkt subpkt : ℕ) (p : List ℕ) where
  set_subpkt_length-at :
      set_subpkt_length (at (header cid tsn hsn cp pkt subpkt p))
      ≡ at (header cid tsn hsn cp pkt (length p) p)
  unfolding set_subpkt_length store poke_all
  set_subpkt_length-at =
      let len : length (header cid tsn hsn cp pkt subpkt p) - 56 ≡ length p = omega arith in
      rw (len, bytes32-swap32)

  set_lengths-at :
      set_lengths (at (header cid tsn hsn cp pkt subpkt p))
      ≡ at (header cid tsn hsn (length p + 36) (length p + 12) subpkt p)
  unfolding set_lengths store poke_all
  set_lengths-at =
      let c : length (header cid tsn hsn cp pkt subpkt p) - 20 ≡ length p + 36 = omega arith in
      let k : length (header cid tsn hsn cp pkt subpkt p) - 20 - 24 ≡ length p + 12 = omega arith in
      rw (k, c, bytes32-swap32, bytes32-swap32)

  -- What `sendCommand` writes into the header.
  pub set_com_id-at :
      (v : ℕ)
      → set_com_id v (at (header cid tsn hsn cp pkt subpkt p))
        ≡ at (header v tsn hsn cp pkt subpkt p)
  unfolding set_com_id store poke_all
  set_com_id-at v = refl

  pub set_tsn-at :
      (v : ℕ)
      → set_tsn v (at (header cid tsn hsn cp pkt subpkt p)) ≡ at (header cid v hsn cp pkt subpkt p)
  unfolding set_tsn store poke_all bytes32
  set_tsn-at v = refl

  pub set_hsn-at :
      (v : ℕ)
      → set_hsn v (at (header cid tsn hsn cp pkt subpkt p)) ≡ at (header cid tsn v cp pkt subpkt p)
  unfolding set_hsn store poke_all bytes32
  set_hsn-at v = refl

-- The zeros that bring `n` bytes to a multiple of four.
abbrev pub padding : ℕ → List ℕ
padding n = replicate ((4 - n % 4) % 4) 0

pad_rounds :
    (rounds k : ℕ) (m : List ℕ)
    → (length m + k) % 4 ≡ 0
    → k < 4
    → k ≤ rounds
    → pad rounds (at m) ≡ at (m ++ replicate k 0)
unfolding pad
pad_rounds zero zero m h lt le = rw append-nil
pad_rounds zero (suc k) m h lt le = absurd (omega arith)
pad_rounds (suc rounds) zero m h lt le = ground (arith, append-nil m)
pad_rounds (suc rounds) (suc k) m h lt le =
    let more : (length m % 4 == 0) ≡ false = ground arith in
    let grown : length (m ++ 0 ∷ []) ≡ length m + 1 = length-append m (0 ∷ []) in
    rw (more, emit-at)
      (pad_rounds rounds k (m ++ 0 ∷ []) (rw grown (omega arith)) (omega arith) (omega arith)
        ∙ ap at (append_assoc m (0 ∷ []) (replicate k 0)))

pub pad-at : (m : List ℕ) → pad 3 (at m) ≡ at (m ++ padding (length m))
pad-at m = pad_rounds 3 ((4 - length m % 4) % 4) m (omega arith) (omega arith) (omega arith)

-- The payload with its padding.
abbrev pub padded : List ℕ → List ℕ
padded p = p ++ padding (length p)

-- The finished buffer: the three lengths count from behind their own packet header on, and only
-- that of the subpacket leaves the padding out.
abbrev pub finished : ℕ → ℕ → ℕ → List ℕ → List ℕ
finished cid tsn hsn p =
    header cid tsn hsn (length (padded p) + 36) (length (padded p) + 12) (length p) (padded p)

module _ (cid tsn hsn cp pkt subpkt : ℕ) (p : List ℕ) where
  finish_lengths :
      set_lengths (pad 3 (set_subpkt_length (at (header cid tsn hsn cp pkt subpkt p))))
      ≡ at (finished cid tsn hsn p)
  finish_lengths =
      let body : List ℕ = header cid tsn hsn cp pkt (length p) p in
      let same : (4 - length body % 4) % 4 ≡ (4 - length p % 4) % 4 = omega arith in
      rw (set_subpkt_length-at, pad-at, same)
        (set_lengths-at cid tsn hsn cp pkt (length p) (padded p))

  pub finish-at : finish (at (header cid tsn hsn cp pkt subpkt p)) ≡ (
      if ltb max_buffer_length (length (padded p) + 56)
      then overrun (length (padded p) + 56)
      else done (at (finished cid tsn hsn p)))
  unfolding finish
  finish-at =
      let pos : length (finished cid tsn hsn p) ≡ length (padded p) + 56 = omega arith in
      rw (finish_lengths, pos)

-- The end of data token and the method status list that `complete` writes.
abbrev pub eod_bytes : Bool → List ℕ
eod_bytes true = 0xf9 ∷ 0xf0 ∷ 0 ∷ 0 ∷ 0 ∷ 0xf1 ∷ []
eod_bytes false = []

add_eod-at : (eod : Bool) (m : List ℕ) → add_eod eod (at m) ≡ at (m ++ eod_bytes eod)
unfolding add_eod
add_eod-at true m = emit_all-at (eod_bytes true) m
add_eod-at false m = rw append-nil

-- What the buffer is for a payload, unless it is too long.
abbrev pub buffered : List ℕ → Outcome DtaCommand
buffered p =
    if ltb max_buffer_length (length (padded p) + 56)
    then overrun (length (padded p) + 56)
    else done (at (finished 0 0 0 p))

overrun-ne-done : (n : ℕ) (c : DtaCommand) → overrun n ≢ done c
overrun-ne-done n c h = elim (Bool-cases (ltb array_room n)) [
  | inl e ↦ cc (rw e at h)
  | inr e ↦ cc (rw e at h)
]

pub buffered-eq-done :
    (p : List ℕ) (c : DtaCommand)
    → buffered p ≡ done c
    → (length (padded p) + 56 ≤ max_buffer_length) × (c ≡ at (finished 0 0 0 p))
buffered-eq-done p c h = elim (Bool-cases (ltb max_buffer_length (length (padded p) + 56))) [
  | inl over ↦ absurd (overrun-ne-done (length (padded p) + 56) c (rw over at h))
  | inr fits ↦ let e : done (at (finished 0 0 0 p)) ≡ done c = rw fits at h in (ground arith, cc)
]

module _ (p : List ℕ) where
  abbrev started : DtaCommand
  started = at (reset.cmdbuf ++ p)

  pub complete-at : (eod : Bool) → complete eod started ≡ buffered (p ++ eod_bytes eod)
  unfolding complete reset
  complete-at eod = rw add_eod-at (finish-at 0 0 0 0 0 0 (p ++ eod_bytes eod))

  pub complete_special-at :
      (eod : Bool) → complete_special eod started ≡ buffered (p ++ (eod_bytes eod ++ special_bytes))
  unfolding complete_special reset
  complete_special-at eod =
      rw (add_eod-at, emit_all-at, append_assoc p (eod_bytes eod) special_bytes)
        (finish-at 0 0 0 0 0 0 (p ++ (eod_bytes eod ++ special_bytes)))

pub length-padded : (p : List ℕ) → length (padded p) ≡ length p + (4 - length p % 4) % 4
length-padded p =
    length-append p (padding (length p)) ∙ ap (λ n. length p + n) (length-replicate _ 0)

-- For a position that `complete` accepts, the size that is sent to the device is a multiple of
-- 512, covers the buffer, adds less than a block, and passes neither the buffer nor 16 bits.
pub output_buffer_size_lem :
    (c : DtaCommand)
    → c.bufferpos ≤ max_buffer_length
    → (output_buffer_size c % 512 ≡ 0)
      × (c.bufferpos ≤ output_buffer_size c)
      × (output_buffer_size c < c.bufferpos + 512)
      × (output_buffer_size c ≤ max_buffer_length)
unfolding output_buffer_size
output_buffer_size_lem c h = ground arith
