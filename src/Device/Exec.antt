-- ===== src/Device/Exec.antt =====
-- Common/DtaDevOpal.cpp: the receive loop of `exec`, and the requests that the device sees.
use sedutil.Prelude.{
  ℕ, zero, suc, ◌+◌, ◌<◌, ◌≡◌, refl, sym, ◌∙◌, arith, Bool, true, false, List, [], ◌∷◌, not, ◌&&◌,
  ◌==◌, if◌then◌else◌, Bool-cases, inl, inr, Option, none, some, get_elem?,
}
use sedutil.Outcome.{done}
use sedutil.Endian.{word32}
use sedutil.Structures.{if_recv, if_send, identify}
use sedutil.Command.{DtaCommand, output_buffer_size}
use sedutil.Response.{DtaResponse, read32, init}
use sedutil.Device.{
  Platform, Request, Reply, DtaDev, com_id, filled, min_buffer_length, send_cmd, receive, exec,
  ◌>>=◌, pure, lift, >>=-eq-done, lift-eq-done,
}

-- A byte of memory that is zero behind the list.
abbrev pub peek : List ℕ → ℕ → ℕ
peek [] i = 0
peek (b ∷ l) zero = b
peek (b ∷ l) (suc i) = peek l i

abbrev pub word_at : List ℕ → ℕ → ℕ
word_at l o = word32 (peek l o) (peek l (o + 1)) (peek l (o + 2)) (peek l (o + 3))

get_elem?-filled : (n : ℕ) (l : List ℕ) (i : ℕ) → i < n → get_elem? (filled n l) i ≡ some (peek l i)
unfolding filled
get_elem?-filled zero l i h = elim h [ ]
get_elem?-filled (suc n) [] zero h = refl
get_elem?-filled (suc n) [] (suc i) h = get_elem?-filled n [] i (omega arith)
get_elem?-filled (suc n) (b ∷ l) zero h = refl
get_elem?-filled (suc n) (b ∷ l) (suc i) h = get_elem?-filled n l i (omega arith)

pub read32-filled :
    (n : ℕ) (l : List ℕ) (o : ℕ) → o + 3 < n → read32 (filled n l) o ≡ done (word_at l o)
unfolding read32
read32-filled n l o h = simp (
  get_elem?-filled n l o (omega arith),
  get_elem?-filled n l (o + 1) (omega arith),
  get_elem?-filled n l (o + 2) (omega arith),
  get_elem?-filled n l (o + 3) (omega arith),
)

-- The drive holds the answer back: outstanding data, and nothing to transfer yet.
abbrev pub is_waiting : List ℕ → Bool
is_waiting l = not (word_at l 8 == 0) && (word_at l 12 == 0)

abbrev pub recv_request : ℕ → DtaDev → Request
recv_request protocol d = record {
  command = if_recv;
  protocol = protocol;
  com_id = com_id d;
  buffer = [];
  size = min_buffer_length;
}

abbrev pub asked : Request → DtaDev → DtaDev
asked req d = record d { requests = req ∷ d.requests }

-- The device after `k` receives.
abbrev pub polled : ℕ → ℕ → DtaDev → DtaDev
polled protocol zero d = d
polled protocol (suc k) d = polled protocol k (asked (recv_request protocol d) d)

module _ (p : Platform) (protocol : ℕ) where
  -- What the drive answers to the receive after `k` others.
  abbrev pub answer : ℕ → DtaDev → Reply
  answer k d = let d' = polled protocol k d in p.send_cmd d'.requests (recv_request protocol d')

  receive_step :
      (n : ℕ) (d : DtaDev)
      → receive p (suc n) protocol d ≡ (
          let reply = answer 0 d in
          let d' = asked (recv_request protocol d) d in
          if is_waiting reply.buffer
          then receive p n protocol d'
          else done ((reply.rc, filled min_buffer_length reply.buffer), d'))
  unfolding receive send_cmd
  receive_step n d =
      let l = (answer 0 d).buffer in
      rw
        (
          read32-filled min_buffer_length l 8 (omega arith),
          read32-filled min_buffer_length l 12 (omega arith),
        )
        (elim (Bool-cases (is_waiting l)) [ inl e ↦ rw e | inr e ↦ rw e ])

  -- The receive loop returns, with the first answer that the drive does not hold back, if that comes
  -- within the bound on the rounds; it has received once more than answers were held back.
  pub receive-first_ready :
      (k n : ℕ) (d : DtaDev)
      → k < n
      → ((j : ℕ) → j < k → is_waiting (answer j d).buffer ≡ true)
      → is_waiting (answer k d).buffer ≡ false
      → receive p n protocol d
        ≡ done (
          ((answer k d).rc, filled min_buffer_length (answer k d).buffer),
          polled protocol (suc k) d,
        )
  receive-first_ready k zero d h early ready = elim h [ ]
  receive-first_ready zero (suc n) d h early ready = receive_step n d ∙ rw ready
  receive-first_ready (suc k) (suc n) d h early ready =
      receive_step n d
      ∙ rw (early 0 (omega arith)) (
          receive-first_ready k n (asked (recv_request protocol d) d) (omega arith)
            (λ j lt. early (suc j) (omega arith)) ready)

  -- Whatever it returns, it has done nothing but receive.
  receive_polls :
      (n : ℕ) (d : DtaDev) {r : ℕ × List ℕ} {d' : DtaDev}
      → receive p n protocol d ≡ done (r, d')
      → (k : ℕ) × (d' ≡ polled protocol k d)
  receive_polls zero d h = unfold receive in cc h
  receive_polls (suc n) d h = elim (Bool-cases (is_waiting (answer 0 d).buffer)) [
    | inl e ↦
        let (k, q) =
          receive_polls n (asked (recv_request protocol d) d) (rw (receive_step, e) at h) in
        (suc k, q)
    | inr e ↦ let h' = rw (receive_step, e) at h in (1, cc h')
  ]

abbrev pub send_request : ℕ → DtaCommand → DtaDev → Request
send_request protocol cmd d = record {
  command = if_send;
  protocol = protocol;
  com_id = com_id d;
  buffer = cmd.cmdbuf;
  size = output_buffer_size cmd;
}

module _ (p : Platform) (cmd : DtaCommand) (resp : DtaResponse) (protocol : ℕ) (d : DtaDev) where
  abbrev sent : Reply
  sent = p.send_cmd d.requests (send_request protocol cmd d)

  abbrev pub after_send : DtaDev
  after_send = asked (send_request protocol cmd d) d

  read_reply :
      (r : ℕ × List ℕ) (d1 : DtaDev) {x : ℕ × DtaResponse} {d' : DtaDev}
      → (if r.0 == 0 then (lift (init r.1) >>= λ resp'. pure (0, resp')) else pure (r.0, resp)) d1
        ≡ done (x, d')
      → d1 ≡ d'
  read_reply r d1 {x} {d'} h = elim (Bool-cases (r.0 == 0)) [
    | inr e ↦ cc (rw e at h)
    | inl e ↦
        let (a, d2, i, j) = >>=-eq-done (lift (init r.1)) _ d1 (rw e at h) in
        (lift-eq-done (init r.1) d1 i).1 ∙ cc j
  ]

  -- `exec` changes nothing of the device but its requests: it sends the command, and then it only
  -- receives.
  pub exec_polls :
      {x : ℕ × DtaResponse} {d' : DtaDev}
      → exec p cmd resp protocol d ≡ done (x, d')
      → (k : ℕ) × (d' ≡ polled protocol k after_send)
  unfolding exec send_cmd
  exec_polls {x} {d'} h = elim (Bool-cases (sent.rc == 0)) [
    | inr e ↦ (0, cc (rw e at h))
    | inl e ↦
        let (r, d1, received, rest) =
          >>=-eq-done (receive p p.polls protocol) _ after_send (rw e at h) in
        let (k, q) = receive_polls p protocol p.polls after_send received in
        (k, sym (read_reply r d1 rest) ∙ q)
  ]

-- The latest command that went to the drive.
abbrev pub last_sent : List Request → Option Request
last_sent [] = none
last_sent (req ∷ l) = elim req.command [
  | if_send ↦ some req
  | if_recv ↦ last_sent l
  | identify ↦ last_sent l
]

pub last_sent-polled :
    (protocol k : ℕ) (d : DtaDev) → last_sent (polled protocol k d).requests ≡ last_sent d.requests
last_sent-polled protocol zero d = refl
last_sent-polled protocol (suc k) d =
    last_sent-polled protocol k (asked (recv_request protocol d) d)

-- What a call leaves alone, besides its requests.
abbrev pub Untouched : DtaDev → DtaDev → Type 0
Untouched d d' = d' ≡ record d { requests = d'.requests }

pub Untouched-polled : (protocol k : ℕ) (d : DtaDev) → Untouched d (polled protocol k d)
Untouched-polled protocol zero d = refl
Untouched-polled protocol (suc k) d =
    Untouched-polled protocol k (asked (recv_request protocol d) d)

-- One command and then receives.
pub polled_sent :
    (protocol k : ℕ) (cmd : DtaCommand) (d d' : DtaDev)
    → d' ≡ polled protocol k (asked (send_request protocol cmd d) d)
    → (last_sent d'.requests ≡ some (send_request protocol cmd d)) × Untouched d d'
polled_sent protocol k cmd d d' q = rw q (
  last_sent-polled protocol k (asked (send_request protocol cmd d) d),
  Untouched-polled protocol k (asked (send_request protocol cmd d) d),
)
