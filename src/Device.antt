-- ===== src/Device.antt =====
-- A device as the sessions see it, and `exec` of Common/DtaDevOpal.cpp.
-- What the operating system and the vendored cryptography do is a parameter, `Platform`. A drive may
-- answer as it likes, so an answer is a function of all earlier requests and the present one; the
-- device keeps these requests. Memory is the list of its bytes from its start, with zeros behind.
pub mod Exec
mod Tests
use sedutil.Prelude.{
  ℕ, zero, suc, ◌≡◌, refl, Bool, List, [], ◌∷◌, length, not, ◌&&◌, ◌==◌, if◌then◌else◌,
}
use sedutil.Outcome.{Outcome, done, exit, fault, hung}
use sedutil.Structures.{AtaCommand, if_recv, if_send, OpalDiskInfo}
use sedutil.Command.{DtaCommand, output_buffer_size}
use sedutil.Response.{DtaResponse, OpalHeader, read32, init}

abbrev pub min_buffer_length : ℕ
min_buffer_length = 2048

-- The arguments of a `sendCmd`. An IF_RECV passes a cleared buffer.
pub record Request : Type 0 where
  pub command : AtaCommand
  pub protocol : ℕ
  pub com_id : ℕ
  pub buffer : List ℕ
  pub size : ℕ

-- Its return code, and for an IF_RECV the bytes that it leaves in the buffer.
pub record Reply : Type 0 where
  pub rc : ℕ
  pub buffer : List ℕ

pub record Platform : Type 0 where
  -- `sendCmd`, given the earlier requests, latest first
  pub send_cmd : List Request → Request → Reply
  -- `cf_pbkdf2_hmac` with SHA1: password, salt, iterations, size of the result
  pub pbkdf2 : List ℕ → List ℕ → ℕ → ℕ → List ℕ
  -- it fills the result
  pub length-pbkdf2 :
      (password salt : List ℕ) (iter size : ℕ) → length (pbkdf2 password salt iter size) ≡ size
  -- the most rounds of the receive loop that are followed
  pub polls : ℕ

-- The subclasses, which differ in `comID`.
pub data DeviceClass : Type 0 where
  opal1 opal2 enterprise : DeviceClass

pub record DtaDev : Type 0 where
  pub class : DeviceClass
  pub disk_info : OpalDiskInfo
  pub no_hash_passwords : Bool
  pub response : DtaResponse
  pub properties_response : DtaResponse
  pub tper_max_packet : ℕ
  pub tper_max_token : ℕ
  -- all `sendCmd` calls, latest first
  pub requests : List Request

unfoldable pub com_id_of : DeviceClass → OpalDiskInfo → ℕ
com_id_of opal1 info = info.opal10_info.base_com_id
com_id_of opal2 info = info.opal20_info.base_com_id
com_id_of enterprise info = info.enterprise_info.base_com_id

-- `comID()`
unfoldable pub com_id : DtaDev → ℕ
com_id d = com_id_of d.class d.disk_info

-- `isEprise()`, as a condition
unfoldable pub is_eprise : DtaDev → Bool
is_eprise d = not (d.disk_info.enterprise == 0)

-- A call on a device.
abbrev pub M {ℓ} : Type ℓ → Type ℓ
M A = DtaDev → Outcome (A × DtaDev)

abbrev pub pure {ℓ} : {A : Type ℓ} → A → M A
pure a d = done (a, d)

infixl 5 ◌>>=◌ ◌>>◌
abbrev pub ◌>>=◌ {ℓ κ} : {A : Type ℓ} {B : Type κ} → M A → (A → M B) → M B
◌>>=◌ m f d = elim (m d) [ done (a, d') ↦ f a d' | exit ↦ exit | fault ↦ fault | hung ↦ hung ]

abbrev pub ◌>>◌ {ℓ κ} : {A : Type ℓ} {B : Type κ} → M A → M B → M B
m >> k = m >>= λ _. k

abbrev pub lift {ℓ} : {A : Type ℓ} → Outcome A → M A
lift o d = elim o [ done a ↦ done (a, d) | exit ↦ exit | fault ↦ fault | hung ↦ hung ]

abbrev pub gets {ℓ} : {A : Type ℓ} → (DtaDev → A) → M A
gets f d = done (f d, d)

abbrev pub modify : (DtaDev → DtaDev) → M (Unit {0})
modify f d = done (tt, f d)

-- Inversion of a call that returned.
pub >>=-eq-done {ℓ κ} :
    {A : Type ℓ} {B : Type κ} (m : M A) (f : A → M B) (d : DtaDev) {y : B × DtaDev}
    → (m >>= f) d ≡ done y
    → (a : A) × (d' : DtaDev) × (m d ≡ done (a, d')) × (f a d' ≡ done y)
>>=-eq-done {A = A} {B = B} m f d {y = y} h = go (m d) refl h
  where
    go :
        (o : Outcome (A × DtaDev))
        → m d ≡ o
        → (let r : Outcome (B × DtaDev) = elim o [
          | done (a, d') ↦ f a d'
          | exit ↦ exit
          | fault ↦ fault
          | hung ↦ hung
        ] in
            r)
          ≡ done y
        → (a : A) × (d' : DtaDev) × (m d ≡ done (a, d')) × (f a d' ≡ done y)
    go (done (a, d')) e k = (a, d', e, k)
    go exit e k = cc k
    go fault e k = cc k
    go hung e k = cc k

pub lift-eq-done {ℓ} :
    {A : Type ℓ} (o : Outcome A) (d : DtaDev) {a : A} {d' : DtaDev}
    → lift o d ≡ done (a, d')
    → (o ≡ done a) × (d ≡ d')
lift-eq-done (done a) d h = (cc h, cc h)
lift-eq-done exit d h = cc h
lift-eq-done fault d h = cc h
lift-eq-done hung d h = cc h

-- A buffer of `n` zeros over whose front the bytes were written.
unfoldable pub filled : ℕ → List ℕ → List ℕ
filled zero l = []
filled (suc n) [] = 0 ∷ filled n []
filled (suc n) (b ∷ l) = b ∷ filled n l

module _ (p : Platform) where
  unfoldable pub send_cmd : Request → M Reply
  send_cmd req d = done (p.send_cmd d.requests req, record d { requests = req ∷ d.requests })

  -- The do loop of `exec`: clear the response buffer and receive into it, until the device is
  -- ready. Returns the last return code and the response buffer.
  unfoldable pub receive : ℕ → ℕ → M (ℕ × List ℕ)
  receive zero protocol d = hung
  receive (suc polls) protocol d =
      let req : Request = record {
        command = if_recv;
        protocol = protocol;
        com_id = com_id d;
        buffer = [];
        size = min_buffer_length;
      } in
      let again = receive polls protocol in
      (do
        reply ← send_cmd req
        let respbuf = filled min_buffer_length reply.buffer
        outstanding_data ← lift (read32 respbuf 8)
        min_transfer ← lift (read32 respbuf 12)
        if not (outstanding_data == 0) && (min_transfer == 0)
            then again
            else pure (reply.rc, respbuf))
        d

  -- `exec`. The response that is passed by reference is an argument and a result.
  unfoldable pub exec : DtaCommand → DtaResponse → ℕ → M (ℕ × DtaResponse)
  exec cmd resp protocol = do
    id ← gets com_id
    sent ← send_cmd (record {
      command = if_send;
      protocol = protocol;
      com_id = id;
      buffer = cmd.cmdbuf;
      size = output_buffer_size cmd;
    })
    if sent.rc == 0
        then (do
          (rc, respbuf) ← receive p.polls protocol
          if rc == 0 then (do resp' ← lift (init respbuf); pure (0, resp')) else pure (rc, resp))
        else pure (sent.rc, resp)
