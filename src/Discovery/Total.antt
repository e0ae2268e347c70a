-- ===== src/Discovery/Total.antt =====
-- Common/DtaDev.cpp: the end of the loop over the descriptors of a reply.
use sedutil.Prelude.{
  ℕ, zero, suc, ◌+◌, ◌<◌, ◌≤◌, ◌≡◌, ◌≢◌, arith, Bool, true, false, List, [], ◌∷◌, length, drop, ltb,
  if◌then◌else◌,
}
use sedutil.Outcome.{Outcome, done, hung, bind-ne-hung}
use sedutil.Structures.{OpalDiskInfo}
use sedutil.Discovery.{byte, field16, field32, scan, read_reply}

pub byte-ne-hung : (l : List ℕ) (o : ℕ) → byte l o ≢ hung
unfolding byte
byte-ne-hung [] o = λ e. cc
byte-ne-hung (x ∷ l) zero = λ e. cc
byte-ne-hung (x ∷ l) (suc o) = byte-ne-hung l o

pub field16-ne-hung : (l : List ℕ) (o : ℕ) → field16 l o ≢ hung
unfolding field16
field16-ne-hung l o =
    bind-ne-hung (byte l o) _ (byte-ne-hung l o)
      λ a _. bind-ne-hung (byte l (o + 1)) _ (byte-ne-hung l (o + 1)) λ b _. λ e. cc

pub field32-ne-hung : (l : List ℕ) (o : ℕ) → field32 l o ≢ hung
unfolding field32
field32-ne-hung l o = bind-ne-hung (byte l o) _ (byte-ne-hung l o) λ a _.
    bind-ne-hung (byte l (o + 1)) _ (byte-ne-hung l (o + 1)) λ b _.
      bind-ne-hung (byte l (o + 2)) _ (byte-ne-hung l (o + 2))
        λ c _. bind-ne-hung (byte l (o + 3)) _ (byte-ne-hung l (o + 3)) λ d _. λ e. cc

length-drop : (n : ℕ) (l : List ℕ) → length (drop n l) ≤ length l
length-drop zero l = omega arith
length-drop (suc n) [] = omega arith
length-drop (suc n) (x ∷ l) = let h = length-drop n l in omega (arith, h)

byte-eq-done : (l : List ℕ) (o : ℕ) {b : ℕ} → byte l o ≡ done b → 0 < length l
unfolding byte
byte-eq-done [] o h = cc h
byte-eq-done (x ∷ l) o h = omega arith

-- A descriptor that was read has been passed.
drop-lt : (n : ℕ) (l : List ℕ) → 0 < n → 0 < length l → length (drop n l) < length l
drop-lt zero l h k = elim h [ ]
drop-lt (suc n) [] h k = elim k [ ]
drop-lt (suc n) (x ∷ l) h k = let e = length-drop n l in omega (arith, e)

field32-lt : (l : List ℕ) {n : ℕ} → field32 l 0 ≡ done n → length (drop 48 l) < length l
unfolding field32 byte
field32-lt [] h = cc h
field32-lt (x ∷ l) h = drop-lt 48 (x ∷ l) (omega arith) (omega arith)

pub if-ne-hung {ℓ} :
    {A : Type ℓ} (b : Bool) {t e : Outcome A} → t ≢ hung → e ≢ hung → (if b then t else e) ≢ hung
if-ne-hung true h k = h
if-ne-hung false h k = k

module _ (switch : List ℕ → OpalDiskInfo → ℕ → Outcome OpalDiskInfo)
    (ends : (body : List ℕ) (info : OpalDiskInfo) (code : ℕ) → switch body info code ≢ hung) where
  scan-ne-hung :
      (fuel len cpos : ℕ) (body : List ℕ) (info : OpalDiskInfo)
      → length body < fuel
      → scan switch fuel len cpos body info ≢ hung
  unfolding scan
  scan-ne-hung zero len cpos body info h = elim h [ ]
  scan-ne-hung (suc fuel) len cpos body info h =
      bind-ne-hung (field16 body 0) _ (field16-ne-hung body 0) λ code _.
        bind-ne-hung (switch body info code) _ (ends body info code) λ info' _.
          bind-ne-hung (byte body 3) _ (byte-ne-hung body 3) λ size read.
            if-ne-hung (ltb (cpos + (size + 4)) len)
              (scan-ne-hung fuel len (cpos + (size + 4)) (drop (size + 4) body) info' (
                let k = drop-lt (size + 4) body (omega arith) (byte-eq-done body 3 read) in
                omega (arith, h, k)))
              (λ e. cc)

  -- The loop over the descriptors of a reply ends, whatever the drive put into it: within as many
  -- rounds as the buffer has bytes.
  pub read_reply-ne-hung :
      (buffer : List ℕ) (info : OpalDiskInfo) → read_reply switch buffer info ≢ hung
  unfolding read_reply
  read_reply-ne-hung buffer info =
      bind-ne-hung (field32 buffer 0) _ (field32-ne-hung buffer 0) λ len read.
        scan-ne-hung (length buffer) len 48 (drop 48 buffer) info (field32-lt buffer read)
