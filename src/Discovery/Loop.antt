-- ===== src/Discovery/Loop.antt =====
-- Common/DtaDev.cpp: the loop over the descriptors of a reply, for any switch that reads one.
use sedutil.Prelude.{
  ℕ, zero, suc, ◌+◌, ◌*◌, ◌^◌, ◌<◌, ◌≤◌, ◌≡◌, refl, sym, ap, subst, ◌∙◌, arith, true, false, List,
  [], ◌∷◌, ◌++◌, append-nil, append_assoc, length, length-append, All, drop, drop-append, get_elem?,
  ltb, if◌then◌else◌,
}
use sedutil.Outcome.{Outcome, done, or_fault}
use sedutil.Endian.{swap16, swap32}
use sedutil.Structures.{OpalDiskInfo}
use sedutil.Discovery.{byte, field16, field32, scan, read_reply}
use sedutil.Discovery.Encode.{put16, put32}

-- What a drive may put in a reply and a switch reads: items with their descriptors and their meaning.
pub record Reader (switch : List ℕ → OpalDiskInfo → ℕ → Outcome OpalDiskInfo) : Type 1 where
  pub Item : Type 0
  pub code_of : Item → ℕ
  pub version_of : Item → ℕ
  pub data_of : Item → List ℕ
  pub Valid : Item → Type 0
  pub apply : Item → OpalDiskInfo → OpalDiskInfo
  pub code_small : (i : Item) → Valid i → code_of i < 2 ^ 16
  pub data_some : (i : Item) → Valid i → 1 ≤ length (data_of i)
  pub reads :
      (info : OpalDiskInfo) (rest : List ℕ) (i : Item)
      → Valid i
      → switch
          (put16 (code_of i) (version_of i * 16 ∷ length (data_of i) ∷ data_of i) ++ rest)
          info
          (code_of i)
        ≡ done (apply i info)

field16-put16 : (c : ℕ) (l : List ℕ) → c < 2 ^ 16 → field16 (put16 c l) 0 ≡ done c
unfolding field16 byte swap16
field16-put16 c l h = ground arith

ltb_irrefl : (n : ℕ) → ltb n n ≡ false
ltb_irrefl n = ground arith

ltb_lem : (m n : ℕ) → m < n → ltb m n ≡ true
ltb_lem m n h = ground arith

byte-at : (l : List ℕ) (o : ℕ) → byte l o ≡ or_fault (get_elem? l o)
unfolding byte
byte-at l o = refl

field32-put32 : (c : ℕ) (l : List ℕ) → c < 2 ^ 32 → field32 (put32 c l) 0 ≡ done c
unfolding field32 byte swap32
field32-put32 c l h = ground arith

read_reply-put32 :
    (switch : List ℕ → OpalDiskInfo → ℕ → Outcome OpalDiskInfo) (total : ℕ)
    (header descriptors rest : List ℕ) (info : OpalDiskInfo)
    → length header ≡ 44
    → total < 2 ^ 32
    → read_reply switch (put32 total (header ++ descriptors) ++ rest) info
      ≡ scan switch
          (length (put32 total (header ++ descriptors) ++ rest))
          total
          48
          (descriptors ++ rest)
          info
unfolding read_reply
read_reply-put32 switch total header descriptors rest info h small =
    let behind : drop 44 ((header ++ descriptors) ++ rest) ≡ descriptors ++ rest =
      ap (λ l. drop 44 l) (append_assoc header descriptors rest)
      ∙ subst (λ n. drop n (header ++ (descriptors ++ rest)) ≡ descriptors ++ rest) h
          (drop-append header (descriptors ++ rest)) in
    rw (field32-put32 total ((header ++ descriptors) ++ rest) small, behind) refl

module _ {switch : List ℕ → OpalDiskInfo → ℕ → Outcome OpalDiskInfo} (r : Reader switch) where
  open r use {Item, code_of, version_of, data_of, Valid, apply, code_small, data_some, reads}

  abbrev pub describe : Item → List ℕ
  describe i = put16 (code_of i) (version_of i * 16 ∷ length (data_of i) ∷ data_of i)

  abbrev pub describe_all : List Item → List ℕ
  describe_all [] = []
  describe_all (i ∷ is) = describe i ++ describe_all is

  -- The items, in the order of the reply.
  abbrev pub learn : List Item → OpalDiskInfo → OpalDiskInfo
  learn [] info = info
  learn (i ∷ is) info = learn is (apply i info)

  scan_step :
      (fuel len cpos : ℕ) (i : Item) (rest : List ℕ) (info : OpalDiskInfo)
      → Valid i
      → scan switch (suc fuel) len cpos (describe i ++ rest) info ≡ (
          if ltb (cpos + length (describe i)) len
          then scan switch fuel len (cpos + length (describe i)) rest (apply i info)
          else done (apply i info))
  unfolding scan
  scan_step fuel len cpos i rest info v =
      let n = length (data_of i) in
      let four : n + 4 ≡ length (describe i) = omega arith in
      rw
        (
          field16-put16 (code_of i) (version_of i * 16 ∷ n ∷ data_of i ++ rest) (code_small i v),
          byte-at (describe i ++ rest) 3,
          reads info rest i v,
          four,
          drop-append (describe i) rest,
        )
        refl

  describe_all-length : (i : Item) (is : List Item) → 4 ≤ length (describe_all (i ∷ is))
  describe_all-length i is =
      let e = length-append (describe i) (describe_all is) in rw e (omega arith)

  -- A whole list of descriptors: the loop ends where the header says, having learnt all of them.
  scan-describe_all :
      (fuel len cpos : ℕ) (i : Item) (is : List Item) (rest : List ℕ) (info : OpalDiskInfo)
      → All Valid (i ∷ is)
      → length is < fuel
      → len ≡ cpos + length (describe_all (i ∷ is))
      → scan switch fuel len cpos (describe_all (i ∷ is) ++ rest) info ≡ done (learn (i ∷ is) info)
  scan-describe_all zero len cpos i is rest info v h e = elim h [ ]
  scan-describe_all (suc fuel) len cpos i [] rest info v h e =
      let last : cpos + length (describe i) ≡ len =
        ap (λ l. cpos + length l) (sym (append-nil (describe i))) ∙ sym e in
      ap (λ body. scan switch (suc fuel) len cpos body info) (append_assoc (describe i) [] rest)
      ∙ scan_step fuel len cpos i rest info v.0
      ∙ rw (last, ltb_irrefl len) refl
  scan-describe_all (suc fuel) len cpos i (j ∷ js) rest info v h e =
      let n = length (describe i) in
      let m = length (describe_all (j ∷ js)) in
      let split : len ≡ cpos + (n + m) =
        e ∙ ap (λ k. cpos + k) (length-append (describe i) (describe_all (j ∷ js))) in
      let some_data : 4 ≤ m = describe_all-length j js in
      let more : ltb (cpos + n) len ≡ true =
        ltb_lem (cpos + n) len (omega (arith, split, some_data)) in
      rw
        (
          append_assoc (describe i) (describe_all (j ∷ js)) rest,
          scan_step fuel len cpos i (describe_all (j ∷ js) ++ rest) info v.0,
          more,
        )
        (scan-describe_all fuel len (cpos + n) j js rest (apply i info) v.1 (omega arith)
          (omega (arith, split)))

  describe_all-count : (is : List Item) → length is ≤ length (describe_all is)
  describe_all-count [] = omega arith
  describe_all-count (i ∷ is) =
      let e = length-append (describe i) (describe_all is) in
      let h = describe_all-count is in rw e (omega (arith, h))

  -- A reply: its header, with the length that the field itself is not counted in, and descriptors.
  abbrev pub reply_of : List ℕ → List Item → List ℕ
  reply_of header is = put32 (48 + length (describe_all is)) (header ++ describe_all is)

  -- A reply with at least one descriptor, whatever stands in the rest of its header of 48 bytes and
  -- behind it in the buffer, is read as what its descriptors say, in their order.
  pub read_reply-reply_of :
      (header : List ℕ) (i : Item) (is : List Item) (rest : List ℕ) (info : OpalDiskInfo)
      → length header ≡ 44
      → All Valid (i ∷ is)
      → length (reply_of header (i ∷ is) ++ rest) < 2 ^ 32
      → read_reply switch (reply_of header (i ∷ is) ++ rest) info ≡ done (learn (i ∷ is) info)
  read_reply-reply_of header i is rest info h v small =
      let d = describe_all (i ∷ is) in
      let total = 48 + length d in
      let front = length-append (header ++ d) rest in
      let inner = length-append header d in
      let few = describe_all-count (i ∷ is) in
      read_reply-put32 switch total header d rest info h (omega (arith, front, inner, h, small))
      ∙ scan-describe_all (length (reply_of header (i ∷ is) ++ rest)) total 48 i is rest info v
          (omega (arith, front, inner, few)) refl
