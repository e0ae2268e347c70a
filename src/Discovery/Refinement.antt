-- ===== src/Discovery/Refinement.antt =====
-- Common/DtaDev.cpp: what the discovery learns of a drive that describes itself.
use sedutil.Prelude.{
  ℕ, zero, suc, ◌-◌, ◌*◌, ◌^◌, ◌<◌, ◌≤◌, ◌≡◌, refl, ap, ◌∙◌, arith, false, List, [], ◌∷◌, ◌++◌,
  length, length-append, length-replicate, replicate, All, ◌==◌,
}
use sedutil.Outcome.{Outcome, done}
use sedutil.Endian.{swap16, swap32, swap64}
use sedutil.Structures.{OpalDiskInfo, NsGeometryInfo}
use sedutil.Device.{Platform, DtaDev, filled, min_buffer_length, send_cmd}
use sedutil.Discovery.{
  byte, field16, field32, field64, fc_nsgeometry, unknown_feature, read_feature, read_feature_ns,
  read_nsgeometry, read_reply,
}
use sedutil.Discovery.Encode
use sedutil.Discovery.Encode.{Feature, put16, put32, put64, read_feature-encode}
use sedutil.Discovery.Loop.{Reader, learn, reply_of, read_reply-reply_of}
use sedutil.Discovery.Requests.{discovery_request, discovery0, discovery0_ns}

pub code_small : (f : Feature) → Encode.Valid f → Encode.code_of f < 2 ^ 16
code_small (Encode.other code payload) v = v.0
code_small (Encode.tper _) v = omega arith
code_small (Encode.locking _) v = omega arith
code_small (Encode.geometry _) v = omega arith
code_small (Encode.enterprise _) v = omega arith
code_small (Encode.opalv100 _) v = omega arith
code_small (Encode.single_user _) v = omega arith
code_small (Encode.data_store _) v = omega arith
code_small (Encode.opalv200 _) v = omega arith
code_small (Encode.block_sid _) v = omega arith
code_small (Encode.ns_locking _) v = omega arith

pub data_some : (f : Feature) → Encode.Valid f → 1 ≤ length (Encode.data_of f)
unfolding Encode.data_of
data_some (Encode.other code payload) v = let (small, unknown, some_data) = v in some_data
data_some (Encode.tper _) v = omega arith
data_some (Encode.locking _) v = omega arith
data_some (Encode.geometry _) v = omega arith
data_some (Encode.enterprise _) v = omega arith
data_some (Encode.opalv100 _) v = omega arith
data_some (Encode.single_user _) v = omega arith
data_some (Encode.data_store _) v = omega arith
data_some (Encode.opalv200 _) v = omega arith
data_some (Encode.block_sid _) v = omega arith
data_some (Encode.ns_locking _) v = omega arith

pub reads :
    (info : OpalDiskInfo) (rest : List ℕ) (f : Feature)
    → Encode.Valid f
    → read_feature
        (put16
            (Encode.code_of f)
            (Encode.version_of f * 16 ∷ length (Encode.data_of f) ∷ Encode.data_of f)
          ++ rest)
        info
        (Encode.code_of f)
      ≡ done (Encode.apply f info)
reads info rest f v = let e = read_feature-encode info rest f v in unfold Encode.encode in e

-- The features of the first reply.
abbrev pub features : Reader read_feature
features = record {
  Item = Feature;
  code_of = Encode.code_of;
  version_of = Encode.version_of;
  data_of = Encode.data_of;
  Valid = Encode.Valid;
  apply = Encode.apply;
  code_small = code_small;
  data_some = data_some;
  reads = reads;
}

-- The features of the second reply: the geometry of a name space, and any other.
pub data NsFeature : Type 0 where
  geometry_ns : NsGeometryInfo → NsFeature
  other_ns : ℕ → List ℕ → NsFeature

abbrev ns_code : NsFeature → ℕ
ns_code (geometry_ns _) = fc_nsgeometry
ns_code (other_ns code _) = code

abbrev ns_version : NsFeature → ℕ
ns_version (geometry_ns g) = g.version
ns_version (other_ns _ _) = 1

abbrev ns_data : NsFeature → List ℕ
ns_data (geometry_ns g) =
    g.align
    ∷ 0
    ∷ 0
    ∷ 0
    ∷ 0
    ∷ 0
    ∷ 0
    ∷ 0
    ∷ put32 g.logical_block_size (put64 g.alignment_granularity (put64 g.lowest_aligned_lba []))
ns_data (other_ns _ payload) = payload

abbrev NsValid : NsFeature → Type 0
NsValid (geometry_ns g) =
    (g.align < 2)
    × (g.logical_block_size < 2 ^ 32)
    × (g.alignment_granularity < 2 ^ 64)
    × (g.lowest_aligned_lba < 2 ^ 64)
    × (g.len ≡ 28)
NsValid (other_ns code payload) =
    (code < 2 ^ 16) × ((code == fc_nsgeometry) ≡ false) × (1 ≤ length payload)

abbrev ns_apply : NsFeature → OpalDiskInfo → OpalDiskInfo
ns_apply (geometry_ns g) info = record info { ns_geometry = 1; ns_geometry_info = g }
ns_apply (other_ns code payload) info = unknown_feature code info

pub ns_code_small : (f : NsFeature) → NsValid f → ns_code f < 2 ^ 16
ns_code_small (geometry_ns g) v = omega arith
ns_code_small (other_ns code payload) v = v.0

pub ns_data_some : (f : NsFeature) → NsValid f → 1 ≤ length (ns_data f)
ns_data_some (geometry_ns g) v = omega arith
ns_data_some (other_ns code payload) v = let (small, unknown, some_data) = v in some_data

pub ns_reads :
    (info : OpalDiskInfo) (rest : List ℕ) (f : NsFeature)
    → NsValid f
    → read_feature_ns
        (put16 (ns_code f) (ns_version f * 16 ∷ length (ns_data f) ∷ ns_data f) ++ rest)
        info
        (ns_code f)
      ≡ done (ns_apply f info)
unfolding read_feature_ns byte field16 field32 field64 swap16 swap32 swap64 read_nsgeometry
ns_reads info rest (geometry_ns g) v = ground arith
ns_reads info rest (other_ns code payload) v = ground arith

abbrev pub ns_features : Reader read_feature_ns
ns_features = record {
  Item = NsFeature;
  code_of = ns_code;
  version_of = ns_version;
  data_of = ns_data;
  Valid = NsValid;
  apply = ns_apply;
  code_small = ns_code_small;
  data_some = ns_data_some;
  reads = ns_reads;
}

filled-nil : (n : ℕ) → filled n [] ≡ replicate n 0
unfolding filled
filled-nil zero = refl
filled-nil (suc n) = ap (λ m. 0 ∷ m) (filled-nil n)

-- A reply that fits the buffer is followed by zeros.
filled-short : (n : ℕ) (l : List ℕ) → length l ≤ n → filled n l ≡ l ++ replicate (n - length l) 0
unfolding filled
filled-short zero [] h = refl
filled-short zero (x ∷ l) h = elim h [ ]
filled-short (suc n) [] h = let e : suc n - 0 ≡ suc n = omega arith in rw e (filled-nil (suc n))
filled-short (suc n) (x ∷ l) h =
    let e : suc n - suc (length l) ≡ n - length l = omega arith in
    rw e (ap (λ m. x ∷ m) (filled-short n l (omega arith)))

module _ {switch : List ℕ → OpalDiskInfo → ℕ → Outcome OpalDiskInfo} (r : Reader switch) where
  open r use {Item, Valid}

  -- What is read of the buffer that holds such a reply.
  read_reply-filled :
      (header : List ℕ) (i : Item) (is : List Item) (info : OpalDiskInfo)
      → length header ≡ 44
      → All Valid (i ∷ is)
      → length (reply_of r header (i ∷ is)) ≤ min_buffer_length
      → read_reply switch (filled min_buffer_length (reply_of r header (i ∷ is))) info
        ≡ done (learn r (i ∷ is) info)
  read_reply-filled header i is info h v short =
      let l = reply_of r header (i ∷ is) in
      let zeros = replicate (min_buffer_length - length l) 0 in
      let total = length-append l zeros in
      let padding = length-replicate {A = ℕ} (min_buffer_length - length l) 0 in
      ap (λ b. read_reply switch b info) (filled-short min_buffer_length l short)
      ∙ read_reply-reply_of r header i is zeros info h v (omega (arith, total, padding, short))

-- The discovery of a drive that answers the two requests with descriptors.
module _ (p : Platform) (d : DtaDev) (header : List ℕ) (f : Feature) (fs : List Feature)
    (header_ns : List ℕ) (g : NsFeature) (gs : List NsFeature) where
  -- When a drive answers the two requests with lists of descriptors, each of them not empty and
  -- within the buffer, then what is known of it afterwards is what the descriptors of the first
  -- reply and then those of the second say, in their order, on top of what was known.
  pub discovery0-learn :
      length header ≡ 44
      → All Encode.Valid (f ∷ fs)
      → length (reply_of features header (f ∷ fs)) ≤ min_buffer_length
      → length header_ns ≡ 44
      → All NsValid (g ∷ gs)
      → length (reply_of ns_features header_ns (g ∷ gs)) ≤ min_buffer_length
      → p.send_cmd d.requests (discovery_request 1)
        ≡ record { rc = 0; buffer = reply_of features header (f ∷ fs) }
      → p.send_cmd (discovery_request 1 ∷ d.requests) (discovery_request 2)
        ≡ record { rc = 0; buffer = reply_of ns_features header_ns (g ∷ gs) }
      → discovery0 p d
        ≡ done (
          tt,
          record d {
            disk_info = learn ns_features (g ∷ gs) (learn features (f ∷ fs) d.disk_info);
            requests = discovery_request 2 ∷ discovery_request 1 ∷ d.requests;
          },
        )
  unfolding discovery0 discovery0_ns send_cmd
  discovery0-learn h v short h' v' short' first second =
      rw
        (
          first,
          read_reply-filled features header f fs d.disk_info h v short,
          second,
          read_reply-filled ns_features header_ns g gs (learn features (f ∷ fs) d.disk_info) h' v'
              short',
        )
        refl
