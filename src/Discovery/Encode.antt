-- ===== src/Discovery/Encode.antt =====
-- Common/DtaStructures.h: the feature descriptors of a discovery reply, as a drive lays them out, and
-- what each of them says of the disk.
use sedutil.Prelude.{
  ℕ, ◌+◌, ◌*◌, ◌/◌, ◌%◌, ◌^◌, ◌<◌, ◌≤◌, ◌≡◌, arith, Bool, true, false, List, [], ◌∷◌, ◌++◌, length,
  replicate, ◌==◌, if◌then◌else◌,
}
use sedutil.Outcome.{done}
use sedutil.Endian.{swap16, swap32, swap64}
use sedutil.Structures.{
  OpalDiskInfo, TperInfo, LockingInfo, GeometryInfo, EnterpriseInfo, SingleUserInfo, BlockSidInfo,
  NsLockingInfo, DataStoreInfo, Opal10Info, Opal20Info,
}
use sedutil.Discovery.{
  fc_tper, fc_locking, fc_geometry, fc_enterprise, fc_datastore, fc_singleuser, fc_opalv100,
  fc_opalv200, fc_blocksidauth, fc_nslocking, byte, field16, field32, field64, unknown_feature,
  read_feature, read_tper, read_locking, read_geometry, read_enterprise, read_opalv100,
  read_singleuser, read_datastore, read_opalv200, read_blocksidauth, read_nslocking,
}

-- The features that the program knows, and any other with its code and data.
pub data Feature : Type 0 where
  tper : TperInfo → Feature
  locking : LockingInfo → Feature
  geometry : GeometryInfo → Feature
  enterprise : EnterpriseInfo → Feature
  opalv100 : Opal10Info → Feature
  single_user : SingleUserInfo → Feature
  data_store : DataStoreInfo → Feature
  opalv200 : Opal20Info → Feature
  block_sid : BlockSidInfo → Feature
  ns_locking : NsLockingInfo → Feature
  other : ℕ → List ℕ → Feature

abbrev pub code_of : Feature → ℕ
code_of (tper _) = fc_tper
code_of (locking _) = fc_locking
code_of (geometry _) = fc_geometry
code_of (enterprise _) = fc_enterprise
code_of (opalv100 _) = fc_opalv100
code_of (single_user _) = fc_singleuser
code_of (data_store _) = fc_datastore
code_of (opalv200 _) = fc_opalv200
code_of (block_sid _) = fc_blocksidauth
code_of (ns_locking _) = fc_nslocking
code_of (other code _) = code

-- Numbers in front of a list, highest byte first.
abbrev pub put16 : ℕ → List ℕ → List ℕ
put16 n l = n / 2 ^ 8 % 256 ∷ n % 256 ∷ l

abbrev pub put32 : ℕ → List ℕ → List ℕ
put32 n l = n / 2 ^ 24 % 256 ∷ n / 2 ^ 16 % 256 ∷ n / 2 ^ 8 % 256 ∷ n % 256 ∷ l

abbrev pub put64 : ℕ → List ℕ → List ℕ
put64 n l = put32 (n / 2 ^ 32) (put32 (n % 2 ^ 32) l)

abbrev zeros : ℕ → List ℕ
zeros n = replicate n 0

-- The data of a descriptor behind its first four bytes.
unfoldable pub data_of : Feature → List ℕ
data_of (tper t) =
    (t.sync + t.async * 2 + t.acknack * 4 + t.buffer_mgt * 8 + t.streaming * 16 + t.com_id_mgt * 64)
    ∷ zeros 11
data_of (locking l) =
    (l.locking_supported
      + l.locking_enabled * 2
      + l.locked * 4
      + l.media_encrypt * 8
      + l.mbr_enabled * 16
      + l.mbr_done * 32)
    ∷ zeros 11
data_of (geometry g) =
    g.align
    ∷ 0
    ∷ 0
    ∷ 0
    ∷ 0
    ∷ 0
    ∷ 0
    ∷ 0
    ∷ put32 g.logical_block_size (put64 g.alignment_granularity (put64 g.lowest_aligned_lba []))
data_of (enterprise e) = put16 e.base_com_id (put16 e.num_com_id (e.range_crossing ∷ zeros 11))
data_of (opalv100 o) = put16 o.base_com_id (put16 o.num_com_ids (zeros 12))
data_of (single_user s) = put32 s.locking_objects ((s.any + s.all * 2 + s.policy * 4) ∷ zeros 7)
data_of (data_store s) = 0 ∷ 0 ∷ put16 s.max_tables (put32 s.max_table_size (put32 s.alignment []))
data_of (opalv200 o) = put16 o.base_com_id (
    put16 o.num_com_ids (
      o.range_crossing
      ∷ put16 o.num_admins (put16 o.num_users (o.initial_pin ∷ o.reverted_pin ∷ zeros 5))))
data_of (block_sid b) = (b.sid_value_state + b.sid_blocked_state * 2) ∷ b.hardware_reset ∷ zeros 10
data_of (ns_locking n) =
    (n.range_p * 64 + n.range_c * 128)
    ∷ 0
    ∷ 0
    ∷ 0
    ∷ put32 n.max_key_count (put32 n.unused_key_count (put32 n.max_range_per_ns []))
data_of (other _ payload) = payload

abbrev pub version_of : Feature → ℕ
version_of (ns_locking n) = n.version
version_of _ = 1

-- A descriptor: its code, its version, the length of its data, its data.
unfoldable pub encode : Feature → List ℕ
unfolding data_of
encode f = put16 (code_of f) (version_of f * 16 ∷ length (data_of f) ∷ data_of f)

abbrev IsBit : ℕ → Type 0
IsBit b = b < 2

abbrev is_known : ℕ → Bool
is_known code =
    if code == fc_tper
    then true
    else if code == fc_locking
    then true
    else if code == fc_geometry
    then true
    else if code == fc_enterprise
    then true
    else if code == fc_opalv100
    then true
    else if code == fc_singleuser
    then true
    else if code == fc_datastore
    then true
    else if code == fc_opalv200
    then true
    else if code == fc_blocksidauth
    then true
    else code == fc_nslocking

-- The values fit their fields, and the data is not empty.
abbrev pub Valid : Feature → Type 0
Valid (tper t) =
    IsBit t.sync
    × IsBit t.async
    × IsBit t.acknack
    × IsBit t.buffer_mgt
    × IsBit t.streaming
    × IsBit t.com_id_mgt
Valid (locking l) =
    IsBit l.locking_supported
    × IsBit l.locking_enabled
    × IsBit l.locked
    × IsBit l.media_encrypt
    × IsBit l.mbr_enabled
    × IsBit l.mbr_done
Valid (geometry g) =
    IsBit g.align
    × (g.logical_block_size < 2 ^ 32)
    × (g.alignment_granularity < 2 ^ 64)
    × (g.lowest_aligned_lba < 2 ^ 64)
Valid (enterprise e) = IsBit e.range_crossing × (e.base_com_id < 2 ^ 16) × (e.num_com_id < 2 ^ 16)
Valid (opalv100 o) = (o.base_com_id < 2 ^ 16) × (o.num_com_ids < 2 ^ 16)
Valid (single_user s) = IsBit s.any × IsBit s.all × IsBit s.policy × (s.locking_objects < 2 ^ 32)
Valid (data_store s) =
    (s.max_tables < 2 ^ 16) × (s.max_table_size < 2 ^ 32) × (s.alignment < 2 ^ 32)
Valid (opalv200 o) =
    IsBit o.range_crossing
    × (o.base_com_id < 2 ^ 16)
    × (o.num_com_ids < 2 ^ 16)
    × (o.num_admins < 2 ^ 16)
    × (o.num_users < 2 ^ 16)
Valid (block_sid b) = IsBit b.sid_value_state × IsBit b.sid_blocked_state × IsBit b.hardware_reset
Valid (ns_locking n) =
    IsBit n.range_p
    × IsBit n.range_c
    × (n.max_key_count < 2 ^ 32)
    × (n.unused_key_count < 2 ^ 32)
    × (n.max_range_per_ns < 2 ^ 32)
    × (n.len ≡ 16)
Valid (other code payload) = (code < 2 ^ 16) × (is_known code ≡ false) × (1 ≤ length payload)

-- What a feature says of the disk.
abbrev pub apply : Feature → OpalDiskInfo → OpalDiskInfo
apply (tper t) info = record info { tper = 1; tper_info = t }
apply (locking l) info = record info { locking = 1; locking_info = l }
apply (geometry g) info = record info { geometry = 1; geometry_info = g }
apply (enterprise e) info = record info { enterprise = 1; any_opal_ssc = 1; enterprise_info = e }
apply (opalv100 o) info = record info { opal10 = 1; any_opal_ssc = 1; opal10_info = o }
apply (single_user s) info = record info { single_user = 1; single_user_info = s }
apply (data_store s) info = record info { data_store = 1; data_store_info = s }
apply (opalv200 o) info = record info { opal20 = 1; any_opal_ssc = 1; opal20_info = o }
apply (block_sid b) info = record info { block_sid_authentication = 1; block_sid_info = b }
apply (ns_locking n) info = record info { ns_locking = 1; ns_locking_info = n }
apply (other code payload) info = unknown_feature code info

module _ (info : OpalDiskInfo) (rest : List ℕ) where
  -- A descriptor is read as what its feature says.
  pub read_feature-encode :
      (f : Feature)
      → Valid f
      → read_feature (encode f ++ rest) info (code_of f) ≡ done (apply f info)
  unfolding read_feature encode data_of byte field16 field32 field64 swap16 swap32 swap64 read_tper
      read_locking read_geometry read_enterprise read_opalv100 read_singleuser read_datastore
      read_opalv200 read_blocksidauth read_nslocking
  read_feature-encode (tper t) h = ground arith
  read_feature-encode (locking l) h = ground arith
  read_feature-encode (geometry g) h = ground arith
  read_feature-encode (enterprise e) h = ground arith
  read_feature-encode (opalv100 o) h = ground arith
  read_feature-encode (single_user s) h = ground arith
  read_feature-encode (data_store s) h = ground arith
  read_feature-encode (opalv200 o) h = ground arith
  read_feature-encode (block_sid b) h = ground arith
  read_feature-encode (ns_locking n) h = ground arith
  read_feature-encode (other code payload) h = ground arith
