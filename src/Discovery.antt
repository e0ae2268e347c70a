-- ===== src/Discovery.antt =====
-- Common/DtaDev.cpp: the discovery, which fills in what is known of a disk from the two replies to
-- the discovery requests. A reply is the list of the 2048 bytes of its buffer; what is read behind
-- them is a fault. A bit field is a bit of its byte, the first one the lowest.
pub mod Encode
pub mod Loop
pub mod Total
pub mod Requests
pub mod Refinement
pub mod Known
pub mod Kept
pub mod Ends
mod Tests
use sedutil.Prelude.{
  ℕ, zero, suc, ◌+◌, ◌*◌, ◌/◌, ◌%◌, ◌^◌, Bool, List, [], ◌∷◌, drop, length, get_elem?, ltb, ◌==◌,
  if◌then◌else◌,
}
use sedutil.Outcome.{Outcome, done, hung, ◌>>=◌, or_fault}
use sedutil.Endian.{swap16, swap32, swap64, word16, word32, word64}
use sedutil.Structures.{
  OpalDiskInfo, TperInfo, LockingInfo, GeometryInfo, EnterpriseInfo, SingleUserInfo, BlockSidInfo,
  NsLockingInfo, NsGeometryInfo, DataStoreInfo, Opal10Info, Opal20Info,
}

abbrev pub fc_tper : ℕ
fc_tper = 0x0001

abbrev pub fc_locking : ℕ
fc_locking = 0x0002

abbrev pub fc_geometry : ℕ
fc_geometry = 0x0003

abbrev pub fc_enterprise : ℕ
fc_enterprise = 0x0100

abbrev pub fc_datastore : ℕ
fc_datastore = 0x0202

abbrev pub fc_singleuser : ℕ
fc_singleuser = 0x0201

abbrev pub fc_opalv100 : ℕ
fc_opalv100 = 0x0200

abbrev pub fc_opalv200 : ℕ
fc_opalv200 = 0x0203

abbrev pub fc_blocksidauth : ℕ
fc_blocksidauth = 0x0402

abbrev pub fc_nslocking : ℕ
fc_nslocking = 0x0403

abbrev pub fc_nsgeometry : ℕ
fc_nsgeometry = 0x0405

-- Fields of a descriptor, by their offset: a byte, and big-endian fields that the macros swap.
unfoldable pub byte : List ℕ → ℕ → Outcome ℕ
byte body o = or_fault (get_elem? body o)

unfoldable pub field16 : List ℕ → ℕ → Outcome ℕ
unfolding byte
field16 body o = do a ← byte body o; b ← byte body (o + 1); done (swap16 (word16 a b))

unfoldable pub field32 : List ℕ → ℕ → Outcome ℕ
unfolding byte
field32 body o = do
  a ← byte body o
  b ← byte body (o + 1)
  c ← byte body (o + 2)
  d ← byte body (o + 3)
  done (swap32 (word32 a b c d))

unfoldable pub field64 : List ℕ → ℕ → Outcome ℕ
unfolding byte
field64 body o = do
  a ← byte body o
  b ← byte body (o + 1)
  c ← byte body (o + 2)
  d ← byte body (o + 3)
  e ← byte body (o + 4)
  f ← byte body (o + 5)
  g ← byte body (o + 6)
  h ← byte body (o + 7)
  done (swap64 (word64 a b c d e f g h))

abbrev pub bit : ℕ → ℕ → ℕ
bit b k = b / 2 ^ k % 2

-- The default case of both discoveries; the counters have a byte.
abbrev pub unknown_feature : ℕ → OpalDiskInfo → OpalDiskInfo
unknown_feature code info =
    if ltb 0xbfff code
    then record info { vendor_specific = (info.vendor_specific + 1) % 256 }
    else record info { unknown = (info.unknown + 1) % 256 }

module _ (body : List ℕ) (info : OpalDiskInfo) where
  unfoldable pub read_tper : Outcome OpalDiskInfo
  read_tper = do
    b ← byte body 4
    done (record info {
      tper = 1;
      tper_info = record {
        acknack = bit b 2;
        async = bit b 1;
        buffer_mgt = bit b 3;
        com_id_mgt = bit b 6;
        streaming = bit b 4;
        sync = bit b 0;
      };
    })

  unfoldable pub read_locking : Outcome OpalDiskInfo
  read_locking = do
    b ← byte body 4
    done (record info {
      locking = 1;
      locking_info = record {
        locked = bit b 2;
        locking_enabled = bit b 1;
        locking_supported = bit b 0;
        mbr_done = bit b 5;
        mbr_enabled = bit b 4;
        media_encrypt = bit b 3;
      };
    })

  unfoldable pub read_geometry : Outcome OpalDiskInfo
  read_geometry = do
    b ← byte body 4
    granularity ← field64 body 16
    block ← field32 body 12
    lowest ← field64 body 24
    done (record info {
      geometry = 1;
      geometry_info = record {
        align = bit b 0;
        alignment_granularity = granularity;
        logical_block_size = block;
        lowest_aligned_lba = lowest;
      };
    })

  unfoldable pub read_enterprise : Outcome OpalDiskInfo
  read_enterprise = do
    b ← byte body 8
    base ← field16 body 4
    num ← field16 body 6
    done (record info {
      enterprise = 1;
      any_opal_ssc = 1;
      enterprise_info = record { range_crossing = bit b 0; base_com_id = base; num_com_id = num };
    })

  unfoldable pub read_opalv100 : Outcome OpalDiskInfo
  read_opalv100 = do
    base ← field16 body 4
    num ← field16 body 6
    done (record info {
      opal10 = 1;
      any_opal_ssc = 1;
      opal10_info = record { base_com_id = base; num_com_ids = num };
    })

  unfoldable pub read_singleuser : Outcome OpalDiskInfo
  read_singleuser = do
    b ← byte body 8
    objects ← field32 body 4
    done (record info {
      single_user = 1;
      single_user_info = record {
        any = bit b 0;
        all = bit b 1;
        policy = bit b 2;
        locking_objects = objects;
      };
    })

  unfoldable pub read_datastore : Outcome OpalDiskInfo
  read_datastore = do
    tables ← field16 body 6
    size ← field32 body 8
    alignment ← field32 body 12
    done (record info {
      data_store = 1;
      data_store_info = record {
        max_tables = tables;
        max_table_size = size;
        alignment = alignment;
      };
    })

  unfoldable pub read_opalv200 : Outcome OpalDiskInfo
  read_opalv200 = do
    base ← field16 body 4
    initial_pin ← byte body 13
    reverted_pin ← byte body 14
    num ← field16 body 6
    admins ← field16 body 9
    users ← field16 body 11
    b ← byte body 8
    done (record info {
      opal20 = 1;
      any_opal_ssc = 1;
      opal20_info = record {
        base_com_id = base;
        num_com_ids = num;
        initial_pin = initial_pin;
        reverted_pin = reverted_pin;
        num_admins = admins;
        num_users = users;
        range_crossing = bit b 0;
      };
    })

  unfoldable pub read_blocksidauth : Outcome OpalDiskInfo
  read_blocksidauth = do
    b ← byte body 4
    c ← byte body 5
    done (record info {
      block_sid_authentication = 1;
      block_sid_info = record {
        sid_value_state = bit b 0;
        sid_blocked_state = bit b 1;
        hardware_reset = bit c 0;
      };
    })

  unfoldable pub read_nslocking : Outcome OpalDiskInfo
  read_nslocking = do
    v ← byte body 2
    len ← byte body 3
    b ← byte body 4
    max_key ← field32 body 8
    unused_key ← field32 body 12
    max_range ← field32 body 16
    done (record info {
      ns_locking = 1;
      ns_locking_info = record {
        version = v / 16;
        len = len;
        range_c = bit b 7;
        range_p = bit b 6;
        max_key_count = max_key;
        unused_key_count = unused_key;
        max_range_per_ns = max_range;
      };
    })

  unfoldable pub read_nsgeometry : Outcome OpalDiskInfo
  read_nsgeometry = do
    v ← byte body 2
    len ← byte body 3
    b ← byte body 4
    granularity ← field64 body 16
    block ← field32 body 12
    lowest ← field64 body 24
    done (record info {
      ns_geometry = 1;
      ns_geometry_info = record {
        version = v / 16;
        len = len;
        align = bit b 0;
        logical_block_size = block;
        alignment_granularity = granularity;
        lowest_aligned_lba = lowest;
      };
    })

  -- The switch of `discovery0`.
  unfoldable pub read_feature : ℕ → Outcome OpalDiskInfo
  read_feature code =
      if code == fc_tper
      then read_tper
      else if code == fc_locking
      then read_locking
      else if code == fc_geometry
      then read_geometry
      else if code == fc_enterprise
      then read_enterprise
      else if code == fc_opalv100
      then read_opalv100
      else if code == fc_singleuser
      then read_singleuser
      else if code == fc_datastore
      then read_datastore
      else if code == fc_opalv200
      then read_opalv200
      else if code == fc_blocksidauth
      then read_blocksidauth
      else if code == fc_nslocking
      then read_nslocking
      else done (unknown_feature code info)

  -- The switch of `discovery0_NS`.
  unfoldable pub read_feature_ns : ℕ → Outcome OpalDiskInfo
  read_feature_ns code =
      if code == fc_nsgeometry then read_nsgeometry else done (unknown_feature code info)

-- The do loop of either discovery, with its switch; `body` is the buffer from `cpos` on, and `len`
-- the length in the header.
unfoldable pub scan :
    (List ℕ → OpalDiskInfo → ℕ → Outcome OpalDiskInfo)
    → ℕ
    → ℕ
    → ℕ
    → List ℕ
    → OpalDiskInfo
    → Outcome OpalDiskInfo
scan switch zero len cpos body info = hung
scan switch (suc fuel) len cpos body info = do
  code ← field16 body 0
  info' ← switch body info code
  size ← byte body 3
  let rest = scan switch fuel len (cpos + (size + 4)) (drop (size + 4) body) info'
  if ltb (cpos + (size + 4)) len then rest else done info'

-- A whole reply: the length of its header, and the descriptors from byte 48 on.
unfoldable pub read_reply :
    (List ℕ → OpalDiskInfo → ℕ → Outcome OpalDiskInfo)
    → List ℕ
    → OpalDiskInfo
    → Outcome OpalDiskInfo
unfolding scan
read_reply switch buffer info = do
  len ← field32 buffer 0
  scan switch (length buffer) len 48 (drop 48 buffer) info
