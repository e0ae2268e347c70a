-- ===== src/Structures.antt =====
-- Common/DtaStructures.h: what the program knows about a disk. The values of each feature, which
-- `OPAL_DiskInfo` keeps side by side, stand in a record of their own. A flag is 0 or 1.
use sedutil.Prelude.{ℕ, List, replicate}

-- ATA commands needed for TCG storage communication.
pub data AtaCommand : Type 0 where
  if_recv if_send identify : AtaCommand

pub data DeviceType : Type 0 where
  device_type_ata device_type_sas device_type_nvme device_type_usb device_type_other : DeviceType

pub record TperInfo : Type 0 where
  pub acknack : ℕ
  pub async : ℕ
  pub buffer_mgt : ℕ
  pub com_id_mgt : ℕ
  pub streaming : ℕ
  pub sync : ℕ

pub record LockingInfo : Type 0 where
  pub locked : ℕ
  pub locking_enabled : ℕ
  pub locking_supported : ℕ
  pub mbr_done : ℕ
  pub mbr_enabled : ℕ
  pub media_encrypt : ℕ

pub record GeometryInfo : Type 0 where
  pub align : ℕ
  pub alignment_granularity : ℕ
  pub logical_block_size : ℕ
  pub lowest_aligned_lba : ℕ

pub record EnterpriseInfo : Type 0 where
  pub range_crossing : ℕ
  pub base_com_id : ℕ
  pub num_com_id : ℕ

pub record SingleUserInfo : Type 0 where
  pub any : ℕ
  pub all : ℕ
  pub policy : ℕ
  pub locking_objects : ℕ

pub record BlockSidInfo : Type 0 where
  pub sid_value_state : ℕ
  pub sid_blocked_state : ℕ
  pub hardware_reset : ℕ

pub record NsLockingInfo : Type 0 where
  pub version : ℕ
  pub len : ℕ
  pub range_c : ℕ
  pub range_p : ℕ
  pub max_key_count : ℕ
  pub unused_key_count : ℕ
  pub max_range_per_ns : ℕ

pub record NsGeometryInfo : Type 0 where
  pub version : ℕ
  pub len : ℕ
  pub align : ℕ
  pub logical_block_size : ℕ
  pub alignment_granularity : ℕ
  pub lowest_aligned_lba : ℕ

pub record DataStoreInfo : Type 0 where
  pub max_tables : ℕ
  pub max_table_size : ℕ
  pub alignment : ℕ

pub record Opal10Info : Type 0 where
  pub base_com_id : ℕ
  pub num_com_ids : ℕ

pub record Opal20Info : Type 0 where
  pub base_com_id : ℕ
  pub num_com_ids : ℕ
  pub initial_pin : ℕ
  pub reverted_pin : ℕ
  pub num_admins : ℕ
  pub num_users : ℕ
  pub range_crossing : ℕ

pub record OpalDiskInfo : Type 0 where
  pub unknown : ℕ
  pub vendor_specific : ℕ
  pub tper : ℕ
  pub locking : ℕ
  pub geometry : ℕ
  pub enterprise : ℕ
  pub single_user : ℕ
  pub data_store : ℕ
  pub opal20 : ℕ
  pub opal10 : ℕ
  pub properties : ℕ
  pub any_opal_ssc : ℕ
  pub block_sid_authentication : ℕ
  pub ns_locking : ℕ
  pub ns_geometry : ℕ
  pub tper_info : TperInfo
  pub locking_info : LockingInfo
  pub geometry_info : GeometryInfo
  pub enterprise_info : EnterpriseInfo
  pub single_user_info : SingleUserInfo
  pub block_sid_info : BlockSidInfo
  pub ns_locking_info : NsLockingInfo
  pub ns_geometry_info : NsGeometryInfo
  pub data_store_info : DataStoreInfo
  pub opal10_info : Opal10Info
  pub opal20_info : Opal20Info
  pub dev_type : DeviceType
  pub serial_num : List ℕ
  pub firmware_rev : List ℕ
  pub model_num : List ℕ

-- After the memset: the first device type has the number 0.
abbrev no_tper_info : TperInfo
no_tper_info = record {
  acknack = 0;
  async = 0;
  buffer_mgt = 0;
  com_id_mgt = 0;
  streaming = 0;
  sync = 0;
}

abbrev no_locking_info : LockingInfo
no_locking_info = record {
  locked = 0;
  locking_enabled = 0;
  locking_supported = 0;
  mbr_done = 0;
  mbr_enabled = 0;
  media_encrypt = 0;
}

abbrev no_geometry_info : GeometryInfo
no_geometry_info = record {
  align = 0;
  alignment_granularity = 0;
  logical_block_size = 0;
  lowest_aligned_lba = 0;
}

abbrev no_enterprise_info : EnterpriseInfo
no_enterprise_info = record { range_crossing = 0; base_com_id = 0; num_com_id = 0 }

abbrev no_single_user_info : SingleUserInfo
no_single_user_info = record { any = 0; all = 0; policy = 0; locking_objects = 0 }

abbrev no_block_sid_info : BlockSidInfo
no_block_sid_info = record { sid_value_state = 0; sid_blocked_state = 0; hardware_reset = 0 }

abbrev no_ns_locking_info : NsLockingInfo
no_ns_locking_info = record {
  version = 0;
  len = 0;
  range_c = 0;
  range_p = 0;
  max_key_count = 0;
  unused_key_count = 0;
  max_range_per_ns = 0;
}

abbrev no_ns_geometry_info : NsGeometryInfo
no_ns_geometry_info = record {
  version = 0;
  len = 0;
  align = 0;
  logical_block_size = 0;
  alignment_granularity = 0;
  lowest_aligned_lba = 0;
}

abbrev no_data_store_info : DataStoreInfo
no_data_store_info = record { max_tables = 0; max_table_size = 0; alignment = 0 }

abbrev no_opal10_info : Opal10Info
no_opal10_info = record { base_com_id = 0; num_com_ids = 0 }

abbrev no_opal20_info : Opal20Info
no_opal20_info = record {
  base_com_id = 0;
  num_com_ids = 0;
  initial_pin = 0;
  reverted_pin = 0;
  num_admins = 0;
  num_users = 0;
  range_crossing = 0;
}

abbrev pub no_info : OpalDiskInfo
no_info = record {
  unknown = 0;
  vendor_specific = 0;
  tper = 0;
  locking = 0;
  geometry = 0;
  enterprise = 0;
  single_user = 0;
  data_store = 0;
  opal20 = 0;
  opal10 = 0;
  properties = 0;
  any_opal_ssc = 0;
  block_sid_authentication = 0;
  ns_locking = 0;
  ns_geometry = 0;
  tper_info = no_tper_info;
  locking_info = no_locking_info;
  geometry_info = no_geometry_info;
  enterprise_info = no_enterprise_info;
  single_user_info = no_single_user_info;
  block_sid_info = no_block_sid_info;
  ns_locking_info = no_ns_locking_info;
  ns_geometry_info = no_ns_geometry_info;
  data_store_info = no_data_store_info;
  opal10_info = no_opal10_info;
  opal20_info = no_opal20_info;
  dev_type = device_type_ata;
  serial_num = replicate 20 0;
  firmware_rev = replicate 8 0;
  model_num = replicate 40 0;
}
