-- ===== src/Discovery/Requests.antt =====
-- Common/DtaDev.cpp: the two discovery requests, and what is asked of the result.
use sedutil.Prelude.{ℕ, [], ◌==◌, if◌then◌else◌}
use sedutil.Structures.{if_recv, OpalDiskInfo}
use sedutil.Device.{
  modify, Platform, Request, DtaDev, M, pure, ◌>>=◌, ◌>>◌, lift, gets, filled, min_buffer_length,
  send_cmd,
}
use sedutil.Discovery.{read_feature, read_feature_ns, read_reply}

-- `sendCmd(IF_RECV, 0x01, comID, d0Response, MIN_BUFFER_LENGTH)` with a cleared buffer
abbrev pub discovery_request : ℕ → Request
discovery_request com_id = record {
  command = if_recv;
  protocol = 0x01;
  com_id = com_id;
  buffer = [];
  size = min_buffer_length;
}

abbrev pub know : OpalDiskInfo → DtaDev → DtaDev
know info d = record d { disk_info = info }

module _ (p : Platform) where
  unfoldable pub discovery0_ns : M (Unit {0})
  discovery0_ns = do
    reply ← send_cmd p (discovery_request 0x0002)
    if reply.rc == 0
        then (do
          info ← gets (λ d. d.disk_info)
          info' ← lift (read_reply read_feature_ns (filled min_buffer_length reply.buffer) info)
          modify (know info'))
        else pure tt

  unfoldable pub discovery0 : M (Unit {0})
  discovery0 = do
    reply ← send_cmd p (discovery_request 0x0001)
    if reply.rc == 0
        then (do
          info ← gets (λ d. d.disk_info)
          info' ← lift (read_reply read_feature (filled min_buffer_length reply.buffer) info)
          modify (know info')
          discovery0_ns)
        else pure tt

-- The questions of the main program, on the information of a device.
unfoldable pub is_opal2 : OpalDiskInfo → ℕ
is_opal2 info = info.opal20

unfoldable pub is_opal1 : OpalDiskInfo → ℕ
is_opal1 info = info.opal10

unfoldable pub is_eprise : OpalDiskInfo → ℕ
is_eprise info = info.enterprise

unfoldable pub is_any_ssc : OpalDiskInfo → ℕ
is_any_ssc info = info.any_opal_ssc

unfoldable pub mbr_enabled : OpalDiskInfo → ℕ
mbr_enabled info = info.locking_info.mbr_enabled

unfoldable pub mbr_done : OpalDiskInfo → ℕ
mbr_done info = info.locking_info.mbr_done

unfoldable pub locked : OpalDiskInfo → ℕ
locked info = info.locking_info.locked

unfoldable pub locking_enabled : OpalDiskInfo → ℕ
locking_enabled info = info.locking_info.locking_enabled
