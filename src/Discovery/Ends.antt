-- ===== src/Discovery/Ends.antt =====
-- Common/DtaDev.cpp: the end of the two discoveries.
use sedutil.Prelude.{ℕ, ◌+◌, ◌≢◌, refl, List, ◌==◌, inl, inr, Bool-cases}
use sedutil.Outcome.{Outcome, done, hung, bind-ne-hung}
use sedutil.Structures.{OpalDiskInfo}
use sedutil.Device.{Platform, DtaDev, M, lift, ◌>>=◌, filled, min_buffer_length, send_cmd}
use sedutil.Device.Exec.{asked}
use sedutil.Discovery.{
  byte, field16, field32, field64, read_tper, read_locking, read_geometry, read_enterprise,
  read_opalv100, read_singleuser, read_datastore, read_opalv200, read_blocksidauth, read_nslocking,
  read_nsgeometry, fc_tper, fc_locking, fc_geometry, fc_enterprise, fc_datastore, fc_singleuser,
  fc_opalv100, fc_opalv200, fc_blocksidauth, fc_nslocking, fc_nsgeometry, read_feature,
  read_feature_ns, read_reply,
}
use sedutil.Discovery.Total.{
  byte-ne-hung, field16-ne-hung, field32-ne-hung, if-ne-hung, read_reply-ne-hung,
}
use sedutil.Discovery.Requests.{discovery_request, know, discovery0, discovery0_ns}

field64-ne-hung : (l : List ℕ) (o : ℕ) → field64 l o ≢ hung
unfolding field64
field64-ne-hung l o = bind-ne-hung (byte l o) _ (byte-ne-hung l o) λ a _.
    bind-ne-hung (byte l (o + 1)) _ (byte-ne-hung l (o + 1)) λ b _.
      bind-ne-hung (byte l (o + 2)) _ (byte-ne-hung l (o + 2)) λ c _.
        bind-ne-hung (byte l (o + 3)) _ (byte-ne-hung l (o + 3)) λ d _.
          bind-ne-hung (byte l (o + 4)) _ (byte-ne-hung l (o + 4)) λ e _.
            bind-ne-hung (byte l (o + 5)) _ (byte-ne-hung l (o + 5)) λ f _.
              bind-ne-hung (byte l (o + 6)) _ (byte-ne-hung l (o + 6))
                λ g _. bind-ne-hung (byte l (o + 7)) _ (byte-ne-hung l (o + 7)) λ h _. λ q. cc

module _ (body : List ℕ) (info : OpalDiskInfo) where
  read_tper-ne-hung : read_tper body info ≢ hung
  unfolding read_tper
  read_tper-ne-hung = bind-ne-hung (byte body 4) _ (byte-ne-hung body 4) λ b _. λ q. cc

  read_locking-ne-hung : read_locking body info ≢ hung
  unfolding read_locking
  read_locking-ne-hung = bind-ne-hung (byte body 4) _ (byte-ne-hung body 4) λ b _. λ q. cc

  read_geometry-ne-hung : read_geometry body info ≢ hung
  unfolding read_geometry
  read_geometry-ne-hung = bind-ne-hung (byte body 4) _ (byte-ne-hung body 4) λ b _.
      bind-ne-hung (field64 body 16) _ (field64-ne-hung body 16) λ granularity _.
        bind-ne-hung (field32 body 12) _ (field32-ne-hung body 12)
          λ block _. bind-ne-hung (field64 body 24) _ (field64-ne-hung body 24) λ lowest _. λ q. cc

  read_enterprise-ne-hung : read_enterprise body info ≢ hung
  unfolding read_enterprise
  read_enterprise-ne-hung = bind-ne-hung (byte body 8) _ (byte-ne-hung body 8) λ b _.
      bind-ne-hung (field16 body 4) _ (field16-ne-hung body 4)
        λ base _. bind-ne-hung (field16 body 6) _ (field16-ne-hung body 6) λ num _. λ q. cc

  read_opalv100-ne-hung : read_opalv100 body info ≢ hung
  unfolding read_opalv100
  read_opalv100-ne-hung =
      bind-ne-hung (field16 body 4) _ (field16-ne-hung body 4)
        λ base _. bind-ne-hung (field16 body 6) _ (field16-ne-hung body 6) λ num _. λ q. cc

  read_singleuser-ne-hung : read_singleuser body info ≢ hung
  unfolding read_singleuser
  read_singleuser-ne-hung =
      bind-ne-hung (byte body 8) _ (byte-ne-hung body 8)
        λ b _. bind-ne-hung (field32 body 4) _ (field32-ne-hung body 4) λ objects _. λ q. cc

  read_datastore-ne-hung : read_datastore body info ≢ hung
  unfolding read_datastore
  read_datastore-ne-hung = bind-ne-hung (field16 body 6) _ (field16-ne-hung body 6) λ tables _.
      bind-ne-hung (field32 body 8) _ (field32-ne-hung body 8)
        λ size _. bind-ne-hung (field32 body 12) _ (field32-ne-hung body 12) λ alignment _. λ q. cc

  read_opalv200-ne-hung : read_opalv200 body info ≢ hung
  unfolding read_opalv200
  read_opalv200-ne-hung = bind-ne-hung (field16 body 4) _ (field16-ne-hung body 4) λ base _.
      bind-ne-hung (byte body 13) _ (byte-ne-hung body 13) λ initial_pin _.
        bind-ne-hung (byte body 14) _ (byte-ne-hung body 14) λ reverted_pin _.
          bind-ne-hung (field16 body 6) _ (field16-ne-hung body 6) λ num _.
            bind-ne-hung (field16 body 9) _ (field16-ne-hung body 9) λ admins _.
              bind-ne-hung (field16 body 11) _ (field16-ne-hung body 11)
                λ users _. bind-ne-hung (byte body 8) _ (byte-ne-hung body 8) λ b _. λ q. cc

  read_blocksidauth-ne-hung : read_blocksidauth body info ≢ hung
  unfolding read_blocksidauth
  read_blocksidauth-ne-hung =
      bind-ne-hung (byte body 4) _ (byte-ne-hung body 4)
        λ b _. bind-ne-hung (byte body 5) _ (byte-ne-hung body 5) λ c _. λ q. cc

  read_nslocking-ne-hung : read_nslocking body info ≢ hung
  unfolding read_nslocking
  read_nslocking-ne-hung = bind-ne-hung (byte body 2) _ (byte-ne-hung body 2) λ v _.
      bind-ne-hung (byte body 3) _ (byte-ne-hung body 3) λ len _.
        bind-ne-hung (byte body 4) _ (byte-ne-hung body 4) λ b _.
          bind-ne-hung (field32 body 8) _ (field32-ne-hung body 8) λ max_key _.
            bind-ne-hung (field32 body 12) _ (field32-ne-hung body 12) λ unused_key _.
              bind-ne-hung (field32 body 16) _ (field32-ne-hung body 16) λ max_range _. λ q. cc

  read_nsgeometry-ne-hung : read_nsgeometry body info ≢ hung
  unfolding read_nsgeometry
  read_nsgeometry-ne-hung = bind-ne-hung (byte body 2) _ (byte-ne-hung body 2) λ v _.
      bind-ne-hung (byte body 3) _ (byte-ne-hung body 3) λ len _.
        bind-ne-hung (byte body 4) _ (byte-ne-hung body 4) λ b _.
          bind-ne-hung (field64 body 16) _ (field64-ne-hung body 16) λ granularity _.
            bind-ne-hung (field32 body 12) _ (field32-ne-hung body 12) λ block _.
              bind-ne-hung (field64 body 24) _ (field64-ne-hung body 24) λ lowest _. λ q. cc

  read_feature-ne-hung : (code : ℕ) → read_feature body info code ≢ hung
  unfolding read_feature
  read_feature-ne-hung code = if-ne-hung (code == fc_tper) read_tper-ne-hung (
      if-ne-hung (code == fc_locking) read_locking-ne-hung (
        if-ne-hung (code == fc_geometry) read_geometry-ne-hung (
          if-ne-hung (code == fc_enterprise) read_enterprise-ne-hung (
            if-ne-hung (code == fc_opalv100) read_opalv100-ne-hung (
              if-ne-hung (code == fc_singleuser) read_singleuser-ne-hung (
                if-ne-hung (code == fc_datastore) read_datastore-ne-hung (
                  if-ne-hung (code == fc_opalv200) read_opalv200-ne-hung (
                    if-ne-hung (code == fc_blocksidauth) read_blocksidauth-ne-hung
                      (if-ne-hung (code == fc_nslocking) read_nslocking-ne-hung (λ q. cc))))))))))

  read_feature_ns-ne-hung : (code : ℕ) → read_feature_ns body info code ≢ hung
  unfolding read_feature_ns
  read_feature_ns-ne-hung code =
      if-ne-hung (code == fc_nsgeometry) read_nsgeometry-ne-hung (λ q. cc)

-- A read of the drive's answer, and then the rest.
learnt-ne-hung :
    (read : OpalDiskInfo → Outcome OpalDiskInfo) (k : OpalDiskInfo → M (Unit {0})) (d : DtaDev)
    → read d.disk_info ≢ hung
    → ((info : OpalDiskInfo) → k info d ≢ hung)
    → (lift (read d.disk_info) >>= k) d ≢ hung
learnt-ne-hung read k d h g = go (read d.disk_info) h
  where
    go : (o : Outcome OpalDiskInfo) → o ≢ hung → (lift o >>= k) d ≢ hung
    go (done info) n = g info
    go Outcome.exit n = λ q. cc
    go Outcome.fault n = λ q. cc
    go hung n = absurd (n refl)

module _ (p : Platform) where
  discovery0_ns-ne-hung : (d : DtaDev) → discovery0_ns p d ≢ hung
  unfolding discovery0_ns send_cmd
  discovery0_ns-ne-hung d =
      let reply = p.send_cmd d.requests (discovery_request 0x0002) in
      let d1 = asked (discovery_request 0x0002) d in
      elim (Bool-cases (reply.rc == 0)) [
        | inr e ↦ rw e (λ q. cc)
        | inl e ↦ rw e (
            learnt-ne-hung (read_reply read_feature_ns (filled min_buffer_length reply.buffer)) _ d1
              (read_reply-ne-hung read_feature_ns read_feature_ns-ne-hung
                (filled min_buffer_length reply.buffer) d1.disk_info)
              (λ info q. cc))
      ]

  -- The discovery ends, whatever the drive answers to its requests: no reply keeps one of the two
  -- loops going.
  pub discovery0-ne-hung : (d : DtaDev) → discovery0 p d ≢ hung
  unfolding discovery0 send_cmd
  discovery0-ne-hung d =
      let reply = p.send_cmd d.requests (discovery_request 0x0001) in
      let d1 = asked (discovery_request 0x0001) d in
      elim (Bool-cases (reply.rc == 0)) [
        | inr e ↦ rw e (λ q. cc)
        | inl e ↦ rw e (
            learnt-ne-hung (read_reply read_feature (filled min_buffer_length reply.buffer)) _ d1
              (read_reply-ne-hung read_feature read_feature-ne-hung
                (filled min_buffer_length reply.buffer) d1.disk_info)
              (λ info. discovery0_ns-ne-hung (know info d1)))
      ]
