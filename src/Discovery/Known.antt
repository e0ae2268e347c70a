-- ===== src/Discovery/Known.antt =====
-- Common/DtaDev.cpp: the flags for the subsystem classes, which the main program goes by.
use sedutil.Prelude.{
  ℕ, zero, suc, ◌+◌, ◌%◌, ◌≡◌, refl, subst, arith, Bool, true, false, List, drop, length, ltb, ◌==◌,
  if◌then◌else◌,
}
use sedutil.Outcome.{Outcome, done, exit, fault, hung, ◌>>=◌}
use sedutil.Structures.{OpalDiskInfo}
use sedutil.Discovery.{
  byte, field16, field32, field64, unknown_feature, read_tper, read_locking, read_geometry,
  read_enterprise, read_opalv100, read_singleuser, read_datastore, read_opalv200, read_blocksidauth,
  read_nslocking, read_nsgeometry, fc_tper, fc_locking, fc_geometry, fc_enterprise, fc_datastore,
  fc_singleuser, fc_opalv100, fc_opalv200, fc_blocksidauth, fc_nslocking, fc_nsgeometry,
  read_feature, read_feature_ns, scan, read_reply,
}

-- The common flag is set if and only if one of the three classes is.
abbrev pub Consistent : OpalDiskInfo → Type 0
Consistent info = ((info.any_opal_ssc == 0) ≡ ((info.enterprise + info.opal10 + info.opal20) == 0))

-- What holds of every result.
abbrev pub Gives : (OpalDiskInfo → Type 0) → Outcome OpalDiskInfo → Type 0
Gives P o = (info : OpalDiskInfo) → o ≡ done info → P info

module _ (P : OpalDiskInfo → Type 0) where
  done-Gives : (info : OpalDiskInfo) → P info → Gives P (done info)
  done-Gives info h info' e = let q : info ≡ info' = cc e in subst P q h

  bind-Gives {ℓ} :
      {A : Type ℓ} (m : Outcome A) (f : A → Outcome OpalDiskInfo)
      → ((a : A) → Gives P (f a))
      → Gives P (m >>= f)
  bind-Gives (done a) f h = h a
  bind-Gives exit f h = λ info e. cc
  bind-Gives fault f h = λ info e. cc
  bind-Gives hung f h = λ info e. cc

  if-Gives :
      (b : Bool) (o k : Outcome OpalDiskInfo) → Gives P o → Gives P k → Gives P (if b then o else k)
  if-Gives true o k h g = h
  if-Gives false o k h g = g

-- Every case of the two switches keeps it.
module _ (body : List ℕ) (info : OpalDiskInfo) (h : Consistent info) where
  counted :
      (b : Bool)
      → Consistent (
          if b
          then record info { vendor_specific = (info.vendor_specific + 1) % 256 }
          else record info { unknown = (info.unknown + 1) % 256 })
  counted true = h
  counted false = h

  unknown_feature-Consistent : (code : ℕ) → Gives Consistent (done (unknown_feature code info))
  unknown_feature-Consistent code = done-Gives Consistent _ (counted (ltb 0xbfff code))

  read_tper-Consistent : Gives Consistent (read_tper body info)
  unfolding read_tper
  read_tper-Consistent = bind-Gives Consistent (byte body 4) _ λ b. done-Gives Consistent _ (h)

  read_locking-Consistent : Gives Consistent (read_locking body info)
  unfolding read_locking
  read_locking-Consistent = bind-Gives Consistent (byte body 4) _ λ b. done-Gives Consistent _ (h)

  read_geometry-Consistent : Gives Consistent (read_geometry body info)
  unfolding read_geometry
  read_geometry-Consistent = bind-Gives Consistent (byte body 4) _ λ b.
      bind-Gives Consistent (field64 body 16) _ λ granularity.
        bind-Gives Consistent (field32 body 12) _
          λ block. bind-Gives Consistent (field64 body 24) _ λ lowest. done-Gives Consistent _ (h)

  read_enterprise-Consistent : Gives Consistent (read_enterprise body info)
  unfolding read_enterprise
  read_enterprise-Consistent = bind-Gives Consistent (byte body 8) _ λ b.
      bind-Gives Consistent (field16 body 4) _ λ base.
        bind-Gives Consistent (field16 body 6) _ λ num. done-Gives Consistent _ (ground arith)

  read_opalv100-Consistent : Gives Consistent (read_opalv100 body info)
  unfolding read_opalv100
  read_opalv100-Consistent =
      bind-Gives Consistent (field16 body 4) _ λ base.
        bind-Gives Consistent (field16 body 6) _ λ num. done-Gives Consistent _ (ground arith)

  read_singleuser-Consistent : Gives Consistent (read_singleuser body info)
  unfolding read_singleuser
  read_singleuser-Consistent =
      bind-Gives Consistent (byte body 8) _
        λ b. bind-Gives Consistent (field32 body 4) _ λ objects. done-Gives Consistent _ (h)

  read_datastore-Consistent : Gives Consistent (read_datastore body info)
  unfolding read_datastore
  read_datastore-Consistent = bind-Gives Consistent (field16 body 6) _ λ tables.
      bind-Gives Consistent (field32 body 8) _
        λ size. bind-Gives Consistent (field32 body 12) _ λ alignment. done-Gives Consistent _ (h)

  read_opalv200-Consistent : Gives Consistent (read_opalv200 body info)
  unfolding read_opalv200
  read_opalv200-Consistent = bind-Gives Consistent (field16 body 4) _ λ base.
      bind-Gives Consistent (byte body 13) _ λ initial_pin.
        bind-Gives Consistent (byte body 14) _ λ reverted_pin.
          bind-Gives Consistent (field16 body 6) _ λ num.
            bind-Gives Consistent (field16 body 9) _ λ admins.
              bind-Gives Consistent (field16 body 11) _ λ users.
                bind-Gives Consistent (byte body 8) _ λ b. done-Gives Consistent _ (ground arith)

  read_blocksidauth-Consistent : Gives Consistent (read_blocksidauth body info)
  unfolding read_blocksidauth
  read_blocksidauth-Consistent =
      bind-Gives Consistent (byte body 4) _
        λ b. bind-Gives Consistent (byte body 5) _ λ c. done-Gives Consistent _ (h)

  read_nslocking-Consistent : Gives Consistent (read_nslocking body info)
  unfolding read_nslocking
  read_nslocking-Consistent = bind-Gives Consistent (byte body 2) _ λ v.
      bind-Gives Consistent (byte body 3) _ λ len. bind-Gives Consistent (byte body 4) _ λ b.
        bind-Gives Consistent (field32 body 8) _ λ max_key.
          bind-Gives Consistent (field32 body 12) _ λ unused_key.
            bind-Gives Consistent (field32 body 16) _ λ max_range. done-Gives Consistent _ (h)

  read_nsgeometry-Consistent : Gives Consistent (read_nsgeometry body info)
  unfolding read_nsgeometry
  read_nsgeometry-Consistent = bind-Gives Consistent (byte body 2) _ λ v.
      bind-Gives Consistent (byte body 3) _ λ len. bind-Gives Consistent (byte body 4) _ λ b.
        bind-Gives Consistent (field64 body 16) _ λ granularity.
          bind-Gives Consistent (field32 body 12) _
            λ block. bind-Gives Consistent (field64 body 24) _ λ lowest. done-Gives Consistent _ (h)

  pub read_feature-Consistent : (code : ℕ) → Gives Consistent (read_feature body info code)
  unfolding read_feature
  read_feature-Consistent code = if-Gives Consistent (code == fc_tper) _ _ read_tper-Consistent (
      if-Gives Consistent (code == fc_locking) _ _ read_locking-Consistent (
        if-Gives Consistent (code == fc_geometry) _ _ read_geometry-Consistent (
          if-Gives Consistent (code == fc_enterprise) _ _ read_enterprise-Consistent (
            if-Gives Consistent (code == fc_opalv100) _ _ read_opalv100-Consistent (
              if-Gives Consistent (code == fc_singleuser) _ _ read_singleuser-Consistent (
                if-Gives Consistent (code == fc_datastore) _ _ read_datastore-Consistent (
                  if-Gives Consistent (code == fc_opalv200) _ _ read_opalv200-Consistent (
                    if-Gives Consistent (code == fc_blocksidauth) _ _ read_blocksidauth-Consistent (
                      if-Gives Consistent (code == fc_nslocking) _ _ read_nslocking-Consistent
                        (unknown_feature-Consistent code))))))))))

  pub read_feature_ns-Consistent : (code : ℕ) → Gives Consistent (read_feature_ns body info code)
  unfolding read_feature_ns
  read_feature_ns-Consistent code =
      if-Gives Consistent (code == fc_nsgeometry) _ _ read_nsgeometry-Consistent
        (unknown_feature-Consistent code)

module _ (switch : List ℕ → OpalDiskInfo → ℕ → Outcome OpalDiskInfo)
    (keeps : (body : List ℕ) (info : OpalDiskInfo)
      → Consistent info
      → (code : ℕ) → Gives Consistent (switch body info code)) where
  -- The information after a feature that was read.
  next-Gives :
      (o : Outcome OpalDiskInfo) (f : OpalDiskInfo → Outcome OpalDiskInfo)
      → Gives Consistent o
      → ((info : OpalDiskInfo) → Consistent info → Gives Consistent (f info))
      → Gives Consistent (o >>= f)
  next-Gives (done info) f h k = k info (h info refl)
  next-Gives exit f h k = λ info e. cc
  next-Gives fault f h k = λ info e. cc
  next-Gives hung f h k = λ info e. cc

  scan-Consistent :
      (fuel len cpos : ℕ) (body : List ℕ) (info : OpalDiskInfo)
      → Consistent info
      → Gives Consistent (scan switch fuel len cpos body info)
  unfolding scan
  scan-Consistent zero len cpos body info h = λ info' e. cc
  scan-Consistent (suc fuel) len cpos body info h = bind-Gives Consistent (field16 body 0) _ λ code.
      next-Gives (switch body info code) _ (keeps body info h code) λ info' h'.
        bind-Gives Consistent (byte body 3) _ λ size.
          if-Gives Consistent (ltb (cpos + (size + 4)) len) _ _
            (scan-Consistent fuel len (cpos + (size + 4)) (drop (size + 4) body) info' h')
            (done-Gives Consistent info' h')

  pub read_reply-Consistent :
      (buffer : List ℕ) (info : OpalDiskInfo)
      → Consistent info
      → Gives Consistent (read_reply switch buffer info)
  unfolding read_reply
  read_reply-Consistent buffer info h =
      bind-Gives Consistent (field32 buffer 0) _
        λ len. scan-Consistent (length buffer) len 48 (drop 48 buffer) info h
