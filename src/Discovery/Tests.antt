-- ===== src/Discovery/Tests.antt =====
-- Tests and witnesses for the discovery, with a drive that describes itself.
use sedutil.Prelude.{
  ℕ, ◌≡◌, ◌≢◌, refl, List, [], ◌∷◌, ◌++◌, ◌+◌, ◌==◌, if◌then◌else◌, replicate, arith,
}
use sedutil.Outcome.{done, hung}
use sedutil.Structures.{TperInfo, Opal20Info, NsGeometryInfo}
use sedutil.Device.{Platform, Request, Reply, DtaDev}
use sedutil.Discovery.Encode.{tper, opalv200, other, data_of, encode, apply, read_feature-encode}
use sedutil.Discovery.{read_feature, fc_opalv200}
use sedutil.Discovery.Loop.{learn, reply_of}
use sedutil.Discovery.Refinement.{features, ns_features, geometry_ns, other_ns, discovery0-learn}
use sedutil.Discovery.Requests.{discovery_request, discovery0}
use sedutil.Discovery.Known.{Consistent}
use sedutil.Discovery.Kept.{discovery0-Keeps}
use sedutil.Discovery.Ends.{discovery0-ne-hung}
use sedutil.Samples.{sample, drive}

abbrev streams : TperInfo
streams = record { acknack = 0; async = 0; buffer_mgt = 0; com_id_mgt = 1; streaming = 1; sync = 1 }

abbrev opal : Opal20Info
opal = record {
  base_com_id = 0x1004;
  num_com_ids = 1;
  initial_pin = 0;
  reverted_pin = 0xff;
  num_admins = 4;
  num_users = 9;
  range_crossing = 1;
}

abbrev geometry : NsGeometryInfo
geometry = record {
  version = 1;
  len = 28;
  align = 1;
  logical_block_size = 512;
  alignment_granularity = 8;
  lowest_aligned_lba = 0;
}

abbrev header : List ℕ
header = replicate 44 0

-- It has a vendor's feature between two others.
abbrev first : List ℕ
first = reply_of features header (tper streams ∷ other 0xc001 (1 ∷ []) ∷ opalv200 opal ∷ [])

abbrev second : List ℕ
second = reply_of ns_features header (geometry_ns geometry ∷ other_ns 0x0404 (1 ∷ 2 ∷ []) ∷ [])

abbrev describes : List Request → Request → Reply
describes earlier req =
    if req.com_id == 1
    then record { rc = 0; buffer = first }
    else record { rc = 0; buffer = second }

abbrev described : Platform
described = record sample { send_cmd = describes }

abbrev after : DtaDev
after = record drive {
  disk_info =
      learn ns_features (geometry_ns geometry ∷ other_ns 0x0404 (1 ∷ 2 ∷ []) ∷ []) (
        learn features (tper streams ∷ other 0xc001 (1 ∷ []) ∷ opalv200 opal ∷ []) drive.disk_info);
  requests = discovery_request 2 ∷ discovery_request 1 ∷ [];
}

discovery0-learn_example : discovery0 described drive ≡ done (tt, after)
unfolding data_of
discovery0-learn_example =
    discovery0-learn described drive header (tper streams)
      (other 0xc001 (1 ∷ []) ∷ opalv200 opal ∷ []) header (geometry_ns geometry)
      (other_ns 0x0404 (1 ∷ 2 ∷ []) ∷ []) refl (ground arith) (omega arith) refl (ground arith)
      (omega arith) refl refl

-- The Opal 2 drive is known as one, with the users that it has and the feature of its vendor.
described_users : after.disk_info.opal20_info.num_users + after.disk_info.vendor_specific ≡ 10
described_users = refl

read_feature-encode_example :
    read_feature (encode (opalv200 opal) ++ 0 ∷ []) drive.disk_info fc_opalv200
    ≡ done (apply (opalv200 opal) drive.disk_info)
read_feature-encode_example =
    read_feature-encode drive.disk_info (0 ∷ []) (opalv200 opal) (ground arith)

discovery0-Keeps_example : Consistent after.disk_info
discovery0-Keeps_example = discovery0-Keeps described drive after refl discovery0-learn_example

discovery0-ne-hung_example : discovery0 described drive ≢ hung
discovery0-ne-hung_example = discovery0-ne-hung described drive
