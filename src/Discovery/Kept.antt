-- ===== src/Discovery/Kept.antt =====
-- Common/DtaDev.cpp: the discovery and the flags for the subsystem classes.
use sedutil.Prelude.{◌≡◌, subst, ◌==◌, inl, inr, Bool-cases}
use sedutil.Outcome.{Outcome, done}
use sedutil.Structures.{OpalDiskInfo}
use sedutil.Device.{
  Platform, DtaDev, M, pure, gets, lift, modify, ◌>>=◌, ◌>>◌, >>=-eq-done, lift-eq-done, filled,
  min_buffer_length, send_cmd,
}
use sedutil.Device.Exec.{asked}
use sedutil.Discovery.{read_reply, read_feature, read_feature_ns}
use sedutil.Discovery.Known.{
  Consistent, Gives, read_feature-Consistent, read_feature_ns-Consistent, read_reply-Consistent,
}
use sedutil.Discovery.Requests.{discovery_request, know, discovery0, discovery0_ns}

abbrev pub Keeps : M (Unit {0}) → Type 0
Keeps m = (d d' : DtaDev) → Consistent d.disk_info → m d ≡ done (tt, d') → Consistent d'.disk_info

pure-Keeps : Keeps (pure tt)
pure-Keeps d d' h ran =
    let q : d ≡ d' = cc ran in subst (λ (e : DtaDev). Consistent e.disk_info) q h

-- What is read of a reply, and then the rest.
learnt-Keeps :
    (read : OpalDiskInfo → Outcome OpalDiskInfo) (k : M (Unit {0}))
    → ((info : OpalDiskInfo) → Consistent info → Gives Consistent (read info))
    → Keeps k
    → Keeps
        (gets (λ d. d.disk_info) >>= λ info. lift (read info) >>= λ info'. modify (know info') >> k)
learnt-Keeps read k reads rest d d' h ran =
    let (info', d1, taken, after) = >>=-eq-done (lift (read d.disk_info)) _ d ran in
    let learnt = (lift-eq-done (read d.disk_info) d taken).0 in
    rest (know info' d1) d' (reads d.disk_info h info' learnt) after

module _ (p : Platform) where
  discovery0_ns-Keeps : Keeps (discovery0_ns p)
  unfolding discovery0_ns send_cmd
  discovery0_ns-Keeps d d' h ran =
      let reply = p.send_cmd d.requests (discovery_request 0x0002) in
      let d1 = asked (discovery_request 0x0002) d in
      elim (Bool-cases (reply.rc == 0)) [
        | inr e ↦ pure-Keeps d1 d' h (rw e at ran)
        | inl e ↦
            learnt-Keeps (read_reply read_feature_ns (filled min_buffer_length reply.buffer))
              (pure tt)
              (read_reply-Consistent read_feature_ns read_feature_ns-Consistent
                (filled min_buffer_length reply.buffer))
              pure-Keeps d1 d' h (rw e at ran)
      ]

  -- The flag that a drive has some subsystem class is set if and only if the flag of one of the three
  -- classes is; the discovery keeps this, whatever the drive answers and wherever a request fails.
  pub discovery0-Keeps :
      (d d' : DtaDev)
      → Consistent d.disk_info
      → discovery0 p d ≡ done (tt, d')
      → Consistent d'.disk_info
  unfolding discovery0 send_cmd
  discovery0-Keeps d d' h ran =
      let reply = p.send_cmd d.requests (discovery_request 0x0001) in
      let d1 = asked (discovery_request 0x0001) d in
      elim (Bool-cases (reply.rc == 0)) [
        | inr e ↦ pure-Keeps d1 d' h (rw e at ran)
        | inl e ↦
            learnt-Keeps (read_reply read_feature (filled min_buffer_length reply.buffer))
              (discovery0_ns p)
              (read_reply-Consistent read_feature read_feature-Consistent
                (filled min_buffer_length reply.buffer))
              discovery0_ns-Keeps d1 d' h (rw e at ran)
      ]
