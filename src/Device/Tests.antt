-- ===== src/Device/Tests.antt =====
-- A drive that holds its first answer back.
use sedutil.Prelude.{ℕ, zero, suc, ◌<◌, ◌≡◌, refl, arith, true, [], ◌∷◌}
use sedutil.Outcome.{done}
use sedutil.Device.{Platform, min_buffer_length, filled, receive}
use sedutil.Device.Exec.{is_waiting, answer, polled, receive-first_ready}
use sedutil.Samples.{sample, drive}

abbrev slow : Platform
slow = record sample {
  send_cmd = λ earlier req. elim earlier [
    | [] ↦ record { rc = 0; buffer = 0 ∷ 0 ∷ 0 ∷ 0 ∷ 0 ∷ 0 ∷ 0 ∷ 0 ∷ 1 ∷ [] }
    | _ ↦ record { rc = 0; buffer = [] }
  ];
}

early : (j : ℕ) → j < 1 → is_waiting (answer slow 1 j drive).buffer ≡ true
early zero lt = refl
early (suc j) lt = absurd (omega (arith, lt))

receive-first_ready_example :
    receive slow 3 1 drive ≡ done ((0, filled min_buffer_length []), polled 1 2 drive)
receive-first_ready_example = receive-first_ready slow 1 1 3 drive (omega arith) early refl
