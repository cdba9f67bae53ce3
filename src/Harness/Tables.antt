-- ===== src/Harness/Tables.antt =====
-- harness/src/main.rs: no row of `cmd_modes` fails.
use rabaska.Prelude.{ℕ, ◌≡◌, ◌+◌, inl, refl, List, [], ◌∷◌, length, All, arith}
use rabaska.Prelude.Bytes.{Bytes, IsArray}
use rabaska.Floats.{Floats}
use rabaska.Wire.Types.{Mode}
use rabaska.Wire.Frame.{Crc}
use rabaska.Crypto.Primitives.{Primitives}
use rabaska.Pipeline.Services.{Deflate, Fountain}
use rabaska.Pipeline.Transfer.{Recovers}
use rabaska.Pipeline.Transfer.Sending.{sent_object}
use rabaska.Harness.{keys_for, config_for, schedule_of}
use rabaska.Harness.Rounds.{IsSafe}
use rabaska.Harness.Run.{run_tx, run-IsSafe}
use rabaska.Harness.Samples.{phone_to_phone, wireguard_config}
use rabaska.Harness.Commands.{Draw, peers_of, full_ladder, mode_rows, modes_loop, cmd_modes}

module _ ⦃crc : Crc⦄ ⦃prim : Primitives⦄ ⦃deflate : Deflate⦄ ⦃fountain : Fountain⦄
    ⦃f : Floats⦄ where
  -- Draws of the right lengths, and a fountain code that recovers what is sent with them.
  record IsFair (draw : ℕ → Draw) : Type 0 where
    pub sid : (i : ℕ) → IsArray 8 (draw i).sid
    pub s_eph : (i : ℕ) → IsArray 32 (prim.public_key (draw i).s_eph)
    pub nonce : (i : ℕ) → IsArray 24 (draw i).nonce
    pub recovers :
        (i : ℕ) (mode : Mode)
        → Recovers
            (run_tx mode (peers_of (draw i)) (draw i).nonce wireguard_config).beacon.oti
            (sent_object
              (keys_for mode (peers_of (draw i))).0
              (draw i).nonce
              (config_for mode (peers_of (draw i)))
              wireguard_config)
            (run_tx mode (peers_of (draw i)) (draw i).nonce wireguard_config).packets

  modes_loop-IsSafe :
      (draw : ℕ → Draw) (i : ℕ) (rows : List (Mode × Bytes × Bytes))
      → IsFair draw
      → All (λ row. IsSafe 400_000 row.outcome) (modes_loop draw i rows)
  unfolding modes_loop schedule_of
  modes_loop-IsSafe draw i [] fair = tt
  modes_loop-IsSafe draw i ((mode, label, note) ∷ rows) fair = (
    run-IsSafe mode (draw i).s_eph (draw i).s_id (draw i).r_eph (draw i).r_id (draw i).sid
        (draw i).nonce wireguard_config full_ladder phone_to_phone 0xC0FFEE (fair.sid i)
        (fair.s_eph i) (fair.nonce i) (omega arith) (inl (omega arith)) (omega arith)
        (fair.recovers i mode),
    modes_loop-IsSafe draw (i + 1) rows fair,
  )

  -- If the draws have their lengths and the fountain code's decoder makes what is sent or nothing, cmd_modes prints
  -- no FAIL but for a run that does not converge: in each of its four rows the run delivers the payload, in at most
  -- 400000 frames and the time that these take, or does not converge.
  cmd_modes-IsSafe :
      (draw : ℕ → Draw) (nonce16 : Bytes)
      → IsFair draw
      → (length (cmd_modes draw nonce16).0 ≡ 4)
        × All (λ row. IsSafe 400_000 row.outcome) (cmd_modes draw nonce16).0
  unfolding cmd_modes modes_loop
  cmd_modes-IsSafe draw nonce16 fair = (refl, modes_loop-IsSafe draw 0 mode_rows fair)
