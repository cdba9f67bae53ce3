-- ===== src/Tests/Codes.antt =====
-- The theorems on QR codes at a stand-in for the encoder.
use rabaska.Prelude.{ℕ, List, ◌≡◌, ◌+◌, ◌^◌, refl, arith, [], ◌∷◌, ◌==◌, All, false}
use rabaska.Prelude.Bytes.{Bytes}
use rabaska.Error.{ok, panic}
use rabaska.Qr.Encoder.{QrCode, low, medium}
use rabaska.Qr.Capacity.{search_loop, capacity}
use rabaska.Qr.Capacity.Search.{IsLargest, capacity-IsLargest}
use rabaska.Qr.Render.{encode_luma, white, paint, paint_if_dark, paint_module, for_range, set_at}
use rabaska.Qr.Render.Regions.{Shows}
use rabaska.Qr.Render.Pixels.{dark_squares, encode_luma-Shows}
use rabaska.Qr.Plan.{shipping_rungs, plan_symbol_size}
use rabaska.Qr.Plan.Best.{IsBest, plan_symbol_size-IsBest}
use rabaska.Qr.Fits.{Code, FitsCode, planned-FitsCode}
use rabaska.Qr.Plan.{rung_waste, plan_loop}
use rabaska.Tests.Toys.{toy_crc, toy_qr, toy_floats}
use rabaska.Tests.Senders.{a_transmitter, a_transmitter-IsValid}

capacity-IsLargest_example :
    IsLargest 10 medium 0 3000 (capacity 10 medium)
    × ((more : ℕ) → search_loop 10 medium (12 + more) 0 3000 ≡ capacity 10 medium)
capacity-IsLargest_example = capacity-IsLargest 10 medium

abbrev diagonal : QrCode
diagonal = record { size = 2; get_module = λ x y. x == y }

encode_luma-Shows_example :
    (luma : Bytes) × (encode_luma 32 (1 ∷ 2 ∷ 3 ∷ []) low 3 4
      ≡ ok (record { luma = luma; width = 30; height = 30; modules = 2 }))
    × Shows 30 (dark_squares diagonal 3 4) luma
encode_luma-Shows_example =
    encode_luma-Shows 32 (1 ∷ 2 ∷ 3 ∷ []) low 3 4 diagonal refl (omega arith)

-- With 2 ^ 31 pixels a module, the side wraps to 0, and the first write is outside the buffer.
too_large : encode_luma 32 (1 ∷ 2 ∷ 3 ∷ []) low (2 ^ 31) 0 ≡ panic
unfolding encode_luma white paint paint_if_dark paint_module for_range set_at
too_large = refl

plan_symbol_size-IsBest_example :
    IsBest shipping_rungs 64 501 (plan_symbol_size shipping_rungs 64 500)
plan_symbol_size-IsBest_example = plan_symbol_size-IsBest shipping_rungs 64 500 (omega arith)

-- Two codes, at which sizes from 20 to 24 are planned.
abbrev two_codes : List Code
two_codes = (40, low) ∷ (20, medium) ∷ []

planned-FitsCode_example : All (FitsCode (a_transmitter false)) two_codes
unfolding capacity search_loop rung_waste plan_symbol_size plan_loop
planned-FitsCode_example =
    planned-FitsCode two_codes 20 24 20 (a_transmitter false) (omega arith) (omega arith) refl
      (a_transmitter-IsValid false) (omega arith) (omega arith, (omega arith, tt))
