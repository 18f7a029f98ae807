-- ===== src/Tests/PackingTests.antt =====
-- A packed value, and a forged length.
use arladkr_practicaladkr.Prelude.{◌≤◌, ◌≡◌, ◌↔◌, refl, arith, [], ◌∷◌, length, take}
use arladkr_practicaladkr.Prelude.Bytes.{Bytes}
use arladkr_practicaladkr.Wire.{be_value}
use arladkr_practicaladkr.Mvba.Packing.{pack_value, crashed, unpacked, unpack_value}
use arladkr_practicaladkr.Mvba.Packing.Bounds.{unpack_value-pack_value, unpack_value-crashed}

abbrev value : Bytes
value = 1 ∷ 2 ∷ 3 ∷ []

abbrev forged : Bytes
forged = 255 ∷ 255 ∷ 255 ∷ 255 ∷ 255 ∷ 255 ∷ 255 ∷ 255 ∷ 7 ∷ []

unpack_value-pack_value_example : unpack_value (pack_value value) ≡ unpacked value
unpack_value-pack_value_example = unpack_value-pack_value value (omega arith)

forged-crashed : unpack_value forged ≡ crashed
unfolding unpack_value be_value
forged-crashed = refl

unpack_value-crashed_example :
    (unpack_value forged ≡ crashed)
    ↔ ((8 ≤ length forged) × (9223372036854775800 ≤ be_value 0 (take 8 forged)))
unpack_value-crashed_example =
    unpack_value-crashed forged
      (
        omega arith,
        (
          omega arith,
          (
            omega arith,
            (
              omega arith,
              (omega arith, (omega arith, (omega arith, (omega arith, (omega arith, tt))))),
            ),
          ),
        ),
      )
      (omega arith)
