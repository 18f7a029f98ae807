-- ===== src/Mvba/Packing.antt =====
-- experiments/dumbomvba-go/core/equivalent_utils.go: packValue and unpackValue, the value that is
-- dispersed with its length in front, with the arithmetic of uint64 and int.
pub mod Bounds
use arladkr_practicaladkr.Prelude.{
  ℕ, ◌+◌, ◌-◌, ◌%◌, ◌≤◌, Bool, true, false, List, ◌++◌, ltb, if◌then◌else◌, length, take, drop,
}
use arladkr_practicaladkr.Prelude.Int.{ℤ, pos, negsuc, ltb_ℤ}
use arladkr_practicaladkr.Prelude.Bytes.{Bytes}
use arladkr_practicaladkr.Wire.{put_be, be_value, max_int}

unfoldable pub pack_value : Bytes → Bytes
pack_value v = put_be 8 (length v) ++ v

-- An error, a panic of the runtime, or a value.
pub data Unpacked : Type 0 where
  refused : Unpacked
  crashed : Unpacked
  unpacked : Bytes → Unpacked

-- The conversion `int(x)` of a uint64.
abbrev pub to_int : ℕ → ℤ
to_int x = if ltb max_int x then negsuc (18446744073709551615 - x) else pos x

-- `unpackValue`. `make([]byte, n)` and `v[8:8+n]` panic where the length is not that of a slice.
unfoldable pub unpack_value : Bytes → Unpacked
unpack_value v =
    let n = be_value 0 (take 8 v) in
    if ltb (length v) 8
    then refused
    else if ltb_ℤ (pos (length v)) (to_int ((8 + n) % 18446744073709551616))
    then refused
    else if ltb (length v) (8 + n)
    then crashed
    else unpacked (take n (drop 8 v))
