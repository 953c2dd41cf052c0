-- ===== src/Float.antt =====
-- float64 values and their order. A finite float64 is an integer multiple of 2^-1074, so `fin z`
-- stands for z * 2^-1074 (both zeros are `fin (pos 0)`), and every comparison is exact. A comparison
-- with NaN is false.
use l7_proxy.Prelude.{ℕ, ◌^◌, Bool, true, false, not}
use l7_proxy.Prelude.Int.{ℤ, pos, ltb_ℤ}

pub data Float64 : Type 0 where
  nan neg_inf pos_inf : Float64
  fin : ℤ → Float64

-- x < y
unfoldable pub flt : Float64 → Float64 → Bool
flt nan y = false
flt neg_inf nan = false
flt neg_inf neg_inf = false
flt neg_inf pos_inf = true
flt neg_inf (fin z) = true
flt pos_inf y = false
flt (fin x) nan = false
flt (fin x) neg_inf = false
flt (fin x) pos_inf = true
flt (fin x) (fin y) = ltb_ℤ x y

-- x <= y
unfoldable pub fle : Float64 → Float64 → Bool
fle nan y = false
fle x nan = false
fle neg_inf y = true
fle x pos_inf = true
fle pos_inf y = false
fle x neg_inf = false
fle (fin x) (fin y) = not (ltb_ℤ y x)

abbrev pub zero_f : Float64
zero_f = fin (pos 0)

-- the multiple of 2^-1074 that is 1
unfoldable pub unit_scale : ℕ
unit_scale = 2 ^ 1074

abbrev pub one_f : Float64
one_f = fin (pos unit_scale)
