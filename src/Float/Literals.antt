-- ===== src/Float/Literals.antt =====
-- The decimal literals of the code, as the doubles that Python reads, and two values of the
-- math module: `lit_0_35` is 0.35, `lit_e_6` is 1e-6.
use rvln.Prelude.{ℕ, Bool}
use rvln.Float.{Float, inf_mag}

abbrev positive : ℕ → Float
positive bits = record { sign = Bool.false; mag = bits }

abbrev pub lit_e_6 : Float
lit_e_6 = positive 0x3EB0C6F7A0B5ED8D

abbrev pub lit_0_001 : Float
lit_0_001 = positive 0x3F50624DD2F1A9FC

abbrev pub lit_0_005 : Float
lit_0_005 = positive 0x3F747AE147AE147B

abbrev pub lit_0_01 : Float
lit_0_01 = positive 0x3F847AE147AE147B

-- 0.01 - 1e-6
abbrev pub lit_0_01_less : Float
lit_0_01_less = positive 0x3F847A5B0FF10ECC

abbrev pub lit_0_015 : Float
lit_0_015 = positive 0x3F8EB851EB851EB8

abbrev pub lit_0_05 : Float
lit_0_05 = positive 0x3FA999999999999A

abbrev pub lit_0_08 : Float
lit_0_08 = positive 0x3FB47AE147AE147B

abbrev pub lit_0_3 : Float
lit_0_3 = positive 0x3FD3333333333333

abbrev pub lit_0_35 : Float
lit_0_35 = positive 0x3FD6666666666666

abbrev pub lit_0_5 : Float
lit_0_5 = positive 0x3FE0000000000000

abbrev pub lit_0_65 : Float
lit_0_65 = positive 0x3FE4CCCCCCCCCCCD

abbrev pub lit_0_75 : Float
lit_0_75 = positive 0x3FE8000000000000

abbrev pub lit_2 : Float
lit_2 = positive 0x4000000000000000

abbrev pub lit_3 : Float
lit_3 = positive 0x4008000000000000

abbrev pub lit_4 : Float
lit_4 = positive 0x4010000000000000

abbrev pub lit_8 : Float
lit_8 = positive 0x4020000000000000

abbrev pub lit_e9 : Float
lit_e9 = positive 0x41CDCD6500000000

-- math.radians(5), math.radians(1) - 1e-6, math.radians(45) + 1e-6
abbrev pub radians_5 : Float
radians_5 = positive 0x3FB657184AE74487

abbrev pub radians_1_less : Float
radians_1_less = positive 0x3F91DF0386741A61

abbrev pub radians_45_more : Float
radians_45_more = positive 0x3FE921FD6D23212F

-- -math.inf
abbrev pub minus_inf : Float
minus_inf = record { sign = Bool.true; mag = inf_mag }

abbrev pub lit_100 : Float
lit_100 = positive 0x4059000000000000

-- pi / 180, by which math.radians multiplies
abbrev pub degree : Float
degree = positive 0x3F91DF46A2529D39

abbrev pub lit_17 : Float
lit_17 = positive 0x4031000000000000

abbrev pub pi : Float
pi = positive 0x400921FB54442D18

abbrev pub lit_0_1 : Float
lit_0_1 = positive 0x3FB999999999999A

abbrev pub lit_30 : Float
lit_30 = positive 0x403E000000000000

abbrev pub lit_0_09 : Float
lit_0_09 = positive 0x3FB70A3D70A3D70A
