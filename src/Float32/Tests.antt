-- ===== src/Float32/Tests.antt =====
-- Values of the float operations that can be looked up in any table of binary32.
use aeb_node.Prelude.{◌≡◌, refl, true, false, some, none}
use aeb_node.Prelude.Int.{negsuc}
use aeb_node.Prelude.Text.{codes}
use aeb_node.Float32.Text.{stof}
use aeb_node.Float32.{quiet_nan, f_lt, f_le, f_sub, f_mul, f_div, f_of_unsigned, f_to_int}

minus_45_less_45 : f_lt 0xc234_0000 0x4234_0000 ≡ true
unfolding f_lt
minus_45_less_45 = refl

nan_not_le : f_le 0x7fc0_0000 0x7fc0_0000 ≡ false
unfolding f_le
nan_not_le = refl

-- 45 - (-45) = 90, 90 / 5 = 18, 1 / 3 = 0x3eaaaaab, 0.1 * 0.1 = 0x3c23d70b
sub_45 : f_sub 0x4234_0000 0xc234_0000 ≡ 0x42b4_0000
unfolding f_sub
sub_45 = refl

div_90 : f_div 0x42b4_0000 0x40a0_0000 ≡ 0x4190_0000
unfolding f_div
div_90 = refl

third : f_div 0x3f80_0000 0x4040_0000 ≡ 0x3eaa_aaab
unfolding f_div
third = refl

square_of_tenth : f_mul 0x3dcc_cccd 0x3dcc_cccd ≡ 0x3c23_d70b
unfolding f_mul
square_of_tenth = refl

round_2000 : f_of_unsigned 2000 ≡ 0x44fa_0000
unfolding f_of_unsigned
round_2000 = refl

truncate : f_to_int 0xc028_0000 ≡ some (negsuc 1)
unfolding f_to_int
truncate = refl

too_wide : f_to_int 0x4f00_0000 ≡ none
unfolding f_to_int
too_wide = refl

stof_plain : stof (codes "-45.0") ≡ some 0xc234_0000
unfolding stof
stof_plain = refl

stof_exponent : stof (codes " 2e3mm") ≡ some 0x44fa_0000
unfolding stof
stof_exponent = refl

stof_hexadecimal : stof (codes "0x1.8p1") ≡ some 0x4040_0000
unfolding stof
stof_hexadecimal = refl

stof_too_small : stof (codes "1e-46") ≡ none
unfolding stof
stof_too_small = refl

stof_nan : stof (codes "NaN") ≡ some quiet_nan
unfolding stof
stof_nan = refl
