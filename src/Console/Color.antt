-- ===== src/Console/Color.antt =====
-- The colors of console.H.
use multi_process.Base.{ℕ}

-- `COLOR_CODE`
pub data ColorCode : Type 0 where
  black blue green cyan red magenta brown light_grey dark_grey light_blue light_green light_cyan
        light_red light_magenta light_brown white :
      ColorCode

abbrev pub color_code : ColorCode → ℕ
color_code black = 0
color_code blue = 1
color_code green = 2
color_code cyan = 3
color_code red = 4
color_code magenta = 5
color_code brown = 6
color_code light_grey = 7
color_code dark_grey = 8
color_code light_blue = 9
color_code light_green = 10
color_code light_cyan = 11
color_code light_red = 12
color_code light_magenta = 13
color_code light_brown = 14
color_code white = 15
