-- ===== src/CommandLine/Examples.antt =====
-- parse_unsigned on texts.
use binary_market_data_feed.Prelude.{◌<◌, ◌≡◌, ◌↔◌, refl, ◌^◌, length, All, ok, err}
use binary_market_data_feed.Text.{codes, from_chars, scan_digits, is_digit, in_range}
use binary_market_data_feed.Text.Numbers.{IsDigit, value_of}
use binary_market_data_feed.CommandLine.{
  invalid_number, whole_number, parse_unsigned, parse_unsigned_iff,
}

parse_unsigned_iff_example : (parse_unsigned 16 (codes "30001") (codes "--port") ≡ ok 30001) ↔ (
    All IsDigit (codes "30001")
    × (0 < length (codes "30001"))
    × (value_of 0 (codes "30001") ≡ 30001)
    × (30001 < 2 ^ 16))
parse_unsigned_iff_example = parse_unsigned_iff 16 (codes "30001") (codes "--port") 30001

takes_port : parse_unsigned 16 (codes "65535") (codes "--port") ≡ ok 65535
unfolding parse_unsigned whole_number from_chars scan_digits is_digit in_range
takes_port = refl

refuses_large_port :
    parse_unsigned 16 (codes "65536") (codes "--port") ≡ err (invalid_number (codes "--port"))
unfolding parse_unsigned whole_number from_chars scan_digits is_digit in_range
refuses_large_port = refl

refuses_trailing_text :
    parse_unsigned 64 (codes "12x") (codes "--port") ≡ err (invalid_number (codes "--port"))
unfolding parse_unsigned whole_number from_chars scan_digits is_digit in_range
refuses_trailing_text = refl

refuses_sign :
    parse_unsigned 64 (codes "-1") (codes "--port") ≡ err (invalid_number (codes "--port"))
unfolding parse_unsigned whole_number from_chars scan_digits is_digit in_range
refuses_sign = refl
