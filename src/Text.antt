-- ===== src/Text.antt =====
-- Text as the C++ library handles it: a `std::string` is the list of its characters' codes. The
-- children have the loops of `std::getline` and `>>`, and `std::stoi` with the decimal printing of
-- an `int`.
pub mod Chars
pub mod Split
pub mod Numbers
pub mod Long
