-- ===== src/Http/Parser/Tests.antt =====
-- A message with one field, printed and read.
use networkio.Text.{cut_at, starts_with, tokenize_at, tokens_from, find_char}
use networkio.Base.{◌≡◌, refl, [], ◌∷◌, some, none, arith}
use networkio.Http.Parser.{
  cut_at, substr_from, parse_fields, parse_lines, Parser, parse_success, empty, header_from_string,
  header_to_string,
}
use networkio.Http.Parser.Laws.{AreFields, header_from_string-header_to_string}

-- The line "A", the field "k" with the value "v", and a body of two line ends.
abbrev parser : Parser
parser = record {
  m_header = 65 ∷ [];
  m_header_fields = (107 ∷ [], 118 ∷ []) ∷ [];
  m_body = 13 ∷ 10 ∷ 13 ∷ 10 ∷ [];
}

-- A field that ends with its colon, in "A", "k:": the exception out_of_range.
colon_last : header_from_string empty (65 ∷ 13 ∷ 10 ∷ 107 ∷ 58 ∷ 13 ∷ 10 ∷ 13 ∷ 10 ∷ []) ≡ none
unfolding header_from_string parse_lines parse_fields substr_from cut_at starts_with tokenize_at
    tokens_from find_char
colon_last = refl

parser-AreFields : AreFields parser.m_header_fields
parser-AreFields = (((omega arith, tt), (omega arith, tt), refl, (omega arith, tt)), tt)

header_from_string-header_to_string_example :
    header_from_string empty (header_to_string parser) ≡ some (parse_success, parser)
header_from_string-header_to_string_example =
    header_from_string-header_to_string parser empty (omega arith, tt) parser-AreFields (tt, tt)
      refl
