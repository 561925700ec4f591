-- ===== src/Document.antt =====
-- json/decoder.go: the decoder's methods `DecodeMeta`, `Decode` and `More`; json/format.go: `Valid`
-- and `Compact`. `Meta` has no `Indent`, and `Decode` does not go on to `decodeInto`.
pub mod Preserves
pub mod Trivia
pub mod Stream
use roundtrip.Base.{
  ℕ, zero, suc, Text, codes, List, [], ◌∷◌, ◌++◌, Bool, true, false, not, ◌&&◌, ◌||◌, Option, none,
  some, if◌then◌else◌, has_prefix, length,
}
use roundtrip.Chars.{Unicode}
use roundtrip.Decoder.{
  Node, Decoder, ParseErrorKind, unexpected_eof, unexpected_token, Result, ok, parse_error, panic,
  out_of_fuel, M, ◌>>=◌, ◌>>◌, pure, fail, is_space_token, is_comment, is_trivia, peek, consume,
  rounds,
}
use roundtrip.Lexer.{Input, Lexer, new_lexer, pending, peek_token as lexer_peek, next as lexer_next}
use roundtrip.Parser.{parse}
use roundtrip.Syntax.{SyntaxOptions, strict, jsonc, json5, comment_allowed}
use roundtrip.Token.{Token, is_eof, is_close_delim}
use roundtrip.TokenList.{Elem, TokenList, new_list, values}

abbrev pub decoder_with : Input → SyntaxOptions → Decoder
decoder_with input opts = record {
  lexer = new_lexer input;
  tokens = new_list 0;
  current = none;
  syntax = opts;
}

abbrev pub new_decoder : Input → Decoder
new_decoder input = decoder_with input strict

abbrev pub new_jsonc_decoder : Input → Decoder
new_jsonc_decoder input = decoder_with input jsonc

abbrev pub new_json5_decoder : Input → Decoder
new_json5_decoder input = decoder_with input json5

pub record Meta : Type 0 where
  pub syntax : SyntaxOptions
  pub tokens : TokenList
  pub root : Node

-- a list of its own for each document
abbrev pub start_tokens : Decoder → Decoder
start_tokens d = record d { tokens = new_list d.tokens.fresh; current = none }

abbrev pub meta_of : Node → M Meta
meta_of root d = ok (record { syntax = d.syntax; tokens = d.tokens; root = root }) d

-- what `Decode` returns before it stores the value
pub data Decoded : Type 0 where
  value : Meta → Decoder → Decoded
  end_of_input : Decoder → Decoded
  failed : ParseErrorKind → Token → Decoder → Decoded
  panicked : Decoded
  no_fuel : Decoded

-- `onlyConsumedTrivia`
abbrev pub only_trivia : List Elem → SyntaxOptions → Bool
only_trivia [] opts = true
only_trivia (e ∷ es) opts = is_trivia e.value opts && only_trivia es opts

abbrev pub is_unexpected_eof : ParseErrorKind → Bool
is_unexpected_eof unexpected_eof = true
is_unexpected_eof _ = false

-- the error handling of `Decode`
abbrev pub decode_result : Result Meta → Decoded
decode_result (ok m d) = value m d
decode_result (parse_error e t d) =
    if is_unexpected_eof e && only_trivia d.tokens.elems d.syntax
    then end_of_input d
    else failed e t d
decode_result panic = panicked
decode_result out_of_fuel = no_fuel

module _ (u : Unicode) where
  parse_value : M Node
  parse_value d = parse u (rounds u d) d

  -- the tokens behind the value, where the input has to end there
  require_end : Bool → M (Unit {0})
  require_end false = pure tt
  require_end true = do
    consume u
    t ← peek u
    if not (is_eof t.type) then fail unexpected_token t else pure tt

  -- `decodeMeta`
  pub decode_meta : Bool → M Meta
  decode_meta require_eof d =
      (parse_value >>= λ root. (require_end require_eof >> meta_of root)) (start_tokens d)

  -- `Decode`
  abbrev pub decode : Decoder → Decoded
  decode d = decode_result (decode_meta false d)

  -- `More`, on the rounds that are left
  pub more_loop : SyntaxOptions → ℕ → Lexer → Option (Bool × Lexer)
  more_loop opts zero l = none
  more_loop opts (suc k) l =
      let (t, shown) = lexer_peek u l in
      let rest = more_loop opts k (lexer_next u shown).1 in
      if is_trivia t opts then rest else some (not (is_eof t.type) && not (is_close_delim t), shown)

  pub more : Decoder → Option (Bool × Lexer)
  more d = more_loop d.syntax (rounds u d) d.lexer

  abbrev is_ok : Result Meta → Bool
  is_ok (ok m d) = true
  is_ok _ = false

  -- `ValidWithOptions`
  abbrev pub valid_with_options : Input → SyntaxOptions → Bool
  valid_with_options input opts = is_ok (decode_meta true (decoder_with input opts))

-- what `Compact` writes for a token
abbrev pub compact_token : Token → Text
compact_token t =
    if is_space_token t.type
    then []
    else if is_comment t.type && has_prefix t.literal (codes "//")
    then t.literal ++ 10 ∷ []
    else t.literal

abbrev pub compact_tokens : List Token → Text
compact_tokens [] = []
compact_tokens (t ∷ ts) = compact_token t ++ compact_tokens ts

-- `CompactWithOptions`, with `none` for an error
abbrev compact_result : Result Meta → Option Text
compact_result (ok m d) = some (compact_tokens (values m.tokens.elems))
compact_result _ = none

abbrev pub compact_with_options : Unicode → Input → SyntaxOptions → Option Text
compact_with_options u input opts = compact_result (decode_meta u true (decoder_with input opts))
