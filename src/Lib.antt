-- ===== src/Lib.antt =====
-- A verification library for the Go module roundtrip: JSON, JSONC and JSON5 documents that are read
-- with their source text and written back.
--
-- The program: `internal/cursor` counts positions; `json/lexer.go` turns runes into tokens, one at
-- a time, with one token of lookahead; `json/decoder.go` parses the tokens into a tree of nodes and
-- keeps every token, whitespace and comments too, in a linked list (`internal/list`); a node
-- (`internal/sst`) points to its first and its last element. `json/meta.go` changes such a document in
-- place: it puts copies of a value's tokens into the list and nodes into the tree. Formatting, comment
-- editing, JSON pointers and the string and number routines of the encoder and the decoder stand on
-- these.
--
-- Which file models which part:
--   Base       shared names, tests on numbers and texts, lists measured by native numbers
--   Cursor     internal/cursor/cursor.go: `NewCursor`, `Next`, `Prev`
--   Token      json/types.go, internal/sst/token.go and the delimiters of json/util.go
--   Chars      the classes of runes of json/util.go
--   Lexer      json/lexer.go: each method is the function of its name in snake case
--   Syntax     json/syntax.go
--   Comment    json/comment.go with `commentText` and `commentLiteralText` of json/meta.go
--   Number     `validNumber` of json/util.go, `validNumberWithOptions` of json/unmarshal.go
--   Quote      `unquoteString` of json/unmarshal.go, `appendString` of json/encoder.go
--   TokenList  internal/list/list.go on sequences, for the decoder and for the editing of trees
--   Linked     internal/list/list.go over a heap of linked elements
--   Decoder    json/decoder.go below the loops: state, trivia, scalars, keys
--   Parser     json/decoder.go: `parse`, `parseObject`, `parseArray`
--   Document   json/decoder.go: `DecodeMeta`, `Decode`, `More`; json/format.go: `Valid`, `Compact`
--   Tree       internal/sst/node.go and the reading half of json/meta.go: text, fields, gaps, comments,
--              and json/indent.go: `detectIndent`
--   Edit       json/meta.go: `Replace`, the insertions, the removals and `RenameObjectField`, for
--              values that are nodes
--   Json       the value that a node stands for, and what a token of a pointer selects in a value, by
--              RFC 6901 and with the further array indices that the code reads
--   Access     json/meta.go: `ObjectField`, `ArrayValue` and the like; json/path.go: `At`, `JSONPointer`
--   Changes    json/meta.go: `ReplaceObjectField`, `ReplaceArrayValue`; json/path.go: the changes by
--              path and by pointer, for values that are nodes
--   Equality   json/patch.go: `jsonNodesEqual`, `jsonNumbersEqual`; Equality/Numerals is the description of
--              the numbers that decimal notation denotes
--   Patch      json/patch.go: `validatePatch`, `applyPatch` with its operations, `Patch`
--   Indent     json/format.go: `Indent`
--   Html       json/format.go: `HTMLEscape`
--   Pointer    json/path.go: `parseJSONPointer` and `pointerArrayIndex`; Pointer/Positional is the
--              description of array indices that the selection by a pointer stands on
--   Tests      the theorems at concrete inputs
--
-- State and operations: a text is the sequence of its runes, and the reader of the lexer is the
-- sequence of the runes to come, each with the number of bytes that it took. A method that changes
-- its receiver takes the state and returns the new one. The decoder's operations return a value with
-- the state, a parse error with the state, a panic, or that they ran out of fuel. An element of the
-- token list is named by a number in place of its address; inserting at an element that is not in
-- the list is a panic. `int` fields are natural numbers, since they are bounded by the length of the
-- input.
--
-- A store of linked elements is a function from addresses, and an operation on it returns a value with
-- the new store, a panic, or that it ran out of fuel. A change of a tree returns the document's new
-- token list with the node as it is then, an error, or a panic. A node that a path or a pointer reaches is
-- named by its position below the receiver, the index of the child at each level, and a change by a path
-- returns the receiver with the changed node back at its position. A patch takes a document to a document,
-- an error or a panic. The value of a node is data of its own, `Json`, read from the tree and the tokens;
-- it is what the theorems on pointers, insertions and patches speak of.
--
-- Loops: the lexer's loops run on one more round than there are runes to come, `consume` and `More`
-- on one more round than there are runes to come with the peeked token, and `parse` with its loops
-- on a bound for its depth and its rounds of the same size. Every round takes a token, and a token
-- that does not end the input has a literal, so that the fuel is enough. The loops over linked
-- elements run on one more round than the list has elements, and walks on sequences are structural.
--
-- Parameters: the tables of the package unicode, with what it documents for ASCII, and the number of
-- bytes of a rune, where a node's text is read again.
--
-- Not modelled: the storing and the reading of Go values by reflection (json/marshal.go, the
-- decoding half of json/unmarshal.go, the walking half of json/encoder.go), and with it the changes of a
-- tree by values that are not nodes; the reading of patches (`DecodePatch` of json/patch.go), merge
-- patches (json/merge_patch.go), the depth of a node (json/indent.go), and the texts of errors.
pub mod Base
pub mod Cursor
pub mod Token
pub mod Chars
pub mod Lexer
pub mod Comment
pub mod Syntax
pub mod Number
pub mod Quote
pub mod TokenList
pub mod Linked
pub mod Decoder
pub mod Parser
pub mod Document
pub mod Pointer
pub mod Tree
pub mod Edit
pub mod Json
pub mod Access
pub mod Changes
pub mod Equality
pub mod Patch
pub mod Indent
pub mod Html
pub mod Tests
