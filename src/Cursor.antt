-- ===== src/Cursor.antt =====
-- internal/cursor/cursor.go: line, column and byte offset, with one position to go back to.
use roundtrip.Base.{ℕ, ◌+◌, ◌==◌, if◌then◌else◌, Option, none, some}

-- `int` fields: a position stays below the length of the input.
pub record Position : Type 0 where
  pub line : ℕ
  pub column : ℕ
  pub offset : ℕ

pub record Cursor : Type 0 where
  pub position : Position
  pub prev : Option Position

abbrev pub new_cursor : Cursor
new_cursor = record { position = record { line = 1; column = 1; offset = 0 }; prev = none }

-- the `switch r` of `Next`, after the offset has been moved
abbrev pub move : Position → ℕ → Position
move p r =
    if r == b'\r'
    then record p { column = 1 }
    else if r == b'\n'
    then record p { line = p.line + 1; column = 1 }
    else record p { column = p.column + 1 }

-- `Next`
unfoldable pub next : Cursor → ℕ → ℕ → Cursor
next c r size = record {
  position = move (record c.position { offset = c.position.offset + size }) r;
  prev = some c.position;
}

back : Option Position → Cursor → Cursor
back none c = c
back (some p) c = record { position = p; prev = none }

-- `Prev`
unfoldable pub prev : Cursor → Cursor
unfolding back
prev c = back c.prev c
