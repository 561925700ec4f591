-- ===== src/Lexer/Moves.antt =====
-- What reading does to the lexer: the runes that it moves over, the position, and the consumers'
-- loops.
use roundtrip.Base.{
  ℕ, zero, suc, ◌+◌, ◌<◌, ◌≡◌, refl, ◌⊎◌, inl, inr, ap, sym, ◌∙◌, Text, [], ◌∷◌, ◌++◌, Bool, true,
  false, none, some, length, length-append, append_assoc, append-nil, Bool-cases, All, arith, subst,
  ltb, if◌then◌else◌,
}
use roundtrip.Cursor.{Position, move, next as cursor_next, prev as cursor_prev}
use roundtrip.Lexer.{
  Input, runes, Lexer, failed, got, read_rune, unread_rune, peek_rune, run_loop, fuel_of, take_run,
  put_back,
}

-- `utf8.RuneLen`
abbrev pub rune_len : ℕ → ℕ
rune_len r = if ltb r 0x80 then 1 else if ltb r 0x800 then 2 else if ltb r 0x10000 then 3 else 4

-- Every rune takes the bytes of its encoding: the input is valid UTF-8.
abbrev pub IsUtf8 : Input → Type 0
IsUtf8 = All (λ p. p.1 ≡ rune_len p.0)

-- the position behind a text
abbrev pub advance : Position → Text → Position
advance p [] = p
advance p (r ∷ s) = advance (move (record p { offset = p.offset + rune_len r }) r) s

advance-append : (s t : Text) (p : Position) → advance p (s ++ t) ≡ advance (advance p s) t
advance-append [] t p = refl
advance-append (r ∷ s) t p = advance-append s t _

-- `l'` is `l` moved over `s`.
pub record Moved (l : Lexer) (s : Text) (l' : Lexer) : Type 0 where
  pub text : runes l.reader ≡ s ++ runes l'.reader
  pub count : length l.reader ≡ length s + length l'.reader
  pub peek : l'.peek ≡ l.peek
  pub utf8 : IsUtf8 l.reader → IsUtf8 l'.reader
  pub placed : IsUtf8 l.reader → l'.cursor.position ≡ advance l.cursor.position s

pub Moved-refl : (l : Lexer) → Moved l [] l
Moved-refl l = record {
  text = refl;
  count = omega arith;
  peek = refl;
  utf8 = λ v. v;
  placed = λ v. refl;
}

pub Moved-trans : {l m n : Lexer} {s t : Text} → Moved l s m → Moved m t n → Moved l (s ++ t) n
Moved-trans {n} {s} {t} p q = record {
  text = p.text ∙ ap (◌++◌ s) q.text ∙ sym (append_assoc s t (runes n.reader));
  count = omega (arith, p.count, q.count, length-append s t);
  peek = q.peek ∙ p.peek;
  utf8 = λ v. q.utf8 (p.utf8 v);
  placed =
      λ v. q.placed (p.utf8 v) ∙ ap (λ x. advance x t) (p.placed v) ∙ sym (advance-append s t _);
}

-- One rune was read, and can be put back: the position is then the old one.
pub record ReadOne (l : Lexer) (r : ℕ) (l' : Lexer) : Type 0 where
  pub moved : Moved l (r ∷ []) l'
  pub back : Moved l [] (put_back l')
  pub back_position : (put_back l').cursor.position ≡ l.cursor.position
  pub back_done : (unread_rune l').0 ≡ true
  pub back_reader : (put_back l').reader ≡ l.reader

-- The input has ended.
pub record Ended (l l' : Lexer) : Type 0 where
  pub moved : Moved l [] l'
  pub nothing : l.reader ≡ []
  pub position : l'.cursor.position ≡ l.cursor.position

abbrev pub ReadOutcome : Lexer → Type 0
ReadOutcome l =
    ((l' : Lexer) × (read_rune l ≡ failed l') × Ended l l')
    ⊎ ((r : ℕ) × (l' : Lexer) × (read_rune l ≡ got r l') × ReadOne l r l')

read_from-outcome : (rs : Input) (l : Lexer) → l.reader ≡ rs → ReadOutcome l
unfolding read_rune unread_rune cursor_next cursor_prev
read_from-outcome [] l e = inl (
  record l { last = none },
  rw e,
  record {
    moved = record {
      text = refl;
      count = omega arith;
      peek = refl;
      utf8 = λ v. v;
      placed = λ v. refl;
    };
    nothing = e;
    position = refl;
  },
)
read_from-outcome ((r, n) ∷ rs) l e = inr (
  r,
  record l { reader = rs; last = some (r, n); cursor = cursor_next l.cursor r n },
  rw e,
  record {
    moved = record {
      text = ap runes e;
      count = ap length e ∙ omega arith;
      peek = refl;
      utf8 = λ v. (subst IsUtf8 e v).1;
      placed = λ v.
          ap (λ k. move (record l.cursor.position { offset = l.cursor.position.offset + k }) r)
            (subst IsUtf8 e v).0;
    };
    back = record {
      text = ap runes e;
      count = ap length e ∙ omega arith;
      peek = refl;
      utf8 = subst IsUtf8 e;
      placed = λ v. refl;
    };
    back_position = refl;
    back_done = refl;
    back_reader = sym e;
  },
)

pub read_outcome : (l : Lexer) → ReadOutcome l
read_outcome l = read_from-outcome l.reader l refl

-- Peeking at a rune moves nothing.
pub peek_outcome :
    (l : Lexer)
    → ((l' : Lexer) × (peek_rune l ≡ failed l') × Ended l l')
      ⊎ ((r : ℕ) × (l' : Lexer) × (peek_rune l ≡ got r l')
          × Moved l [] l'
          × (l'.reader ≡ l.reader)
          × (l'.cursor.position ≡ l.cursor.position)
          × ((s : Text) × (runes l.reader ≡ r ∷ s)))
unfolding peek_rune
peek_outcome l = elim (read_outcome l) [
  | inl (l', e, h) ↦ inl (l', rw (e, peek_rune), h)
  | inr (r, l', e, h) ↦ inr (
    r,
    put_back l',
    rw (e, peek_rune, h.back_done),
    h.back,
    h.back_reader,
    h.back_position,
    (runes l'.reader, h.moved.text),
  )
]

abbrev pub Rejects : (ℕ → Bool) → Text → Type 0
Rejects accept [] = Unit
Rejects accept (r ∷ _) = accept r ≡ false

-- The loop took `run`, the longest run of accepted runes.
pub record TookRun (accept : ℕ → Bool) (l : Lexer) (lit : Text) (r : Text × Bool × Lexer)
    : Type 0 where
  pub run : Text
  pub literal : r.0 ≡ lit ++ run
  pub moved : Moved l run r.2
  pub accepted : All (λ c. accept c ≡ true) run
  pub maximal : Rejects accept (runes r.2.reader)

run_loop-TookRun :
    (accept : ℕ → Bool) (k : ℕ) (lit : Text) (l : Lexer)
    → length l.reader < k
    → TookRun accept l lit (run_loop accept k lit l)
unfolding run_loop
run_loop-TookRun accept zero lit l h = elim h [ ]
run_loop-TookRun accept (suc k) lit l h = elim (read_outcome l) [
  | inl (l', e, d) ↦
      rw (e, run_loop)
        (record {
          run = [];
          literal = sym (append-nil lit);
          moved = d.moved;
          accepted = tt;
          maximal = rw (sym d.moved.text ∙ ap runes d.nothing) tt;
        })
  | inr (r, l', e, d) ↦ elim (Bool-cases (accept r)) [
    | inl y ↦
        let rest = run_loop-TookRun accept k (lit ++ r ∷ []) l' (omega (arith, d.moved.count)) in
        rw (e, run_loop, y)
          (record {
            run = r ∷ rest.run;
            literal = rest.literal ∙ append_assoc lit (r ∷ []) rest.run;
            moved = Moved-trans d.moved rest.moved;
            accepted = (y, rest.accepted);
            maximal = rest.maximal;
          })
    | inr n ↦
        rw (e, run_loop, n)
          (record {
            run = [];
            literal = sym (append-nil lit);
            moved = d.back;
            accepted = tt;
            maximal = rw (sym d.back.text ∙ d.moved.text) n;
          })
  ]
]

pub take_run-TookRun : (accept : ℕ → Bool) (l : Lexer) → TookRun accept l [] (take_run accept l)
unfolding take_run
take_run-TookRun accept l = run_loop-TookRun accept (fuel_of l) [] l (omega arith)
