-- ===== src/Parser/Safe.antt =====
-- json/decoder.go: `parse` does not panic, ends within its fuel, and keeps the source text.
use roundtrip.Base.{
  ℕ, zero, suc, ◌≤◌, ◌<◌, ◌≡◌, refl, Text, codes, List, [], ◌∷◌, Bool, true, false, not, ◌&&◌,
  text_eq, arith,
}
use roundtrip.Chars.{Unicode, IsUnicode}
use roundtrip.Decoder.Rules.{
  size, Keeps, Keeps-refl, Keeps-trans, Safe, bind, weaken, branch, pure-Safe, fail-Safe,
}
use roundtrip.Decoder.Scalars.{
  Parsed, consume_peek-Safe, parse_scalar-Safe, parse_identifier-Safe, parse_object_key-Safe,
  object_key_name-Safe,
}
use roundtrip.Decoder.Steps.{
  Shown, Shown-PeekOk, HasElem, load-Safe, next-Safe, insert_anchor_before-Safe,
  insert_anchor_after-Safe,
}
use roundtrip.Decoder.{
  Node, node, Nodes, nil, start_of, end_of, object_field_node, array_element_node, Decoder,
  unexpected_eof, unexpected_token, duplicate_object_key, M, is_string_token, is_identifier,
  is_colon,
}
use roundtrip.Lexer.Lossless.{PeekOk}
use roundtrip.Parser.{
  contains, close, after_child, parse_member, object_loop, parse_object, parse_element, array_loop,
  parse_array, parse_token, parse,
}
use roundtrip.Token.{
  TokenType, eof, identifier, number, string, comma, delim, NodeType, object, array, string_node,
  number_node, Token, is_eof, is_right_brace, is_right_bracket,
}

right_brace-not-eof : (t : Token) → is_right_brace t ≡ true → is_eof t.type ≡ false
unfolding is_right_brace
right_brace-not-eof t h = ground arith

right_bracket-not-eof : (t : Token) → is_right_bracket t ≡ true → is_eof t.type ≡ false
unfolding is_right_bracket
right_bracket-not-eof t h = ground arith

module _ (u : Unicode) (law : IsUnicode u) where
  close-Safe :
      (typ : NodeType) (start : ℕ) (children : Nodes) (t : Token) (d : Decoder) (bound : ℕ)
      → Shown t d
      → is_eof t.type ≡ false
      → HasElem start d
      → size d ≤ bound
      → Safe d (Parsed bound) (close u typ start children d)
  unfolding close
  close-Safe typ start children t d bound s n h fits = bind (next-Safe u t d s) λ i c p (e, less).
      let small = less n in
      pure-Safe (node typ start i children) p.ready
        (record { start = p.elems start h; end = e; smaller = omega arith })

  -- behind a child
  after_child-Safe :
      (is_close : Token → Bool) (ty : TokenType) (start : ℕ) (done : M Node) (more : Token → M Node)
      (t : Token) (d : Decoder) (bound : ℕ)
      → ((x : Token) → is_close x ≡ true → is_eof x.type ≡ false)
      → ((x : Token) (c : Decoder)
          → Keeps d c
          → Shown x c
          → is_eof x.type ≡ false
          → Safe c (Parsed bound) (done c))
      → ((x : Token) (c : Decoder)
          → Keeps d c
          → Shown x c
          → size c < size d
          → Safe c (Parsed bound) (more x c))
      → Shown t d
      → is_eof t.type ≡ false
      → PeekOk d.lexer
      → Safe d (Parsed bound) (after_child u is_close ty done more t d)
  after_child-Safe is_close comma start done more t d bound closes done_ok more_ok s n r =
      bind (next-Safe u t d s) λ i b p (e, less). consume_peek-Safe u law _ b p.ready λ x c q sx.
        branch (is_close x) _ _
          (λ y.
            branch (not c.syntax.trailing_commas) _ _
              (λ _. fail-Safe unexpected_token x (Shown-PeekOk x c sx))
              λ _. done_ok x c (Keeps-trans p q) sx (closes x y))
          λ _. let small = less n in more_ok x c (Keeps-trans p q) sx (omega (arith, q.shrinks))
  after_child-Safe is_close delim start done more t d bound closes done_ok more_ok s n r =
      branch (not (is_close t)) _ _ (λ _. fail-Safe unexpected_token t r)
        λ _. done_ok t d (Keeps-refl r) s n
  after_child-Safe is_close _ start done more t d bound closes done_ok more_ok s n r =
      fail-Safe unexpected_token t r

  module _ (value : M Node) (limit : ℕ)
      (value_ok : (c : Decoder)
        → PeekOk c.lexer
        → size c < limit
        → Safe c (Parsed (size c)) (value c)) where
    parse_member-Safe :
        (names : List Text) (t : Token) (d : Decoder)
        → Shown t d
        → is_eof t.type ≡ false
        → size d < limit
        → Safe d (λ _ c. size c < size d) (parse_member u value names t d)
    parse_member-Safe names t d s n fits = bind (parse_object_key-Safe u t d s n) λ key d1 p1 k.
        bind (object_key_name-Safe key d1 p1.ready k.start) λ name d2 p2 _.
          bind (load-Safe (start_of key) d2 p2.ready (p2.elems (start_of key) k.start))
            λ key_token d3 p3 _.
              branch (contains u names name) _ _
                (λ _. fail-Safe duplicate_object_key key_token p3.ready)
                λ _. consume_peek-Safe u law _ d3 p3.ready λ c d4 p4 sc.
                  branch (is_eof c.type) _ _
                    (λ _. fail-Safe unexpected_eof c (Shown-PeekOk c d4 sc))
                    λ colon_here.
                      branch (not (is_colon c.type)) _ _
                        (λ _. fail-Safe unexpected_token c (Shown-PeekOk c d4 sc))
                        λ _.
                          let brief = k.smaller in
                          bind (next-Safe u c d4 sc) λ i d5 p5 (e, less).
                            let small = less colon_here in
                            bind
                              (value_ok d5 p5.ready
                                (omega (arith, p2.shrinks, p3.shrinks, p4.shrinks)))
                              λ v d6 p6 w.
                                let tail = w.smaller in
                                let start = p4.elems _ (p3.elems _ (p2.elems _ k.start)) in
                                bind
                                  (insert_anchor_before-Safe (start_of key) d6 p6.ready
                                    (p6.elems _ (p5.elems _ start)))
                                  λ s' d7 p7 _.
                                    bind
                                      (insert_anchor_after-Safe (end_of v) d7 p7.ready
                                        (p7.elems _ w.end))
                                      λ e' d8 p8 _.
                                        pure-Safe (name, object_field_node key v s' e') p8.ready
                                          (omega (
                                            arith, p2.shrinks, p3.shrinks, p4.shrinks, p7.shrinks,
                                            p8.shrinks,
                                          ))

    -- the loop, on as many rounds as there is text
    object_loop-Safe :
        (k start : ℕ) (names : List Text) (children : Nodes) (t : Token) (d : Decoder) (bound : ℕ)
        → Shown t d
        → HasElem start d
        → size d < k
        → size d < limit
        → size d ≤ bound
        → Safe d (Parsed bound) (object_loop u value k start names children t d)
    unfolding object_loop
    object_loop-Safe zero start names children t d bound s h enough fits below = elim enough [ ]
    object_loop-Safe (suc k) start names children t d bound s h enough fits below =
        branch (is_eof t.type) _ _ (λ _. fail-Safe unexpected_eof t (Shown-PeekOk t d s))
          λ n.
            branch
              (not (is_string_token t.type)
                && not (d.syntax.ecma_script_identifiers && is_identifier t.type))
              _ _ (λ _. fail-Safe unexpected_token t (Shown-PeekOk t d s))
              λ _. bind (parse_member-Safe names t d s n fits) λ (name, field) b p less.
                consume_peek-Safe u law _ b p.ready λ c e q sc.
                  branch (is_eof c.type) _ _ (λ _. fail-Safe unexpected_eof c (Shown-PeekOk c e sc))
                    λ m.
                      after_child-Safe is_right_brace c.type start _ _ c e bound right_brace-not-eof
                        (λ x f r sx nx.
                          close-Safe object start _ x f bound sx nx
                            (r.elems _ (q.elems _ (p.elems _ h)))
                            (omega (arith, q.shrinks, r.shrinks)))
                        (λ x f r sx smaller.
                          object_loop-Safe k start (name ∷ names) _ x f bound sx
                            (r.elems _ (q.elems _ (p.elems _ h))) (omega (arith, q.shrinks))
                            (omega (arith, q.shrinks)) (omega (arith, q.shrinks)))
                        sc m q.ready

    parse_object-Safe :
        (k : ℕ) (t : Token) (d : Decoder)
        → Shown t d
        → is_eof t.type ≡ false
        → size d ≤ k
        → size d ≤ limit
        → Safe d (Parsed (size d)) (parse_object u value k d)
    unfolding parse_object
    parse_object-Safe k t d s n enough fits = bind (next-Safe u t d s) λ start b p (h, less).
        let small = less n in
        consume_peek-Safe u law _ b p.ready λ x c q sx.
          let start_in = q.elems start h in
          branch (is_right_brace x) _ _
            (λ y.
              weaken
                (close-Safe object start nil x c (size c) sx (right_brace-not-eof x y) start_in
                  (omega arith))
                λ a e r w. record {
                  start = w.start;
                  end = w.end;
                  smaller = omega (arith, w.smaller, q.shrinks);
                })
            λ _.
              weaken
                (object_loop-Safe k start [] nil x c (size c) sx start_in (omega (arith, q.shrinks))
                  (omega (arith, q.shrinks)) (omega arith))
                λ a e r w. record {
                  start = w.start;
                  end = w.end;
                  smaller = omega (arith, w.smaller, q.shrinks);
                }

    parse_element-Safe :
        (d : Decoder)
        → PeekOk d.lexer
        → size d < limit
        → Safe d (λ _ c. size c < size d) (parse_element u value d)
    parse_element-Safe d r fits = bind (value_ok d r fits) λ v b p w.
        let small = w.smaller in
        bind (insert_anchor_before-Safe (start_of v) b p.ready w.start) λ s c q _.
          bind (insert_anchor_after-Safe (end_of v) c q.ready (q.elems _ w.end)) λ e f x _.
            pure-Safe (array_element_node v s e) x.ready (omega (arith, q.shrinks, x.shrinks))

    array_loop-Safe :
        (k start : ℕ) (children : Nodes) (t : Token) (d : Decoder) (bound : ℕ)
        → Shown t d
        → HasElem start d
        → size d < k
        → size d < limit
        → size d ≤ bound
        → Safe d (Parsed bound) (array_loop u value k start children t d)
    unfolding array_loop
    array_loop-Safe zero start children t d bound s h enough fits below = elim enough [ ]
    array_loop-Safe (suc k) start children t d bound s h enough fits below =
        branch (is_eof t.type) _ _ (λ _. fail-Safe unexpected_eof t (Shown-PeekOk t d s))
          λ n. bind (parse_element-Safe d (Shown-PeekOk t d s) fits) λ element b p less.
            consume_peek-Safe u law _ b p.ready λ c e q sc.
              branch (is_eof c.type) _ _ (λ _. fail-Safe unexpected_eof c (Shown-PeekOk c e sc))
                λ m.
                  after_child-Safe is_right_bracket c.type start _ _ c e bound right_bracket-not-eof
                    (λ x f r sx nx.
                      close-Safe array start _ x f bound sx nx (r.elems _ (q.elems _ (p.elems _ h)))
                        (omega (arith, q.shrinks, r.shrinks)))
                    (λ x f r sx smaller.
                      array_loop-Safe k start _ x f bound sx (r.elems _ (q.elems _ (p.elems _ h)))
                        (omega (arith, q.shrinks)) (omega (arith, q.shrinks))
                        (omega (arith, q.shrinks)))
                    sc m q.ready

    parse_array-Safe :
        (k : ℕ) (t : Token) (d : Decoder)
        → Shown t d
        → is_eof t.type ≡ false
        → size d ≤ k
        → size d ≤ limit
        → Safe d (Parsed (size d)) (parse_array u value k d)
    unfolding parse_array
    parse_array-Safe k t d s n enough fits = bind (next-Safe u t d s) λ start b p (h, less).
        let small = less n in
        consume_peek-Safe u law _ b p.ready λ x c q sx.
          let start_in = q.elems start h in
          branch (is_right_bracket x) _ _
            (λ y.
              weaken
                (close-Safe array start nil x c (size c) sx (right_bracket-not-eof x y) start_in
                  (omega arith))
                λ a e r w. record {
                  start = w.start;
                  end = w.end;
                  smaller = omega (arith, w.smaller, q.shrinks);
                })
            λ _.
              weaken
                (array_loop-Safe k start nil x c (size c) sx start_in (omega (arith, q.shrinks))
                  (omega (arith, q.shrinks)) (omega arith))
                λ a e r w. record {
                  start = w.start;
                  end = w.end;
                  smaller = omega (arith, w.smaller, q.shrinks);
                }

    parse_token-Safe :
        (k : ℕ) (ty : TokenType) (t : Token) (d : Decoder)
        → t.type ≡ ty
        → Shown t d
        → size d ≤ k
        → size d ≤ limit
        → Safe d (Parsed (size d)) (parse_token u value k ty t d)
    unfolding parse_token
    parse_token-Safe k eof t d e s enough fits = fail-Safe unexpected_eof t (Shown-PeekOk t d s)
    parse_token-Safe k string t d e s enough fits =
        parse_scalar-Safe u t d s string_node (rw e refl)
    parse_token-Safe k number t d e s enough fits =
        parse_scalar-Safe u t d s number_node (rw e refl)
    parse_token-Safe k identifier t d e s enough fits = parse_identifier-Safe u t d s (rw e refl)
    parse_token-Safe k delim t d e s enough fits =
        branch (text_eq t.literal (codes "{")) _ _
          (λ _. parse_object-Safe k t d s (rw e refl) enough fits)
          λ _.
            branch (text_eq t.literal (codes "[")) _ _
              (λ _. parse_array-Safe k t d s (rw e refl) enough fits)
              λ _. fail-Safe unexpected_token t (Shown-PeekOk t d s)
    parse_token-Safe k _ t d e s enough fits = fail-Safe unexpected_token t (Shown-PeekOk t d s)

  pub parse-Safe :
      (n : ℕ) (d : Decoder) → PeekOk d.lexer → size d < n → Safe d (Parsed (size d)) (parse u n d)
  unfolding parse
  parse-Safe zero d r enough = elim enough [ ]
  parse-Safe (suc n) d r enough = consume_peek-Safe u law _ d r λ t c p s.
      weaken
        (parse_token-Safe (parse u n) n (parse-Safe n) n t.type t c refl s
          (omega (arith, p.shrinks)) (omega (arith, p.shrinks)))
        λ a e q w. record {
          start = w.start;
          end = w.end;
          smaller = omega (arith, w.smaller, p.shrinks);
        }
