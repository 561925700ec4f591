-- ===== src/Linked.antt =====
-- internal/list/list.go over a heap, at the type of tokens. A pointer that is not nil leads to an
-- element or a list, so that a store is a function. Loops run on fuel.
pub mod Segments
pub mod Links
pub mod Pieces
pub mod Insert
pub mod Refines
pub mod Remove
pub mod Relabel
pub mod Splice
pub mod Values
use roundtrip.Base.{
  ℕ, zero, suc, ◌+◌, ◌-◌, Bool, true, false, not, Option, none, some, List, [], ◌∷◌, ◌==◌,
  if◌then◌else◌,
}
use roundtrip.Token.{Token}

abbrev pub Ptr : Type 0
Ptr = Option ℕ

-- comparison of pointers
abbrev pub ptr_eq : Ptr → Ptr → Bool
ptr_eq none none = true
ptr_eq (some a) (some b) = a == b
ptr_eq _ _ = false

-- `Elem`
pub record Cell : Type 0 where
  pub prev : Ptr
  pub next : Ptr
  pub list : Ptr
  pub value : Token

-- `List`
pub record Header : Type 0 where
  pub head : Ptr
  pub tail : Ptr
  pub len : ℕ

-- `fresh` is the address that the next allocation of an element returns
pub record Heap : Type 0 where
  pub cell : ℕ → Cell
  pub header : ℕ → Header
  pub fresh : ℕ

pub data Run (A : Type 0) : Type 0 where
  ok : A → Heap → Run A
  panic : Run A
  out_of_fuel : Run A

abbrev pub M : Type 0 → Type 0
M A = Heap → Run A

module _ {A B : Type 0} where
  abbrev pub and_then : Run A → (A → M B) → Run B
  and_then (ok a h) k = k a h
  and_then panic k = panic
  and_then out_of_fuel k = out_of_fuel

  infixl 5 ◌>>=◌ ◌>>◌
  abbrev pub ◌>>=◌ : M A → (A → M B) → M B
  m >>= k = λ h. and_then (m h) k

  abbrev pub ◌>>◌ : M A → M B → M B
  m >> k = m >>= λ _. k

abbrev pub pure : {A : Type 0} → A → M A
pure = ok

abbrev pub fault : {A : Type 0} → M A
fault = λ h. panic

abbrev pub no_fuel : {A : Type 0} → M A
no_fuel = λ h. out_of_fuel

-- The writes.
abbrev pub update {ℓ} : {A : Type ℓ} → (ℕ → A) → ℕ → A → ℕ → A
update f i x a = if a == i then x else f a

abbrev pub write : ℕ → Cell → Heap → Heap
write i c h = record h { cell = update h.cell i c }

unfoldable pub set_prev : ℕ → Ptr → Heap → Heap
set_prev i p h = write i (record (h.cell i) { prev = p }) h

unfoldable pub set_next : ℕ → Ptr → Heap → Heap
set_next i p h = write i (record (h.cell i) { next = p }) h

unfoldable pub set_list : ℕ → Ptr → Heap → Heap
set_list i p h = write i (record (h.cell i) { list = p }) h

abbrev pub set_header : ℕ → Header → Heap → Heap
set_header l x h = record h { header = update h.header l x }

abbrev pub set_len : ℕ → ℕ → Heap → Heap
set_len l n h = set_header l (record (h.header l) { len = n }) h

-- `if prev != nil { prev.Next = e } else { l.Head = e }`
unfoldable pub link_next : ℕ → Ptr → Ptr → Heap → Heap
unfolding set_next
link_next l none e h = set_header l (record (h.header l) { head = e }) h
link_next l (some p) e h = set_next p e h

-- `if next != nil { next.Prev = e } else { l.Tail = e }`
unfoldable pub link_prev : ℕ → Ptr → Ptr → Heap → Heap
unfolding set_prev
link_prev l none e h = set_header l (record (h.header l) { tail = e }) h
link_prev l (some n) e h = set_prev n e h

-- `insert`
pub insert : ℕ → Ptr → Ptr → Token → M ℕ
insert l prev next v h =
    let cell : Cell = record { prev = prev; next = next; list = some l; value = v } in
    let h1 : Heap = record (write h.fresh cell h) { fresh = h.fresh + 1 } in
    let h2 = link_prev l next (some h.fresh) (link_next l prev (some h.fresh) h1) in
    ok h.fresh (set_len l ((h2.header l).len + 1) h2)

-- `check`, of a pointer that is not nil
abbrev pub belongs : ℕ → ℕ → Heap → Bool
belongs l e h = ptr_eq (h.cell e).list (some l)

pub check : ℕ → ℕ → M (Unit {0})
check l e h = if not (belongs l e h) then panic else ok tt h

pub push_front : ℕ → Token → M ℕ
push_front l v h = insert l none (h.header l).head v h

pub push_back : ℕ → Token → M ℕ
push_back l v h = insert l (h.header l).tail none v h

pub insert_before : ℕ → ℕ → Token → M ℕ
insert_before l mark v = check l mark >> λ h. insert l (h.cell mark).prev (some mark) v h

pub insert_after : ℕ → ℕ → Token → M ℕ
insert_after l mark v = check l mark >> λ h. insert l (some mark) (h.cell mark).next v h

-- `for e := src.Head; e != next; e = e.Next { e.list = l }`
pub relabel : ℕ → ℕ → Ptr → Ptr → M (Unit {0})
relabel zero l e stop = no_fuel
relabel (suc k) l none stop = if ptr_eq none stop then pure tt else fault
relabel (suc k) l (some e) stop = λ h.
    let rest = relabel k l (h.cell e).next stop (set_list e (some l) h) in
    if ptr_eq (some e) stop then ok tt h else rest

-- `src.Head.Prev = prev` and `src.Tail.Next = next`
pub deref : Ptr → (ℕ → Heap → Heap) → M (Unit {0})
deref none f h = panic
deref (some e) f h = ok tt (f e h)

abbrev pub empty_header : Header
empty_header = record { head = none; tail = none; len = 0 }

-- `splice` behind its first tests
pub splice_all : ℕ → Ptr → Ptr → ℕ → M (Unit {0})
splice_all l prev next src h =
    let s = h.header src in
    let linked = link_prev l next s.tail (link_next l prev s.head h) in
    (deref s.head (λ e. set_prev e prev)
        >> (deref s.tail (λ e. set_next e next)
            >> (relabel (s.len + 1) l s.head next >> λ g.
                ok tt (set_header src empty_header (set_len l ((g.header l).len + s.len) g)))))
      linked

pub splice : ℕ → Ptr → Ptr → ℕ → M (Unit {0})
splice l prev next src h =
    if src == l
    then panic
    else if (h.header src).len == 0
    then ok tt h
    else splice_all l prev next src h

pub push_front_list : ℕ → ℕ → M (Unit {0})
push_front_list l src h = splice l none (h.header l).head src h

pub push_back_list : ℕ → ℕ → M (Unit {0})
push_back_list l src h = splice l (h.header l).tail none src h

pub insert_list_before : ℕ → ℕ → ℕ → M (Unit {0})
insert_list_before l mark src = check l mark >> λ h. splice l (h.cell mark).prev (some mark) src h

pub insert_list_after : ℕ → ℕ → ℕ → M (Unit {0})
insert_list_after l mark src = check l mark >> λ h. splice l (some mark) (h.cell mark).next src h

-- what `Remove` and `detachRange` leave of an element
abbrev pub forget : ℕ → Heap → Heap
forget e h = write e (record (h.cell e) { prev = none; next = none; list = none }) h

-- `Remove`
pub remove : ℕ → ℕ → M Token
remove l e = check l e >> λ h.
    let c = h.cell e in
    let h1 = link_prev l c.next c.prev (link_next l c.prev c.next h) in
    let h2 = forget e h1 in ok c.value (set_len l ((h2.header l).len - 1) h2)

-- the loop of `checkRange`
pub reaches : ℕ → Ptr → ℕ → M (Unit {0})
reaches zero e last = no_fuel
reaches (suc k) none last = fault
reaches (suc k) (some e) last =
    λ h. let rest = reaches k (h.cell e).next last h in if e == last then ok tt h else rest

abbrev pub rounds : ℕ → Heap → ℕ
rounds l h = (h.header l).len + 1

pub check_range : ℕ → ℕ → ℕ → M (Unit {0})
check_range l first last =
    check l first >> (check l last >> λ h. reaches (rounds l h) (some first) last h)

-- the loop of `detachRange`, with the number of rounds made
pub detach_loop : ℕ → Ptr → Ptr → ℕ → M ℕ
detach_loop zero e after count = no_fuel
detach_loop (suc k) none after count = if ptr_eq none after then pure count else fault
detach_loop (suc k) (some e) after count = λ h.
    let rest = detach_loop k (h.cell e).next after (count + 1) (forget e h) in
    if ptr_eq (some e) after then ok count h else rest

pub detach_range : ℕ → ℕ → Ptr → M ℕ
detach_range l first after h =
    let prev = (h.cell first).prev in
    (detach_loop (rounds l h) (some first) after 0 >>= λ count.
    λ g. ok count (link_prev l after prev (link_next l prev after g)))
      h

-- `ReplaceRange`
pub replace_range : ℕ → ℕ → ℕ → ℕ → M (Unit {0})
replace_range l first last src = check_range l first last >> λ h.
    let prev = (h.cell first).prev in
    let next = (h.cell last).next in
    (detach_range l first next >>= λ removed.
    λ g. splice l prev next src (set_len l ((g.header l).len - removed) g))
      h

-- `Replace`
pub replace : ℕ → ℕ → ℕ → M Token
replace l e src h = (replace_range l e e src >> pure (h.cell e).value) h

-- `Values`, on the rounds that are left
pub values_from : ℕ → Ptr → M (List Token)
values_from zero e = no_fuel
values_from (suc k) none = pure []
values_from (suc k) (some e) =
    λ h. (values_from k (h.cell e).next >>= λ vs. pure ((h.cell e).value ∷ vs)) h

pub values : ℕ → M (List Token)
values l h = values_from (rounds l h) (h.header l).head h
