-- ===== src/Json/Rfc.antt =====
-- The selection by a pointer and the one of RFC 6901.
use roundtrip.Base.{
  [], ◌≡◌, refl, ap, ◌⊎◌, inl, inr, Text, List, ◌∷◌, Bool, true, false, Bool-cases, ◌||◌, Option,
  none, some,
}
use roundtrip.Json.{
  Json, members, items, string, number, boolean, null_value, nth, rfc_select, select, select_all,
}
use roundtrip.Pointer.Positional.{has_prefix, in_int, rfc_index-plain, rfc_index-prefixed}
use roundtrip.Tree.{on_some}

-- one of the tokens has a sign, or a zero before other characters
abbrev pub any_prefix : List Text → Bool
any_prefix [] = false
any_prefix (t ∷ ts) = has_prefix t || any_prefix ts

-- How a selection compares with the one of RFC 6901: they are the same, or the tokens have a sign or a
-- leading zero and select nothing by RFC 6901.
abbrev pub NearRfc : List Text → Json → Type 0
NearRfc tokens v =
    (select_all rfc_select tokens v ≡ select_all select tokens v)
    ⊎ ((any_prefix tokens ≡ true) × (select_all rfc_select tokens v ≡ none))

select-rfc_select :
    (token : Text) (v : Json)
    → (rfc_select token v ≡ select token v)
      ⊎ ((has_prefix token ≡ true) × (rfc_select token v ≡ none))
select-rfc_select token (items vs) = elim (Bool-cases (has_prefix token)) [
  | inl y ↦ inr (y, ap (λ o. on_some (in_int o) (nth vs)) (rfc_index-prefixed token y))
  | inr n ↦ inl (ap (λ o. on_some o (nth vs)) (rfc_index-plain token n))
]
select-rfc_select token (members ms) = inl refl
select-rfc_select token (string t) = inl refl
select-rfc_select token (number t) = inl refl
select-rfc_select token (boolean t) = inl refl
select-rfc_select token (null_value t) = inl refl

or_true : (b : Bool) → (b || true) ≡ true
or_true true = refl
or_true false = refl

pub select_all-NearRfc : (tokens : List Text) (v : Json) → NearRfc tokens v
select_all-NearRfc [] v = inl refl
select_all-NearRfc (t ∷ ts) v = elim (select-rfc_select t v) [
  | inr (p, q) ↦ inr (rw p refl, rw q refl)
  | inl e ↦ below (select t v) e (λ x. select_all-NearRfc ts x)
]
  where
    below :
        (o : Option Json)
        → rfc_select t v ≡ o
        → ((x : Json) → NearRfc ts x)
        → (on_some (rfc_select t v) (select_all rfc_select ts) ≡ on_some o (select_all select ts))
          ⊎ ((any_prefix (t ∷ ts) ≡ true)
              × (on_some (rfc_select t v) (select_all rfc_select ts) ≡ none))
    below none e again = inl (rw e refl)
    below (some x) e again = elim (again x) [
      | inl k ↦ inl (rw e k)
      | inr (p, k) ↦ inr (rw p (or_true (has_prefix t)), rw e k)
    ]
