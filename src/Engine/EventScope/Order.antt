-- ===== src/Engine/EventScope/Order.antt =====
-- The order of the candidates for a thrown code: the first of the sorted ones is the least.
use bpmninja.Prelude.{
  Among, ◌≡◌, refl, sym, inl, inr, String, true, false, Option, none, some, List, [], ◌∷◌,
  string_eq, option_eq, All, All-mono, arith, Bool-cases, subst,
}
use bpmninja.Engine.EventScope.{text_before, Candidate, sorts_before, sort_in, sorted, first}

-- The order of texts is a strict one.
text_before_asym : (a b : String) → text_before a b ≡ true → text_before b a ≡ false
unfolding text_before
text_before_asym String.[] String.[] h = cc
text_before_asym String.[] (String.◌∷◌ d t) h = refl
text_before_asym (String.◌∷◌ c s) String.[] h = cc
text_before_asym (String.◌∷◌ c s) (String.◌∷◌ d t) h = ground (arith, text_before_asym s t)

text_before_between :
    (a b c : String) → text_before a c ≡ true → text_before a b ≡ false → text_before b c ≡ true
unfolding text_before
text_before_between String.[] String.[] c h other = h
text_before_between String.[] (String.◌∷◌ e u) c h other = cc
text_before_between (String.◌∷◌ x s) b String.[] h other = cc
text_before_between (String.◌∷◌ x s) String.[] (String.◌∷◌ d t) h other = refl
text_before_between (String.◌∷◌ x s) (String.◌∷◌ e u) (String.◌∷◌ d t) h other =
    ground (arith, text_before_between s u t)

sorts_before_asym : (a b : Candidate) → sorts_before a b ≡ true → sorts_before b a ≡ false
unfolding sorts_before
sorts_before_asym a b h = ground (arith, text_before_asym a.handler.id b.handler.id)

sorts_before_between :
    (a b c : Candidate)
    → sorts_before a c ≡ true
    → sorts_before a b ≡ false
    → sorts_before b c ≡ true
unfolding sorts_before
sorts_before_between a b c h other =
    ground (arith, text_before_between a.handler.id b.handler.id c.handler.id)

-- No candidate sorts before this one.
abbrev pub IsFirst : Candidate → List Candidate → Type 0
IsFirst c cs = All (λ d. sorts_before d c ≡ false) cs

-- The first of a sorted list, as a case of the list.
abbrev pub Led : List Candidate → Option Candidate → Type 0
Led cs none = cs ≡ []
Led cs (some c) = Among c cs × IsFirst c cs

sorts_before_irrefl : (c : Candidate) → sorts_before c c ≡ false
sorts_before_irrefl c = elim (Bool-cases (sorts_before c c)) [
  | inl self ↦ sorts_before_asym c c self
  | inr other ↦ other
]

sorts_before_trans :
    (a b c : Candidate)
    → sorts_before b c ≡ false
    → sorts_before a b ≡ false
    → sorts_before a c ≡ false
sorts_before_trans a b c later other = elim (Bool-cases (sorts_before a c)) [
  | inl before ↦ cc (later, sorts_before_between a b c before other)
  | inr done ↦ done
]

sort_in-Led :
    (x : Candidate) (cs ys : List Candidate)
    → Led cs (first ys)
    → Led (x ∷ cs) (first (sort_in x ys))
unfolding sort_in
sort_in-Led x cs [] none_left =
    (inl refl, (sorts_before_irrefl x, subst (IsFirst x) (sym none_left) tt))
sort_in-Led x cs (y ∷ ys) (there, least) = elim (Bool-cases (sorts_before y x)) [
  | inl before ↦ rw before (inr there, (sorts_before_asym y x before, least))
  | inr after ↦ rw after (
    inl refl,
    (sorts_before_irrefl x, All-mono (λ z h. sorts_before_trans z y x after h) cs least),
  )
]

pub sorted-Led : (cs : List Candidate) → Led cs (first (sorted cs))
unfolding sorted
sorted-Led [] = refl
sorted-Led (x ∷ xs) = sort_in-Led x xs (sorted xs) (sorted-Led xs)
