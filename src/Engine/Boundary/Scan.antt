-- ===== src/Engine/Boundary/Scan.antt =====
-- The nodes that a scan for boundary events of one kind finds, for any kind.
use bpmninja.Prelude.{
  Among, ◌≡◌, refl, sym, ap, ◌∙◌, ◌↔◌, inl, inr, String, Bool, true, Option, none, some, List, [],
  ◌∷◌, map, any, string_eq, ◌==◌, eq_iff, arith, Bool-cases, Option-cases, subst,
}
use bpmninja.Domain.Element.{BpmnElement}
use bpmninja.Domain.Graph.{Nodes}

-- A node with the event that `make` builds around a value.
abbrev pub IsBound : {A : Type 0} → (make : A → Bool → BpmnElement) → Nodes → String → A → Type 0
IsBound make nodes id a = (cancel_activity : Bool) × Among (id, make a cancel_activity) nodes

-- The nodes that a scan for one kind of event finds.
module _ {A : Type 0} (on : BpmnElement → Option A) where
  abbrev pub attach : String → Option A → List (String × A) → List (String × A)
  attach id none found = found
  attach id (some a) found = (id, a) ∷ found

  unfoldable pub attached : Nodes → List (String × A)
  attached [] = []
  attached ((id, element) ∷ nodes) = attach id (on element) (attached nodes)

  -- `on` recognises what `make` builds.
  module _ (make : A → Bool → BpmnElement)
      (builds : (e : BpmnElement) (a : A) → on e ≡ some a → (c : Bool) × (make a c ≡ e))
      (made : (a : A) (c : Bool) → on (make a c) ≡ some a) where
    attached-IsBound :
        (nodes : Nodes) (id : String) (a : A)
        → Among (id, a) (attached nodes)
        → IsBound make nodes id a
    unfolding attached
    attached-IsBound [] id a there = elim there [ ]
    attached-IsBound ((i, e) ∷ nodes) id a there = elim (Option-cases (on e)) [
      | inl other ↦
          let (c, later) =
            attached-IsBound nodes id a
              (subst (λ o. Among (id, a) (attach i o (attached nodes))) other there) in
          (c, inr later)
      | inr (b, own) ↦ elim (subst (λ o. Among (id, a) (attach i o (attached nodes))) own there) [
        | inl same ↦
            let (c, is) = builds e b own in
            (c, inl (sym (ap (λ x. (i, x)) is) ∙ ap (λ x. (x.0, make x.1 c)) same))
        | inr there' ↦ let (c, later) = attached-IsBound nodes id a there' in (c, inr later)
      ]
    ]

    attach_keeps :
        (i : String) (o : Option A) (x : String × A) (found : List (String × A))
        → Among x found
        → Among x (attach i o found)
    attach_keeps i none x found there = there
    attach_keeps i (some a) x found there = inr there

    IsBound-attached :
        (nodes : Nodes) (id : String) (a : A)
        → IsBound make nodes id a
        → Among (id, a) (attached nodes)
    unfolding attached
    IsBound-attached [] id a (c, there) = elim there [ ]
    IsBound-attached ((i, e) ∷ nodes) id a (c, inl same) =
        let own : on e ≡ some a = ap (λ x. on x.1) same ∙ made a c in
        rw own (inl (ap (λ x. (x.0, a)) same))
    IsBound-attached ((i, e) ∷ nodes) id a (c, inr later) =
        attach_keeps i (on e) (id, a) (attached nodes) (IsBound-attached nodes id a (c, later))

    pub attached_iff :
        (nodes : Nodes) (id : String) (a : A)
        → Among (id, a) (attached nodes) ↔ IsBound make nodes id a
    attached_iff nodes id a = (attached-IsBound nodes id a, IsBound-attached nodes id a)

-- The nodes of the entries that were found.
abbrev pub ids : {A : Type 0} → List (String × A) → List String
ids found = map (λ x. x.0) found

pub any-ids :
    {A : Type 0} (found : List (String × A)) (id : String)
    → any (λ b. b == id) (ids found) ≡ true
    → (a : A) × Among (id, a) found
any-ids [] id h = cc
any-ids ((i, a) ∷ found) id h = elim (Bool-cases (i == id)) [
  | inl same ↦ (a, inl (ap (λ j. (j, a)) ((eq_iff i id).0 same)))
  | inr other ↦ let (b, later) = any-ids found id (ground arith) in (b, inr later)
]

pub ids-any :
    {A : Type 0} (found : List (String × A)) (id : String) (a : A)
    → Among (id, a) found
    → any (λ b. b == id) (ids found) ≡ true
ids-any [] id a there = elim there [ ]
ids-any ((i, b) ∷ found) id a (inl same) = ground (arith, eq_iff i id, ap (λ x. x.0) same)
ids-any ((i, b) ∷ found) id a (inr later) = ground (arith, ids-any found id a later)

-- The entries of a list, seen through a function.
pub Among-map :
    {A B : Type 0} (f : A → B) (xs : List A) (b : B)
    → Among b (map f xs) ↔ ((x : A) × Among x xs × (f x ≡ b))
Among-map f xs b = (from f xs b, back f xs b)
  where
    from :
        {A B : Type 0} (f : A → B) (xs : List A) (b : B)
        → Among b (map f xs)
        → (x : A) × Among x xs × (f x ≡ b)
    from f [] b there = elim there [ ]
    from f (x ∷ xs) b (inl same) = (x, inl refl, same)
    from f (x ∷ xs) b (inr later) = let (y, among, is) = from f xs b later in (y, inr among, is)

    back :
        {A B : Type 0} (f : A → B) (xs : List A) (b : B)
        → (x : A) × Among x xs × (f x ≡ b)
        → Among b (map f xs)
    back f [] b (x, there, is) = elim there [ ]
    back f (y ∷ xs) b (x, inl same, is) = inl (ap f same ∙ is)
    back f (y ∷ xs) b (x, inr later, is) = inr (back f xs b (x, later, is))
