-- ===== src/Domain/Data/Snapshot.antt =====
-- A mapping phase reads one snapshot of the variables.
use bpmninja.Prelude.{
  String, ◌≡◌, ◌≢◌, refl, ap, ◌∙◌, inl, inr, false, ◌||◌, none, some, List, [], ◌∷◌, ◌++◌, Map, map,
  get, insert, contains_key, keys, get-insert, get-insert_self, ◌==◌, string_eq, eq_iff, All,
  All-mono, arith, Bool-cases, append_assoc, append-nil,
}
use bpmninja.Domain.Error.{ok, ◌>>=◌, >>=-eq-ok}
use bpmninja.Domain.Data.{Json, DataMapping, evaluate, evaluate_from, evaluate_mappings}

abbrev pub targets : {V : Type 0} → List (DataMapping V) → List String
targets ms = map (λ m. m.target) ms

keys-insert_new :
    {V : Type 0} (k : String) (v : V) (m : Map String V)
    → contains_key k m ≡ false
    → keys (insert k v m) ≡ keys m ++ k ∷ []
unfolding insert get
keys-insert_new k v [] h = refl
keys-insert_new k v ((i, w) ∷ m) h = ground (arith, keys-insert_new k v m)

abbrev pub AreDistinct : {V : Type 0} → List (DataMapping V) → Type 0
AreDistinct [] = Unit
AreDistinct (m ∷ ms) = All (λ n. m.target ≢ n.target) ms × AreDistinct ms

-- What the loop makes of `before`.
pub record Evaluated {V : Type 0} (j : Json V) (source before : Map String V)
    (ms : List (DataMapping V)) (after : Map String V) : Type 0 where
  pub names : keys after ≡ keys before ++ targets ms
  pub readable : All (λ m. j.is_blank m.target ≡ false) ms
  pub absent : All (λ m. get m.target before ≡ none) ms
  pub distinct : AreDistinct ms
  pub assigned :
      All (λ m. (v : V) × (evaluate j source m.value ≡ ok v) × (get m.target after ≡ some v)) ms
  pub kept : (k : String) (v : V) → get k before ≡ some v → get k after ≡ some v

kept_by_insert :
    {V : Type 0} (k i : String) (v w : V) (m : Map String V)
    → contains_key k m ≡ false
    → get i m ≡ some w
    → get i (insert k v m) ≡ some w
kept_by_insert k i v w m fresh e = elim (Bool-cases (k == i)) [
  | inl same ↦ absurd (ground (arith, rw ((eq_iff k i).0 same) at fresh, e))
  | inr other ↦ ground (arith, get-insert k i v m, e, other)
]

none_of_absent :
    {V : Type 0} (k : String) (m : Map String V) → contains_key k m ≡ false → get k m ≡ none
none_of_absent k m h = ground (arith, h)

ne_of_absent :
    {V : Type 0} (k i : String) (v : V) (m : Map String V) → get i (insert k v m) ≡ none → k ≢ i
ne_of_absent k i v m h same = absurd (ground (arith, get-insert k i v m, eq_iff k i, h, same))

absent_before :
    {V : Type 0} (k i : String) (v : V) (m : Map String V)
    → get i (insert k v m) ≡ none
    → get i m ≡ none
absent_before k i v m h = ground (arith, get-insert k i v m, h)

module _ {V : Type 0} (j : Json V) (source : Map String V) where
  evaluate_from-Evaluated :
      (ms : List (DataMapping V)) (before after : Map String V)
      → evaluate_from j source before ms ≡ ok after
      → Evaluated j source before ms after
  unfolding evaluate_from
  evaluate_from-Evaluated [] before after h = record {
    names = ground (arith, append-nil (keys before));
    readable = tt;
    absent = tt;
    distinct = tt;
    assigned = tt;
    kept = λ k v e. ground (arith, e);
  }
  evaluate_from-Evaluated (m ∷ ms) before after h =
      elim (Bool-cases (j.is_blank m.target || contains_key m.target before)) [
        | inl bad ↦ absurd (ground (arith, bad))
        | inr good ↦
            let h' : (evaluate j source m.value >>= λ v.
            evaluate_from j source (insert m.target v before) ms)
                ≡ ok after =
              ground (arith, good) in
            let (v, e, rest) =
              >>=-eq-ok (evaluate j source m.value)
                (λ v. evaluate_from j source (insert m.target v before) ms) h' in
            let fresh : contains_key m.target before ≡ false = ground (arith, good) in
            let ih = evaluate_from-Evaluated ms (insert m.target v before) after rest in
            record {
              names =
                  ih.names
                  ∙ ap (λ l. l ++ targets ms) (keys-insert_new m.target v before fresh)
                  ∙ append_assoc (keys before) (m.target ∷ []) (targets ms);
              readable = (ground (arith, good), ih.readable);
              absent = (
                none_of_absent m.target before fresh,
                All-mono (λ n. absent_before m.target n.target v before) ms ih.absent,
              );
              distinct = (
                All-mono (λ n. ne_of_absent m.target n.target v before) ms ih.absent,
                ih.distinct,
              );
              assigned =
                  ((v, e, ih.kept m.target v (get-insert_self m.target v before)), ih.assigned);
              kept = λ k w g. ih.kept k w (kept_by_insert m.target k v w before fresh g);
            }
      ]

-- A mapping phase that succeeds writes exactly the targets of the mappings, in their order, none of
-- them blank or named twice, and each with the value of its mapping on the snapshot given: no
-- mapping sees what another one writes.
pub evaluate_mappings-snapshot :
    {V : Type 0} (j : Json V) (mappings : List (DataMapping V)) (source result : Map String V)
    → evaluate_mappings j mappings source ≡ ok result
    → (keys result ≡ targets mappings)
      × AreDistinct mappings
      × All (λ m. j.is_blank m.target ≡ false) mappings
      × All
          (λ m. (v : V) × (evaluate j source m.value ≡ ok v) × (get m.target result ≡ some v))
          mappings
unfolding evaluate_mappings
evaluate_mappings-snapshot j mappings source result h =
    let e = evaluate_from-Evaluated j source mappings [] result h in
    (e.names, e.distinct, e.readable, e.assigned)
