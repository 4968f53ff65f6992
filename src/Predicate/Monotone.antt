-- ===== src/Predicate/Monotone.antt =====
-- More facts decide more: what is decided without a plugin's fact stays decided with it.
use text.Mathlib.TextEquality.{eq_iff}
use kinetix.Base.{
  true, ◌≡◌, ◌≢◌, refl, sym, ◌∙◌, none, some, [], ◌∷◌, ◌++◌, any, String, str_eq, if◌then◌else◌,
  or_option, Option-cases, Bool-cases, inl, inr, arith,
}
use kinetix.Predicate.{
  Host, Tri, tri_true, tri_false, unknown, from_bool, FactRef, name, CmpOp, RequestFacts,
  TargetFacts, PluginFacts, get_fact, insert_fact, Predicate, Predicates, const, all_of, any_of,
  negated, cmp, nil, cons, TargetPredicate,
}
use kinetix.Predicate.Eval.{
  fact_value, eval_op, eval_cmp, not_tri, eval_with_facts, eligibility_with_facts,
}
use kinetix.Predicate.Kleene.{
  and_tri, or_tri, meaning, conjunction, disjunction, eval_with_facts-Kleene,
}

-- A decided result stays.
abbrev pub Refines : Tri → Tri → Type 0
Refines unknown y = Unit
Refines tri_true y = y ≡ tri_true
Refines tri_false y = y ≡ tri_false

refl-Refines : (x : Tri) → Refines x x
refl-Refines tri_true = refl
refl-Refines tri_false = refl
refl-Refines unknown = tt

not_tri-Refines : (x y : Tri) → Refines x y → Refines (not_tri x) (not_tri y)
not_tri-Refines tri_true y h = rw h refl
not_tri-Refines tri_false y h = rw h refl
not_tri-Refines unknown y h = tt

and_tri-Refines :
    (x x' y y' : Tri) → Refines x x' → Refines y y' → Refines (and_tri x y) (and_tri x' y')
unfolding and_tri
and_tri-Refines tri_true x' y y' h k = rw h k
and_tri-Refines tri_false x' y y' h k = rw h refl
and_tri-Refines unknown tri_true tri_true y' h k = tt
and_tri-Refines unknown tri_true tri_false y' h k = k
and_tri-Refines unknown tri_true unknown y' h k = tt
and_tri-Refines unknown tri_false tri_true y' h k = tt
and_tri-Refines unknown tri_false tri_false y' h k = refl
and_tri-Refines unknown tri_false unknown y' h k = tt
and_tri-Refines unknown unknown tri_true y' h k = tt
and_tri-Refines unknown unknown tri_false y' h k = rw k refl
and_tri-Refines unknown unknown unknown y' h k = tt

or_tri-Refines :
    (x x' y y' : Tri) → Refines x x' → Refines y y' → Refines (or_tri x y) (or_tri x' y')
unfolding or_tri
or_tri-Refines tri_false x' y y' h k = rw h k
or_tri-Refines tri_true x' y y' h k = rw h refl
or_tri-Refines unknown tri_false tri_false y' h k = tt
or_tri-Refines unknown tri_false tri_true y' h k = k
or_tri-Refines unknown tri_false unknown y' h k = tt
or_tri-Refines unknown tri_true tri_false y' h k = tt
or_tri-Refines unknown tri_true tri_true y' h k = refl
or_tri-Refines unknown tri_true unknown y' h k = tt
or_tri-Refines unknown unknown tri_false y' h k = tt
or_tri-Refines unknown unknown tri_true y' h k = rw k refl
or_tri-Refines unknown unknown unknown y' h k = tt

Refines-known : (x y r : Tri) → Refines x y → x ≡ r → r ≢ unknown → y ≡ r
Refines-known tri_true y r h e k = h ∙ e
Refines-known tri_false y r h e k = h ∙ e
Refines-known unknown y r h e k = absurd (k (sym e))

module _ (host : Host) where
  -- What is found after an insertion: the value that was there, else the new one under its name.
  get_fact-append :
      (es : PluginFacts host) (n m : String) (v : host.Value)
      → get_fact host (es ++ (n, v) ∷ []) m
        ≡ or_option (get_fact host es m) (if str_eq n m then some v else none)
  unfolding get_fact
  get_fact-append [] n m v = ground arith
  get_fact-append ((k, w) ∷ es) n m v = ground (arith, get_fact-append es n m v)

  get_fact-any :
      (es : PluginFacts host) (n m : String) (v : host.Value)
      → any (λ e. str_eq e.0 n) es ≡ true
      → get_fact host es m ≡ or_option (get_fact host es m) (if str_eq n m then some v else none)
  unfolding get_fact
  get_fact-any [] n m v h = cc
  get_fact-any ((k, w) ∷ es) n m v h =
      ground (arith, eq_iff k n, eq_iff n m, eq_iff k m, get_fact-any es n m v, h)

  -- The first writer of a plugin fact wins: after an insertion a name finds what it found before, if
  -- anything, and else the inserted value, if the name is its name.
  pub get_fact-insert_fact :
      (es : PluginFacts host) (n m : String) (v : host.Value)
      → get_fact host (insert_fact host es n v) m
        ≡ or_option (get_fact host es m) (if str_eq n m then some v else none)
  unfolding insert_fact
  get_fact-insert_fact es n m v = elim (Bool-cases (any (λ e. str_eq e.0 n) es)) [
    | inl e ↦ rw e (get_fact-any es n m v e)
    | inr e ↦ rw e (get_fact-append es n m v)
  ]

module _ (host : Host) (req : RequestFacts) (t : TargetFacts host) where
  eval_cmp-none :
      (p : PluginFacts host) (fact : FactRef) (op : CmpOp) (v : host.Value)
      → fact_value host req t fact p ≡ none
      → eval_cmp host req t fact op v p ≡ unknown
  unfolding eval_cmp
  eval_cmp-none p fact op v e = rw (e, eval_cmp) refl

  eval_cmp-some :
      (p : PluginFacts host) (fact : FactRef) (op : CmpOp) (v a : host.Value)
      → fact_value host req t fact p ≡ some a
      → eval_cmp host req t fact op v p ≡ eval_op host req t op a v
  unfolding eval_cmp
  eval_cmp-some p fact op v a e = rw (e, eval_cmp) refl

  module _ (p p' : PluginFacts host)
      (more : (n : String) (v : host.Value)
        → get_fact host p n ≡ some v
        → get_fact host p' n ≡ some v) where
    fact_value-more :
        (fact : FactRef) (v : host.Value)
        → fact_value host req t fact p ≡ some v
        → fact_value host req t fact p' ≡ some v
    unfolding fact_value
    fact_value-more fact v h = elim (Bool-cases (host.starts_with (name fact) "plugin.")) [
      | inl e ↦ rw e (more (name fact) v (rw e at h))
      | inr e ↦ rw e (rw e at h)
    ]

    eval_cmp-Refines :
        (fact : FactRef) (op : CmpOp) (v : host.Value)
        → Refines (eval_cmp host req t fact op v p) (eval_cmp host req t fact op v p')
    eval_cmp-Refines fact op v = elim (Option-cases (fact_value host req t fact p)) [
      | inl e ↦ rw (eval_cmp-none p fact op v e) tt
      | inr (a, e) ↦
          rw
            (eval_cmp-some p fact op v a e, eval_cmp-some p' fact op v a (fact_value-more fact a e))
            (refl-Refines (eval_op host req t op a v))
    ]

    mutual
      unfolding meaning conjunction disjunction

      meaning-Refines :
          (q : Predicate host) → Refines (meaning host req t p q) (meaning host req t p' q)
      meaning-Refines (const b) = refl-Refines (from_bool b)
      meaning-Refines (all_of qs) = conjunction-Refines qs
      meaning-Refines (any_of qs) = disjunction-Refines qs
      meaning-Refines (negated q) = not_tri-Refines _ _ (meaning-Refines q)
      meaning-Refines (cmp fact op v) = eval_cmp-Refines fact op v

      conjunction-Refines :
          (qs : Predicates host)
          → Refines (conjunction host req t p qs) (conjunction host req t p' qs)
      conjunction-Refines nil = refl
      conjunction-Refines (cons q qs) =
          and_tri-Refines _ _ _ _ (meaning-Refines q) (conjunction-Refines qs)

      disjunction-Refines :
          (qs : Predicates host)
          → Refines (disjunction host req t p qs) (disjunction host req t p' qs)
      disjunction-Refines nil = refl
      disjunction-Refines (cons q qs) =
          or_tri-Refines _ _ _ _ (meaning-Refines q) (disjunction-Refines qs)

    -- If all that the plugin facts `p` say is said by `p'` too, then a predicate that `p` decides is
    -- decided by `p'`, in the same way.
    pub eval_monotone :
        (q : Predicate host) (r : Tri)
        → eval_with_facts host req t p q ≡ r
        → r ≢ unknown
        → eval_with_facts host req t p' q ≡ r
    eval_monotone q r h k =
        eval_with_facts-Kleene host req t p' q
        ∙ Refines-known _ _ r (meaning-Refines q) (sym (eval_with_facts-Kleene host req t p q) ∙ h)
            k

  inserted_more :
      (es : PluginFacts host) (n : String) (v : host.Value) (m : String) (w : host.Value)
      → get_fact host es m ≡ some w
      → get_fact host (insert_fact host es n v) m ≡ some w
  inserted_more es n v m w h = rw (get_fact-insert_fact host es n m v, h) refl

  -- A plugin that contributes one more fact cannot change the eligibility of a target whose predicate
  -- is decided, nor the result.
  pub eligibility_stable :
      (pred : TargetPredicate host) (p : PluginFacts host) (n : String) (v : host.Value)
      → (eligibility_with_facts host req t p pred).1 ≢ unknown
      → eligibility_with_facts host req t (insert_fact host p n v) pred
        ≡ eligibility_with_facts host req t p pred
  unfolding eligibility_with_facts
  eligibility_stable pred p n v h = elim (Option-cases pred.expr) [
    | inl e ↦ rw e refl
    | inr (q, e) ↦
        let same =
          eval_monotone p (insert_fact host p n v) (λ m w. inserted_more p n v m w) q _ refl
            (rw e at h) in
        rw e (rw same refl)
  ]
