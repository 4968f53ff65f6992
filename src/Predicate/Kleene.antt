-- ===== src/Predicate/Kleene.antt =====
-- The evaluation against strong Kleene logic: the loops, with their early returns, compute the
-- conjunction and the disjunction of their parts, whatever the order.
use kinetix.Base.{Bool, true, false, ◌≡◌, refl, if◌then◌else◌}
use kinetix.Predicate.{
  Host, Tri, tri_true, tri_false, unknown, from_bool, RequestFacts, TargetFacts, PluginFacts,
  Predicate, Predicates, const, all_of, any_of, negated, cmp, nil, cons,
}
use kinetix.Predicate.Eval.{eval_cmp, not_tri, eval_with_facts, eval_and, eval_or}

-- False decides a conjunction, and true a disjunction; else unknown prevails.
unfoldable pub and_tri : Tri → Tri → Tri
and_tri tri_false y = tri_false
and_tri tri_true y = y
and_tri unknown tri_false = tri_false
and_tri unknown tri_true = unknown
and_tri unknown unknown = unknown

unfoldable pub or_tri : Tri → Tri → Tri
or_tri tri_true y = tri_true
or_tri tri_false y = y
or_tri unknown tri_true = tri_true
or_tri unknown tri_false = unknown
or_tri unknown unknown = unknown

abbrev start_and : Bool → Tri
start_and saw = if saw then unknown else tri_true

abbrev start_or : Bool → Tri
start_or saw = if saw then unknown else tri_false

-- One round of the loop: the rest of it is taken as a conjunction or disjunction already.
round-and_tri :
    (saw : Bool) (x y u r : Tri)
    → u ≡ and_tri unknown y
    → r ≡ and_tri (start_and saw) y
    → (elim x [ tri_false ↦ tri_false | unknown ↦ u | tri_true ↦ r ])
      ≡ and_tri (start_and saw) (and_tri x y)
unfolding and_tri
round-and_tri true tri_true y u r e f = f
round-and_tri true tri_false y u r e f = refl
round-and_tri true unknown tri_true u r e f = e
round-and_tri true unknown tri_false u r e f = e
round-and_tri true unknown unknown u r e f = e
round-and_tri false tri_true y u r e f = f
round-and_tri false tri_false y u r e f = refl
round-and_tri false unknown y u r e f = e

-- One round of the loop: the rest of it is taken as a conjunction or disjunction already.
round-or_tri :
    (saw : Bool) (x y u r : Tri)
    → u ≡ or_tri unknown y
    → r ≡ or_tri (start_or saw) y
    → (elim x [ tri_true ↦ tri_true | unknown ↦ u | tri_false ↦ r ])
      ≡ or_tri (start_or saw) (or_tri x y)
unfolding or_tri
round-or_tri true tri_false y u r e f = f
round-or_tri true tri_true y u r e f = refl
round-or_tri true unknown tri_true u r e f = e
round-or_tri true unknown tri_false u r e f = e
round-or_tri true unknown unknown u r e f = e
round-or_tri false tri_false y u r e f = f
round-or_tri false tri_true y u r e f = refl
round-or_tri false unknown y u r e f = e

module _ (host : Host) (req : RequestFacts) (t : TargetFacts host) (plugin : PluginFacts host) where
  -- What a predicate means: Kleene's connectives on the values of its comparisons.
  unfoldable mutual
    unfolding and_tri or_tri

    pub meaning : Predicate host → Tri
    meaning (const b) = from_bool b
    meaning (all_of ps) = conjunction ps
    meaning (any_of ps) = disjunction ps
    meaning (negated p) = not_tri (meaning p)
    meaning (cmp fact op value) = eval_cmp host req t fact op value plugin

    pub conjunction : Predicates host → Tri
    conjunction nil = tri_true
    conjunction (cons p ps) = and_tri (meaning p) (conjunction ps)

    pub disjunction : Predicates host → Tri
    disjunction nil = tri_false
    disjunction (cons p ps) = or_tri (meaning p) (disjunction ps)

  mutual
    unfolding eval_with_facts eval_and eval_or meaning conjunction disjunction and_tri or_tri

    eval_with_facts-meaning : (p : Predicate host) → eval_with_facts host req t plugin p ≡ meaning p
    eval_with_facts-meaning (const b) = refl
    eval_with_facts-meaning (all_of ps) = eval_and-conjunction ps false
    eval_with_facts-meaning (any_of ps) = eval_or-disjunction ps false
    eval_with_facts-meaning (negated p) = rw (eval_with_facts-meaning p) refl
    eval_with_facts-meaning (cmp fact op value) = refl

    eval_and-conjunction :
        (ps : Predicates host) (saw : Bool)
        → eval_and host req t plugin ps saw ≡ and_tri (start_and saw) (conjunction ps)
    eval_and-conjunction nil true = refl
    eval_and-conjunction nil false = refl
    eval_and-conjunction (cons p ps) saw = rw (eval_with_facts-meaning p) (
        round-and_tri saw (meaning p) (conjunction ps) _ _ (eval_and-conjunction ps true)
          (eval_and-conjunction ps saw))

    eval_or-disjunction :
        (ps : Predicates host) (saw : Bool)
        → eval_or host req t plugin ps saw ≡ or_tri (start_or saw) (disjunction ps)
    eval_or-disjunction nil true = refl
    eval_or-disjunction nil false = refl
    eval_or-disjunction (cons p ps) saw = rw (eval_with_facts-meaning p) (
        round-or_tri saw (meaning p) (disjunction ps) _ _ (eval_or-disjunction ps true)
          (eval_or-disjunction ps saw))

  -- A predicate evaluates to its meaning in strong Kleene logic: a conjunction is false if a part is,
  -- else unknown if a part is, and else true, wherever the loop returns; a disjunction dually.
  pub eval_with_facts-Kleene :
      (p : Predicate host) → eval_with_facts host req t plugin p ≡ meaning p
  eval_with_facts-Kleene p = eval_with_facts-meaning p
