-- ===== src/Pipeline/Failover/Rounds.antt =====
-- src/pipeline.rs, `run`: every round of the attempt loop.
use kinetix.Base.{ℕ, inl, inr, Bool, Option, String, Bool-cases, Result-cases}
use kinetix.Pipeline.Policy.{RoutePolicy}
use kinetix.Pipeline.Failover.{
  Target, Visit, Run, same_logical, out_of_time, health_gate, quota_gate, local_gates, last_gates,
  round,
}
use kinetix.Pipeline.Failover.Effects.Passing.{
  health_gate-Quiet, quota_gate-Quiet, local_gates-Quiet, last_gates-Quiet, in_time_lem, admitted,
  still, refused_at, seen, seen-Sent,
}
use kinetix.Pipeline.Failover.Effects.Sending.{dispatch-Sent}
use kinetix.Pipeline.Failover.Effects.{Effect}

module _ (to_rfc3339 : ℕ → String) (parse_dt : String → Option ℕ) (route : Option RoutePolicy)
    (allow_fallback : Bool) where
  -- Every round, on every branch.
  pub round-Effect :
      (r : Run) (v : Visit) (t : Target)
      → Effect parse_dt r v t (round to_rfc3339 parse_dt route allow_fallback r v t)
  unfolding round
  round-Effect r v t =
      let r1 = seen r t in
      elim (Bool-cases (same_logical r t)) [
        | inl a ↦ rw a (inl (still r))
        | inr a ↦ elim (Bool-cases (out_of_time r v)) [
          | inl b ↦ rw (a, b) (inl (still r))
          | inr b ↦ elim (Result-cases (health_gate parse_dt r1 v t)) [
            | inr (s, c) ↦
                rw (a, b, c)
                  (inl (
                    refused_at r t _ s
                      (health_gate-Quiet to_rfc3339 parse_dt route allow_fallback r1 v t) c))
            | inl (probing, c) ↦
                elim (Result-cases (quota_gate to_rfc3339 route allow_fallback r1 v t)) [
                  | inr (s, d) ↦
                      rw (a, b, c, d)
                        (inl (
                          refused_at r t _ s
                            (quota_gate-Quiet to_rfc3339 parse_dt route allow_fallback r1 v t) d))
                  | inl (_, d) ↦ elim (Result-cases (local_gates r1 v t)) [
                    | inr (s, e) ↦
                        rw (a, b, c, d, e) (inl (refused_at r t _ s (local_gates-Quiet r1 v t) e))
                    | inl (_, e) ↦ elim (Result-cases (last_gates r1 v)) [
                      | inr (s, f) ↦
                          rw (a, b, c, d, e, f) (inl (refused_at r t _ s (last_gates-Quiet r1 v) f))
                      | inl (_, f) ↦
                          rw (a, b, c, d, e, f)
                            (inr (
                              (in_time_lem r v b).0,
                              admitted to_rfc3339 parse_dt route allow_fallback r v t probing b c d
                                  e f,
                              seen-Sent r v t _ (
                                  dispatch-Sent to_rfc3339 parse_dt route allow_fallback r1 v t
                                    probing),
                            ))
                    ]
                  ]
                ]
          ]
        ]
      ]
