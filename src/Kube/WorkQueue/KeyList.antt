-- ===== src/Kube/WorkQueue/KeyList.antt =====
-- A work queue that is a list of keys.
use faas_share.Common.{
  String, List, [], ◌∷◌, In, keep, not, str_eq, str_eq_iff, Bool-cases, ◌≡◌, ◌≢◌, ◌∙◌, sym, refl,
  inl, inr, subst,
}
use faas_share.Kube.WorkQueue.{WorkQueue, WorkQueueLaws}

abbrev pub keys : WorkQueue
keys = record {
  Queue = List String;
  add = λ k q. k ∷ q;
  add_rate_limited = λ k q. k ∷ q;
  forget = λ k q. q;
  done = λ k q. q;
  get = λ k q. keep (λ j. not (str_eq k j)) q;
  Holds = λ k q. In k q;
}

In-keep : (j k : String) (q : List String) → j ≢ k → In k q → In k (keep (λ i. not (str_eq j i)) q)
In-keep j k [] ne h = elim h [ ]
In-keep j k (i ∷ q) ne h = elim (Bool-cases (str_eq j i)) [
  | inl same ↦
      rw (same, keep)
        (elim h [
          | inl is ↦ absurd (ne ((str_eq_iff j i).0 same ∙ sym is))
          | inr later ↦ In-keep j k q ne later
        ])
  | inr other ↦
      rw (other, keep) (elim h [ inl is ↦ inl is | inr later ↦ inr (In-keep j k q ne later) ])
]

keep-In : (j k : String) (q : List String) → In k (keep (λ i. not (str_eq j i)) q) → In k q
keep-In j k [] h = elim h [ ]
keep-In j k (i ∷ q) h = elim (Bool-cases (str_eq j i)) [
  | inl same ↦
      let rest : keep (λ n. not (str_eq j n)) (i ∷ q) ≡ keep (λ n. not (str_eq j n)) q =
        rw (same, keep) refl in
      inr (keep-In j k q (subst (In k) rest h))
  | inr other ↦
      let rest : keep (λ n. not (str_eq j n)) (i ∷ q) ≡ i ∷ keep (λ n. not (str_eq j n)) q =
        rw (other, keep) refl in
      elim (subst (In k) rest h) [ inl is ↦ inl is | inr later ↦ inr (keep-In j k q later) ]
]

pub keys-WorkQueueLaws : WorkQueueLaws keys
keys-WorkQueueLaws = record {
  holds_add = λ k q. inl refl;
  holds_add_rate_limited = λ k q. inl refl;
  add_keeps = λ j k q h. inr h;
  add_rate_limited_keeps = λ j k q h. inr h;
  forget_keeps = λ j k q h. h;
  done_keeps = λ j k q h. h;
  get_keeps = λ j k q ne h. In-keep j k q ne h;
  add_only = λ j k q h. elim h [ inl e ↦ inl (sym e) | inr l ↦ inr l ];
  add_rate_limited_only = λ j k q h. elim h [ inl e ↦ inl (sym e) | inr l ↦ inr l ];
  forget_only = λ j k q h. h;
  done_only = λ j k q h. h;
  get_only = λ j k q h. keep-In j k q h;
}
