-- ===== src/World/Retry.antt =====
-- `for i := 0; i < 3; i++ { _, err = Update(x); if err == nil { break } }`, the loop that the
-- provisioner, the health checker and the annotator write out.
use kubecon.Prelude.{
  ℕ, zero, suc, ◌≤◌, ◌≡◌, refl, ◌≢◌, ◌⊎◌, inl, inr, Option, none, some, arith, Option-cases, ap,
  ◌∙◌,
}
use kubecon.Prelude.Exec.{Exec}

module _ {E O : Type 0} where
  -- `last` is the value of `err` when the loop is entered.
  unfoldable pub retry : ℕ → Exec O (Option E) → Option E → Exec O (Option E)
  retry zero call last o = (last, o)
  retry (suc i) call last o =
      let again = retry i call in
      let (e, o') = call o in elim e [ none ↦ (none, o') | some x ↦ again (some x) o' ]

module _ {E O : Type 0} (call : Exec O (Option E)) where
  -- The state after `k` calls.
  abbrev pub after : ℕ → O → O
  after zero o = o
  after (suc k) o = after k (call o).1

  -- Each of the first `k` calls fails.
  abbrev Refused : ℕ → O → Type 0
  Refused zero o = Unit
  Refused (suc k) o = ((call o).0 ≢ none) × Refused k (call o).1

  -- The outcome of a call whose `k` predecessors failed, and which succeeded or was the last of
  -- `n + 1`.
  pub record Settled (n : ℕ) (o : O) (outcome : Option E × O) : Type 0 where
    pub failures : ℕ
    pub in_time : failures ≤ n
    pub refused : Refused failures o
    pub outcome_lem : outcome ≡ call (after failures o)
    pub why : (outcome.0 ≡ none) ⊎ (failures ≡ n)

  pub retry-first :
      (n : ℕ) (last : Option E) (o : O) → (call o).0 ≡ none → retry (suc n) call last o ≡ call o
  unfolding retry
  retry-first n last o h = ground arith

  retry-next :
      (n : ℕ) (last : Option E) (o : O) {e : E}
      → (call o).0 ≡ some e
      → retry (suc n) call last o ≡ retry n call (some e) (call o).1
  unfolding retry
  retry-next n last o h = ground arith

  retry-one : (last : Option E) (o : O) → retry 1 call last o ≡ call o
  unfolding retry
  retry-one last o = ground arith

  -- Where the first call succeeds, so does the loop at once.
  Settled-first :
      (n : ℕ) (last : Option E) (o : O)
      → (call o).0 ≡ none
      → Settled n o (retry (suc n) call last o)
  Settled-first n last o h = record {
    failures = 0;
    in_time = omega arith;
    refused = tt;
    outcome_lem = retry-first n last o h;
    why = inl (ap (λ (r : Option E × O). r.0) (retry-first n last o h) ∙ h);
  }

  Settled-next :
      (n : ℕ) (o : O) (r : Option E × O)
      → (call o).0 ≢ none
      → Settled n (call o).1 r
      → Settled (suc n) o r
  Settled-next n o r h s = record {
    failures = suc s.failures;
    in_time = omega arith;
    refused = (h, s.refused);
    outcome_lem = s.outcome_lem;
    why = elim s.why [ inl e ↦ inl e | inr e ↦ inr (ap suc e) ];
  }

  -- The loop makes one call after another until one succeeds, n + 1 of them at most, and returns
  -- what the last one returned.
  pub retry-Settled : (n : ℕ) (last : Option E) (o : O) → Settled n o (retry (suc n) call last o)
  retry-Settled zero last o = record {
    failures = 0;
    in_time = omega arith;
    refused = tt;
    outcome_lem = retry-one last o;
    why = inr refl;
  }
  retry-Settled (suc n) last o = elim (Option-cases (call o).0) [
    | inl h ↦ Settled-first (suc n) last o h
    | inr (e, h) ↦ rw (retry-next (suc n) last o h) (
        Settled-next n o (retry (suc n) call (some e) (call o).1) (λ p. cc)
          (retry-Settled n (some e) (call o).1))
  ]

  -- What each call keeps, the loop keeps.
  pub retry-keeps :
      (P : O → Type 0)
      → ((o : O) → P o → P (call o).1)
      → (n : ℕ) (last : Option E) (o : O) → P o
      → P (retry n call last o).1
  unfolding retry
  retry-keeps P keep zero last o h = h
  retry-keeps P keep (suc n) last o h = elim (Option-cases (call o).0) [
    | inl e ↦ rw (e, retry) (keep o h)
    | inr (x, e) ↦ rw (e, retry) (retry-keeps P keep n (some x) (call o).1 (keep o h))
  ]
