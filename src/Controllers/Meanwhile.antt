-- ===== src/Controllers/Meanwhile.antt =====
-- What the program replaces at the API server, to which other clients write too.
use mathlib.Core.List.Memᴰ
use mathlib.Core.List.{Memᴰ}
use mathlib.Core.Path.{ap₂, subst}
use mathlib.Core.Option.{some-injective}
use kubecon.Prelude.{String, ◌≡◌, ◌⊎◌, ap, sym, ◌∙◌, Option, List, inl, inr}
use kubecon.Api.{Cluster}
use kubecon.Platform.{Platform}
use kubecon.Platform.Shared.{LogKept, Replacement, ReplacesBy, SharesServer}
use kubecon.Controllers.Sends.{Sent, core, same_name}
use kubecon.Controllers.Backed.{Backed}

module _ (E : Platform) {logged : E.Outside → String → String → Option Cluster}
    {writes : E.Outside → List Replacement} (V : SharesServer E logged writes) where
  -- The log has forgotten nothing, and each replacement that the program has made since kept the core of
  -- what it replaced.
  pub record Faithful (o o' : E.Outside) : Type 0 where
    pub log_kept : LogKept logged o o'
    pub cores_kept :
        (r : Replacement) → Memᴰ r (writes o') → Memᴰ r (writes o) ⊎ (core r.after ≡ core r.before)

  pub Faithful-same : (o : E.Outside) → Faithful o o
  Faithful-same o = record { log_kept = λ n v x h. h; cores_kept = λ r m. inl m }

  -- A call that replaces nothing.
  pub Faithful-quiet :
      {o a b : E.Outside} → LogKept logged a b → writes b ≡ writes a → Faithful o a → Faithful o b
  Faithful-quiet g e f = record {
    log_kept = λ n v x h. g n v x (f.log_kept n v x h);
    cores_kept = λ r m. f.cores_kept r (subst (Memᴰ r) e m);
  }

  module _ {o a : E.Outside} (d c : Cluster) (b : Backed E logged o d) (s : Sent d c)
      (f : Faithful o a) where
    -- What an update replaces is what the sent object was made of, by its name and version.
    core-replaced : (r : Replacement) → ReplacesBy E logged c a r → core r.after ≡ core r.before
    core-replaced r by =
        let old = f.log_kept _ _ b.original b.was_held in
        let one = some-injective _ _ (
          sym old
          ∙ ap₂ (λ m v. logged a m v) (sym (same_name s)) (sym s.same_version)
          ∙ by.was_held) in
        ap core by.after_lem ∙ s.same_core ∙ sym b.same_core ∙ ap core one

    pub Faithful-update : Faithful o (E.clusters.update c a).1
    Faithful-update = elim (V.update_writes c a) [
      | inl e ↦ Faithful-quiet (V.grows.update_grows c a) e f
      | inr (r, e, by) ↦ record {
        log_kept = λ n v x h. V.grows.update_grows c a n v x (f.log_kept n v x h);
        cores_kept = λ q m. elim (Memᴰ.cases_cons (subst (Memᴰ q) e m)) [
          | inl same ↦ inr (
              subst (λ (x : Replacement). core x.after ≡ core x.before) (sym same)
                (core-replaced r by))
          | inr before ↦ f.cores_kept q before
        ];
      }
    ]
