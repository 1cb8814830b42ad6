-- ===== src/TaskQueue/Laws.antt =====
-- Lemmas on worker in util.go: its next item, whatever the handler.
use kubecon.Prelude.{ℕ, suc, String, ◌≡◌, refl, arith, ◌⊎◌, inl, inr}
use kubecon.Platform.{Platform, Taken, waiting, quit, item}
use kubecon.World.{World, M}
use kubecon.TaskQueue.{blocked, closed, turn, worker}

pub Taken-cases :
    {Q : Type 0} (t : Taken Q)
    → (t ≡ waiting) ⊎ ((t ≡ quit) ⊎ ((k : String) × (q : Q) × (t ≡ item k q)))
Taken-cases waiting = inl refl
Taken-cases quit = inr (inl refl)
Taken-cases (item k q) = inr (inr (k, q, refl))

module _ (E : Platform) (sync : String → M E (Unit {0})) (n : ℕ) (w : World E) where
  pub worker-waiting : E.get w.queue ≡ waiting → worker E sync (suc n) w ≡ (blocked, w)
  unfolding worker
  worker-waiting h = ground (arith, h)

  pub worker-quit : E.get w.queue ≡ quit → worker E sync (suc n) w ≡ (closed, w)
  unfolding worker
  worker-quit h = ground (arith, h)

  pub worker-turn :
      (key : String) (q : E.Queue)
      → E.get w.queue ≡ item key q
      → worker E sync (suc n) w ≡ worker E sync n (turn E sync key q w)
  unfolding worker
  worker-turn key q h = rw (h, worker) refl
