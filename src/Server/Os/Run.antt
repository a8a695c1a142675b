-- ===== src/Server/Os/Run.antt =====
-- The operating system under the server, as a function that replies to system calls, and the run of a
-- program of system calls on it.
use quicfs.Base.{◌≡◌, refl, ap, ◌∙◌}
use quicfs.Server.Os.{Syscall, Reply, Prog, done, call, ◌>>=◌}

pub record Machine : Type 1 where
  pub State : Type 0
  pub reply : Syscall → State → State × Reply

module _ (machine : Machine) where
  -- The state at the end, and the result.
  unfoldable pub run {ℓ} : {A : Type ℓ} → Prog A → machine.State → machine.State × A
  run (done a) s = (s, a)
  run (call c next) s = run (next (machine.reply c s).1) (machine.reply c s).0

  pub run_bind {ℓ κ} :
      {A : Type ℓ} {B : Type κ} (m : Prog A) (f : A → Prog B) (s : machine.State)
      → run (m >>= f) s ≡ run (f (run m s).1) (run m s).0
  unfolding run ◌>>=◌
  run_bind (done a) f s = refl
  run_bind (call c next) f s = run_bind (next (machine.reply c s).1) f (machine.reply c s).0

  -- What is seen of the result of a program that ends in the same way wherever it goes on from.
  pub run_seen {ℓ κ ι} :
      {A : Type ℓ} {B : Type κ} {C : Type ι} (g : B → C) (c : A → C) (m : Prog A) (f : A → Prog B)
      → ((a : A) (s : machine.State) → g (run (f a) s).1 ≡ c a)
      → (s : machine.State) → g (run (m >>= f) s).1 ≡ c (run m s).1
  run_seen {B = B} g c m f h s =
      ap (λ (r : machine.State × B). g r.1) (run_bind m f s) ∙ h (run m s).1 (run m s).0
