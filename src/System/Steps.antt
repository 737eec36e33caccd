-- ===== src/System/Steps.antt =====
-- Laws of steps done one behind the other.
use naofs.Prelude.{◌≡◌, refl}
use naofs.Cache.{Run, done, fault, deadlock, Fs}
use naofs.System.{M, pure, ◌>>=◌}

-- Steps are done one behind the other, however they are grouped.
module _ {A B C : Type 0} where
  bind_assoc_run :
      (r : Run (A × Fs)) (f : A → M B) (g : B → M C) (s : Fs)
      → (((λ t. r) >>= f) >>= g) s ≡ ((λ t. r) >>= λ a. f a >>= g) s
  bind_assoc_run (done (a, s')) f g s = refl
  bind_assoc_run fault f g s = refl
  bind_assoc_run deadlock f g s = refl

  pub bind_assoc :
      (m : M A) (f : A → M B) (g : B → M C) (s : Fs)
      → ((m >>= f) >>= g) s ≡ (m >>= λ a. f a >>= g) s
  bind_assoc m f g s = bind_assoc_run (m s) f g s

module _ {A B : Type 0} where
  bind_same_run :
      (r : Run (A × Fs)) (f g : A → M B) (s : Fs)
      → ((a : A) (t : Fs) → f a t ≡ g a t)
      → ((λ t. r) >>= f) s ≡ ((λ t. r) >>= g) s
  bind_same_run (done (a, s')) f g s h = h a s'
  bind_same_run fault f g s h = refl
  bind_same_run deadlock f g s h = refl

  pub bind_same :
      (m : M A) (f g : A → M B) (s : Fs)
      → ((a : A) (t : Fs) → f a t ≡ g a t)
      → (m >>= f) s ≡ (m >>= g) s
  bind_same m f g s h = bind_same_run (m s) f g s h

pub bind-pure : {A : Type 0} (m : M A) (s : Fs) → (m >>= pure) s ≡ m s
bind-pure {A} m s = by_run (m s)
  where
    by_run : (r : Run (A × Fs)) → ((λ (t : Fs). r) >>= pure) s ≡ r
    by_run (done (a, s')) = refl
    by_run fault = refl
    by_run deadlock = refl
