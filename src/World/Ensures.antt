-- ===== src/World/Ensures.antt =====
-- What holds after an operation that succeeds. One rule for each way to build an operation: an
-- error says nothing, and what follows last decides.
use gooselake.Base.{Bool, true, false, ◌≡◌, refl, inl, inr, if◌then◌else◌}
use gooselake.Error.{RuntimeError, Result-cases, ok, err, err-not_ok}
use gooselake.World.{World, M, raise, ◌>>=◌}

pub record Ensures {A : Type 0} (Q : A → World → Type 0) (m : M A) : Type 0 where
  pub at : (w : World) (a : A) → (m w).0 ≡ ok a → Q a (m w).1

module _ {A : Type 0} {Q : A → World → Type 0} where
  pub Ensures-raise : (e : RuntimeError) → Ensures Q (raise e)
  unfolding raise
  Ensures-raise e = record { at = λ w a h. absurd (err-not_ok e a (err e) refl h) }

  pub Ensures-if :
      (b : Bool) (m n : M A) → Ensures Q m → Ensures Q n → Ensures Q (if b then m else n)
  Ensures-if true m n hm hn = hm
  Ensures-if false m n hm hn = hn

  pub Ensures-bind :
      {B : Type 0} (m : M B) (f : B → M A) → ((b : B) → Ensures Q (f b)) → Ensures Q (m >>= f)
  unfolding ◌>>=◌
  Ensures-bind m f h = record {
    at = λ w a done. elim (Result-cases (m w).0) [
      | inl (b, e) ↦ rw e ((h b).at (m w).1 a (rw e at done))
      | inr (x, e) ↦ absurd (err-not_ok x a (err x) refl (rw e at done))
    ];
  }

pub Ensures-map :
    {A : Type 0} {P Q : A → World → Type 0} (m : M A)
    → ((a : A) (w : World) → P a w → Q a w)
    → Ensures P m
    → Ensures Q m
Ensures-map m f h = record { at = λ w a done. f a (m w).1 (h.at w a done) }

pub ruleset ensures_rules = (Ensures-raise, Ensures-if, Ensures-bind)
