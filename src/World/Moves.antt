-- ===== src/World/Moves.antt =====
-- Two-state properties of operations: `m` moves the state along a relation `R`, whether it returns
-- or fails. One rule for each way to build an operation; `R` is reflexive and transitive.
use gooselake.Base.{Bool, true, false, Option, none, some, if◌then◌else◌}
use gooselake.Error.{RuntimeError, Result, ok, err}
use gooselake.World.{World, M, pure, raise, lift, gets, ok_or, attempt, ◌>>=◌, continue}

pub record IsPreorder (R : World → World → Type 0) : Type 0 where
  pub refl_at : (w : World) → R w w
  pub trans_at : (u v w : World) → R u v → R v w → R u w

pub record Moves (R : World → World → Type 0) {A : Type 0} (m : M A) : Type 0 where
  pub at : (w : World) → R w (m w).1

module _ {R : World → World → Type 0} (o : IsPreorder R) where
  module _ {A : Type 0} where
    pub Moves-pure : (a : A) → Moves R (pure a)
    unfolding pure
    Moves-pure a = record { at = λ w. o.refl_at w }

    pub Moves-raise : (e : RuntimeError) → Moves R (raise {A = A} e)
    unfolding raise
    Moves-raise e = record { at = λ w. o.refl_at w }

    pub Moves-lift : (r : Result A) → Moves R (lift r)
    unfolding lift
    Moves-lift r = record { at = λ w. o.refl_at w }

    pub Moves-gets : (f : World → A) → Moves R (gets f)
    unfolding gets
    Moves-gets f = record { at = λ w. o.refl_at w }

    pub Moves-ok_or : (a : Option A) (e : RuntimeError) → Moves R (ok_or a e)
    unfolding ok_or
    Moves-ok_or none e = record { at = λ w. o.refl_at w }
    Moves-ok_or (some a) e = record { at = λ w. o.refl_at w }

    pub Moves-attempt : (m : M A) → Moves R m → Moves R (attempt m)
    unfolding attempt
    Moves-attempt m h = record { at = λ w. h.at w }

    pub Moves-if : (b : Bool) (m n : M A) → Moves R m → Moves R n → Moves R (if b then m else n)
    Moves-if true m n hm hn = hm
    Moves-if false m n hm hn = hn

  module _ {A B : Type 0} where
    Moves-continue :
        (r : Result A) (f : A → M B) → ((a : A) → Moves R (f a)) → Moves R (continue r f)
    Moves-continue (ok a) f h = record { at = (h a).at }
    Moves-continue (err e) f h = record { at = λ w. o.refl_at w }

    pub Moves-bind :
        (m : M A) (f : A → M B) → Moves R m → ((a : A) → Moves R (f a)) → Moves R (m >>= f)
    unfolding ◌>>=◌
    Moves-bind m f hm hf = record {
      at = λ w.
          let (r, w') = m w in
          o.trans_at w w' (continue r f w').1 (hm.at w) ((Moves-continue r f hf).at w');
    }

pub ruleset moves_rules = (
  Moves-pure, Moves-raise, Moves-lift, Moves-gets, Moves-ok_or, Moves-attempt, Moves-if, Moves-bind,
)
