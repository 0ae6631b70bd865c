-- ===== src/World/Succeeds.antt =====
-- Operations that succeed from every state while the store does not fail.
use gooselake.Base.{ℕ, ◌≡◌, refl, none}
use gooselake.Error.{ok}
use gooselake.Store.{Store, NewRuntimeEvent}
use gooselake.World.{
  World, Env, M, pure, modify, ◌>>=◌, others_run, now_ms, persist, written, append_to_store,
  appended,
}

pub record Succeeds {A : Type 0} (m : M A) : Type 0 where
  pub at : (w : World) → (a : A) × ((m w).0 ≡ ok a)

pub Succeeds-pure : {A : Type 0} (a : A) → Succeeds (pure a)
unfolding pure
Succeeds-pure a = record { at = λ w. (a, refl) }

pub Succeeds-modify : (f : World → World) → Succeeds (modify f)
unfolding modify
Succeeds-modify f = record { at = λ w. (tt, refl) }

pub Succeeds-bind :
    {A B : Type 0} (m : M A) (f : A → M B)
    → Succeeds m
    → ((a : A) → Succeeds (f a))
    → Succeeds (m >>= f)
unfolding ◌>>=◌
Succeeds-bind m f hm hf = record { at = λ w. let (a, e) = hm.at w in rw e ((hf a).at (m w).1) }

module _ (env : Env) where
  pub others_run-Succeeds : Succeeds (others_run env)
  unfolding others_run
  others_run-Succeeds = record { at = λ w. (tt, refl) }

  pub now_ms-Succeeds : Succeeds (now_ms env)
  unfolding now_ms
  now_ms-Succeeds = record { at = λ w. (env.clock w.tick, refl) }

  module _ (healthy : (n : ℕ) → env.store_fault n ≡ none) where
    pub persist-Succeeds : (write : Store → Store) → Succeeds (persist env write)
    unfolding persist written
    persist-Succeeds write = record { at = λ w. rw (healthy w.tick) (tt, refl) }

    pub append_to_store-Succeeds : (event : NewRuntimeEvent) → Succeeds (append_to_store env event)
    unfolding append_to_store appended
    append_to_store-Succeeds event = record { at = λ w. rw (healthy w.tick) (_, refl) }

pub ruleset succeeds_rules = (
  Succeeds-pure, Succeeds-modify, Succeeds-bind, others_run-Succeeds, now_ms-Succeeds,
  persist-Succeeds, append_to_store-Succeeds,
)
