-- ===== src/World/Frame.antt =====
-- What a write to the store leaves alone: all but the store and the number of the question.
use gooselake.Base.{suc, ◌≡◌, arith}
use gooselake.World.{World, Env, persist, append_to_store}
use gooselake.Store.{Store, NewRuntimeEvent}

module _ (env : Env) where
  pub persist-frame :
      (write : Store → Store) (w : World)
      → (persist env write w).1
        ≡ record w { store = (persist env write w).1.store; tick = suc w.tick }
  unfolding persist
  persist-frame write w = ground arith

  pub append_to_store-frame :
      (event : NewRuntimeEvent) (w : World)
      → (append_to_store env event w).1
        ≡ record w { store = (append_to_store env event w).1.store; tick = suc w.tick }
  unfolding append_to_store
  append_to_store-frame event w = ground arith
