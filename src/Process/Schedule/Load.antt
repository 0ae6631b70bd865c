-- ===== src/Process/Schedule/Load.antt =====
-- The parts of a step that take and give no permit.
use gooselake.Base.{if◌then◌else◌, String, ◌≡◌, refl, ◌∙◌, Bool, true, false, Option}
use gooselake.Error.{RuntimeError, Result, ok, err}
use gooselake.Records.{ProcessRecord, RuntimeEventCriticality}
use gooselake.Store.{Payload}
use gooselake.Process.{
  Manager, ProcessEnv, M, pure, raise, gets, attempt, modify, ◌>>=◌, continue, now_ms, persist,
  append_process_event,
}
use gooselake.Process.Told.{append_process_event-told, persist-told}

-- The permits, the calls that hold one, and the configuration are as before.
pub record SameLoad (m m' : Manager) : Type 0 where
  pub permits : m'.permits ≡ m.permits
  pub tasks : m'.tasks ≡ m.tasks
  pub config : m'.config ≡ m.config

pub record Keeps {A : Type 0} (op : M A) : Type 0 where
  pub at : (m : Manager) → SameLoad m (op m).1

pub SameLoad-refl : (m : Manager) → SameLoad m m
SameLoad-refl m = record { permits = refl; tasks = refl; config = refl }

SameLoad-trans : {m n o : Manager} → SameLoad m n → SameLoad n o → SameLoad m o
SameLoad-trans a b = record {
  permits = b.permits ∙ a.permits;
  tasks = b.tasks ∙ a.tasks;
  config = b.config ∙ a.config;
}

module _ {A : Type 0} where
  pub pure-Keeps : (a : A) → Keeps (pure a)
  unfolding pure
  pure-Keeps a = record { at = SameLoad-refl }

  pub raise-Keeps : (e : RuntimeError) → Keeps {A = A} (raise e)
  unfolding raise
  raise-Keeps e = record { at = SameLoad-refl }

  pub gets-Keeps : (f : Manager → A) → Keeps (gets f)
  unfolding gets
  gets-Keeps f = record { at = SameLoad-refl }

  pub attempt-Keeps : (op : M A) → Keeps op → Keeps (attempt op)
  unfolding attempt
  attempt-Keeps op h = record { at = h.at }

  pub if-Keeps : (b : Bool) (op next : M A) → Keeps op → Keeps next → Keeps (if b then op else next)
  if-Keeps true op next h k = h
  if-Keeps false op next h k = k

pub modify-Keeps : (f : Manager → Manager) → ((m : Manager) → SameLoad m (f m)) → Keeps (modify f)
unfolding modify
modify-Keeps f h = record { at = h }

module _ {A B : Type 0} where
  continue-SameLoad :
      (r : Result A) (f : A → M B) (m n : Manager)
      → ((a : A) → Keeps (f a))
      → SameLoad m n
      → SameLoad m (continue r f n).1
  continue-SameLoad (ok a) f m n h s = SameLoad-trans s ((h a).at n)
  continue-SameLoad (err e) f m n h s = s

  pub >>=-Keeps : (op : M A) (f : A → M B) → Keeps op → ((a : A) → Keeps (f a)) → Keeps (op >>= f)
  unfolding ◌>>=◌
  >>=-Keeps op f h k = record { at = λ m. continue-SameLoad (op m).0 f m (op m).1 k (h.at m) }

module _ (env : ProcessEnv) where
  pub now_ms-Keeps : Keeps (now_ms env)
  unfolding now_ms
  now_ms-Keeps = record { at = λ m. record { permits = refl; tasks = refl; config = refl } }

  pub persist-Keeps : (row : ProcessRecord) → Keeps (persist env row)
  persist-Keeps row = record {
    at = λ m.
        let (s, e) = persist-told env row m in
        rw e (record { permits = refl; tasks = refl; config = refl });
  }

  pub append_process_event-Keeps :
      (id : String) (session_id : Option String) (kind : String)
      (criticality : RuntimeEventCriticality) (payload : Payload)
      → Keeps (append_process_event env id session_id kind criticality payload)
  append_process_event-Keeps id session_id kind criticality payload = record {
    at = λ m.
        let (s, e) = append_process_event-told env id session_id kind criticality payload m in
        rw e (record { permits = refl; tasks = refl; config = refl });
  }

pub ruleset keeps_rules = (
  pure-Keeps, raise-Keeps, gets-Keeps, attempt-Keeps, modify-Keeps, >>=-Keeps, now_ms-Keeps,
  persist-Keeps, append_process_event-Keeps,
)
