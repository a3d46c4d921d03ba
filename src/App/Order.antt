-- ===== src/App/Order.antt =====
-- The order of the calls of an application.
use newtbig.Prelude.{
  ℕ, ◌+◌, ◌<◌, ◌≤◌, nat_eq, ◌⊎◌, ◌≡◌, if◌then◌else◌, false, List, [], ◌∷◌, ◌++◌, none, some, arith,
  All,
}
use newtbig.Registry
use newtbig.Registry.{
  Call, before_start, start, register, after_start, before_stop, deregister, stop, after_stop,
}
use newtbig.Ring.Interface.{SortedKeys}
use newtbig.App.Life.{
  App, World, Step, LifeError, init_etcd, init_process, registe_handlers, new_rpc, start_rpc,
  start_dispatcher, start_service, cancel, stop_rpc, stop_dispatcher, close_etcd, of_service,
  try_call, on_init, run,
}

-- The steps of OnInit.
abbrev pub IsInit : Step → Type 0
IsInit init_etcd = Unit
IsInit init_process = Unit
IsInit registe_handlers = Unit
IsInit new_rpc = Unit
IsInit start_rpc = Unit
IsInit start_dispatcher = Unit
IsInit _ = ⊥

module _ {S : SortedKeys} (w : World) (app : App S) where
  -- When Run returns an error, it has made steps of OnInit only: no service was started, and what
  -- OnInit had started or connected is neither stopped nor closed.
  pub run_failed : (e : LifeError) → (run w app).1.1 ≡ some e → All IsInit (run w app).1.0
  unfolding run on_init try_call
  run_failed e h = ground arith

  -- The calls that can end a start with an error succeed.
  pub record Starts : Type 0 where
    pub has_process : ¬ (app.opts.process ≡ none)
    pub etcd : w.fails init_etcd ≡ false
    pub client : w.fails new_rpc ≡ false
    pub rpc : w.fails start_rpc ≡ false
    pub dispatcher : w.fails start_dispatcher ≡ false

  abbrev pub starting : List Step
  starting =
      init_etcd ∷ init_process ∷ (if app.registe then registe_handlers ∷ [] else [])
      ++ new_rpc ∷ start_rpc ∷ start_dispatcher ∷ []

  abbrev pub serving : List Step
  serving =
      start_service
      ∷ of_service before_start
      ∷ of_service start
      ∷ of_service register
      ∷ of_service after_start
      ∷ []

  -- The calls of a stop: the service is cancelled, deregisters and stops, and only then the RPC
  -- client, the dispatcher and the etcd client are stopped.
  abbrev pub stopping : List Step
  stopping =
      cancel
      ∷ of_service before_stop
      ∷ of_service deregister
      ∷ of_service stop
      ∷ of_service after_stop
      ∷ stop_rpc
      ∷ stop_dispatcher
      ∷ close_etcd
      ∷ []

  -- Calls that return one after another, in so many milliseconds in all.
  pub data Took : List Step → ℕ → Type 0 where
    nothing : Took [] 0
    one_more :
        {s : Step} {steps : List Step} {t n : ℕ}
        → w.lasts s ≡ some t
        → Took steps n
        → Took (s ∷ steps) (t + n)

  -- Made calls of a list, and the ones that are left: the made ones took less than a time, and no more
  -- would have.
  pub record Cut (limit : ℕ) (steps made left : List Step) : Type 0 where
    pub split : steps ≡ made ++ left
    pub spent : ℕ
    pub took : Took made spent
    pub in_time : made ≡ [] ⊎ (spent < limit)
    pub full :
        (s : Step) (rest : List Step)
        → left ≡ s ∷ rest
        → (t : ℕ) → w.lasts s ≡ some t
        → limit ≤ spent + t
