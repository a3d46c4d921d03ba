-- ===== src/App/Life.antt =====
-- An application from its making to its end, app/app.go and app/gate.go. What etcd, the messaging
-- client, the server and the clock do is given: which calls fail, and which waits end.
use newtbig.Prelude.{
  ℕ, ◌-◌, ◌*◌, ltb, Bool, true, false, List, [], ◌∷◌, ◌++◌, Option, none, some, if◌then◌else◌,
  Bytes, Result, ok, err, map,
}
use newtbig.Options.{Options}
use newtbig.Options.Settings.{Setting}
use newtbig.App.Configuration.{Environment, Panic, apply_all, new_options}
use newtbig.Registry
use newtbig.Registry.{Call}
use newtbig.Ring.Interface.{SortedKeys}
use newtbig.Dispatcher.{Dispatcher, DispatchError}
use newtbig.Dispatcher

pub record App (S : SortedKeys) : Type 0 where
  pub opts : Options
  pub is_gate : Bool
  pub dispatcher : Option (Dispatcher S)
  -- Whether OnRegiste was given a function.
  pub registe : Bool

-- sync.Once with the variable that it sets; a panic inside of it leaves the variable nil.
pub data Once {ℓ} (A : Type ℓ) : Type ℓ where
  not_done : Once A
  done : Option A → Once A

module _ {S : SortedKeys} (env : Environment) (processor server : ℕ) where
  unfoldable pub made : Bool → Options → App S
  made is_gate options =
      let opts = record options { serv = some server } in
      record {
        opts = opts;
        is_gate = is_gate;
        dispatcher = some (Dispatcher.init S opts);
        registe = false;
      }

  make : Bool → List Setting → Once (App S) → Once (App S) × Result Panic (Option (App S))
  make is_gate settings (done app) = (done app, ok app)
  make is_gate settings not_done = elim (new_options env processor settings) [
    | err panic ↦ (done none, err panic)
    | ok st ↦ let app = made is_gate st.options in (done (some app), ok (some app))
  ]

  unfoldable pub new_app :
      List Setting → Once (App S) → Once (App S) × Result Panic (Option (App S))
  unfolding make
  new_app settings once = make false settings once

  unfoldable pub new_gate :
      List Setting → Once (App S) → Once (App S) × Result Panic (Option (App S))
  unfolding make
  new_gate settings once = make true settings once

-- The calls of OnInit, Run and OnDestroy, those of the service among them.
pub data Step : Type 0 where
  init_etcd init_process registe_handlers new_rpc start_rpc start_dispatcher : Step
  start_service cancel stop_rpc stop_dispatcher close_etcd : Step
  of_service : Call → Step

pub data LifeError : Type 0 where
  process_is_nil : LifeError
  failed : Step → LifeError

-- The steps that were made, and the error that is returned.
abbrev pub Trace : Type 0
Trace = List Step × Option LifeError

pub record World : Type 0 where
  pub fails : Step → Bool
  pub service_fails : Call → Bool
  -- How many milliseconds each call takes; none where it does not return.
  pub lasts : Step → Option ℕ
  pub hostname : Bytes
  pub pid : Bytes

-- A call whose error ends the function.
unfoldable pub try_call : World → Step → Trace → Trace
try_call w s rest = if w.fails s then (s ∷ [], some (failed s)) else (s ∷ rest.0, rest.1)

-- A call with no error.
abbrev pub and_then : Step → Trace → Trace
and_then s rest = (s ∷ rest.0, rest.1)

-- The service's calls up to the signal, and those after its context is cancelled.
unfoldable pub serve : World → List Step
serve w = map of_service (Registry.start_service w.service_fails).0

unfoldable pub finish : World → List Step
finish w = elim (Registry.start_service w.service_fails).1 [
  | some c ↦ []
  | none ↦ map of_service (Registry.stop_service w.service_fails).0
]

-- OnDestroy, which waits for the service; the errors of its last three calls are logged only.
unfoldable pub on_destroy : World → List Step
on_destroy w = cancel ∷ finish w ++ stop_rpc ∷ stop_dispatcher ∷ close_etcd ∷ []

-- The calls of a goroutine that return before a timer fires, which has so many milliseconds left. The
-- goroutine goes on behind it, and nothing waits for it.
unfoldable pub until_timer : World → ℕ → List Step → List Step
until_timer w left [] = []
until_timer w left (s ∷ steps) = elim (w.lasts s) [
  | none ↦ []
  | some t ↦ let rest = s ∷ until_timer w (left - t) steps in if ltb t left then rest else []
]

module _ {S : SortedKeys} where
  unfoldable pub update_options : List Setting → App S → App S
  update_options settings app = record app { opts = apply_all settings app.opts }

  unfoldable pub on_registe : App S → App S
  on_registe app = record app { registe = true }

  -- OnInit writes the name of the host and the process id first.
  unfoldable pub with_host : World → App S → App S
  with_host w app = record app { opts = record app.opts { host_name = w.hostname; pid = w.pid } }

  unfoldable pub on_init : World → App S → App S × Trace
  on_init w app =
      let rpc =
        try_call w new_rpc (try_call w start_rpc (try_call w start_dispatcher ([], none))) in
      let handlers = if app.registe then and_then registe_handlers rpc else rpc in
      let process : Trace = elim app.opts.process [
        | none ↦ ([], some process_is_nil)
        | some p ↦ and_then init_process handlers
      ] in
      (with_host w app, try_call w init_etcd process)

  -- Run, whose signal comes after the service has started: it returns when OnDestroy has, or when the
  -- timer of ExitWaitTTL seconds fires.
  unfoldable pub run : World → App S → App S × Trace
  run w app =
      let (app', (steps, failure)) = on_init w app in
      elim failure [
        | some e ↦ (app', (steps, some e))
        | none ↦ (
          app',
          (
            steps
                ++ start_service ∷ serve w
                ++ until_timer w (1000 * app'.opts.exit_wait_ttl) (on_destroy w),
            none,
          ),
        )
      ]

  unfoldable pub get_app_id : App S → Bytes
  get_app_id app = app.opts.server_type ++ b'/' ∷ app.opts.server_name

  unfoldable pub registe_ser : App S → ℕ → Bytes → Option (App S × Option DispatchError)
  registe_ser app id ser = elim app.dispatcher [
    | none ↦ none
    | some d ↦
        let (d', e) = Dispatcher.registe_ser d id ser in
        some (record app { dispatcher = some d' }, e)
  ]
