-- ===== src/Dispatcher/Watching.antt =====
-- The watcher's goroutine and Stop of dispatcher/dispatcher.go: the events come in responses, and
-- the loop ends when the channel of Watch or the exit channel is closed.
use newtbig.Prelude.{
  ◌≡◌, refl, sym, ◌∙◌, ap, Bool, true, false, List, [], ◌∷◌, ◌++◌, map, Option, none, some,
  if◌then◌else◌,
}
use newtbig.Ring.Interface.{SortedKeys}
use newtbig.Etcd.History.{events_of}
use newtbig.Dispatcher.{Dispatcher, Event, handle, watcher}

-- What the select of `watcher` receives.
pub data Turn : Type 0 where
  response : List Event → Turn
  channel_closed exit_closed : Turn

module _ {S : SortedKeys} where
  -- The loop, and whether it has returned.
  unfoldable pub watch_loop : Dispatcher S → List Turn → Dispatcher S × Bool
  watch_loop d [] = (d, false)
  watch_loop d (response events ∷ turns) = watch_loop (watcher d events) turns
  watch_loop d (channel_closed ∷ turns) = (d, true)
  watch_loop d (exit_closed ∷ turns) = (d, true)

  -- The goroutine, given what Watch returns: a channel, or an error.
  unfoldable pub run_watcher : Dispatcher S → Option (List Turn) → Dispatcher S × Bool
  run_watcher d none = (d, true)
  run_watcher d (some turns) = watch_loop d turns

  watcher-append :
      (d : Dispatcher S) (xs ys : List Event) → watcher d (xs ++ ys) ≡ watcher (watcher d xs) ys
  unfolding watcher
  watcher-append d [] ys = refl
  watcher-append d (x ∷ xs) ys = watcher-append (handle d x) xs ys

-- Stop, given whether the exit channel is closed already; None is a panic.
unfoldable pub stop : Bool → Option Bool
stop exit_is_closed = if exit_is_closed then none else some true

-- However its events are spread over the responses, a watcher has handled them in order when Stop
-- ends it, and takes none that would follow.
pub run_watcher-watcher :
    {S : SortedKeys} (d : Dispatcher S) (responses : List (List Event)) (rest : List Turn)
    → run_watcher d (some (map response responses ++ exit_closed ∷ rest))
      ≡ (watcher d (events_of responses), true)
unfolding run_watcher watch_loop watcher
run_watcher-watcher d [] rest = refl
run_watcher-watcher d (events ∷ responses) rest =
    run_watcher-watcher (watcher d events) responses rest
    ∙ ap (λ x. (x, true)) (sym (watcher-append d events (events_of responses)))
