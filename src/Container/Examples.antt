-- ===== src/Container/Examples.antt =====
-- A container of backend/framework/container.go with a singleton that asks for a service, an alias of
-- it, and a scoped service.
use bridra.Common.{ℕ, ◌+◌, ◌≡◌, refl, none, some, [], ◌∷◌, Result, ok, err, arith}
use bridra.Container.Service.{
  ServiceId, Container, Program, return, ask, singleton, scoped, find, Error, circular_dependency,
}
use bridra.Container.Resolution.{
  Instances, interpret, resolve_binding, resolve, stack_from, has_singleton,
}
use bridra.Container.Termination.{Ends, resolve-Ends}
use bridra.Container.Isolation.{singleton_ignores_scope}
use bridra.Container.Singletons.{serve, singleton_made_once}

abbrev config : ServiceId
config = record { name = "config"; value_type = 1 }

abbrev logger : ServiceId
logger = record { name = "logger"; value_type = 2 }

abbrev log : ServiceId
log = record { name = "log"; value_type = 2 }

abbrev session : ServiceId
session = record { name = "session"; value_type = 3 }

abbrev next_of : Result Error ℕ → Program ℕ
next_of (ok v) = return (ok (v + 1))
next_of (err e) = return (err e)

-- A factory that asks for one service and returns its successor.
abbrev successor_of : ServiceId → Program ℕ
successor_of id = ask id next_of

abbrev container : Container ℕ
container = record {
  services = (config, 5) ∷ [];
  bindings =
      (session, record { lifetime = scoped; factory = successor_of logger })
      ∷ (logger, record { lifetime = singleton; factory = successor_of config })
      ∷ [];
  aliases = (log, logger) ∷ [];
}

abbrev fresh : Instances ℕ
fresh = record { singletons = []; scope = none }

abbrev made : Instances ℕ
made = record { singletons = (logger, 6) ∷ []; scope = none }

abbrev used : Instances ℕ
used = record { singletons = (logger, 6) ∷ []; scope = some ((session, 7) ∷ []) }

resolve-Ends_example : Ends (resolve container 4 [] log fresh)
resolve-Ends_example = resolve-Ends container 4 log fresh (omega arith)

singleton_made_once_example :
    resolve container 1 [] logger (record used { scope = some [] })
    ≡ some (ok 6, record used { scope = some [] })
unfolding find resolve resolve_binding interpret stack_from has_singleton serve
singleton_made_once_example =
    singleton_made_once container logger (successor_of config) refl refl refl 4 fresh made used 6
      ((some [], session) ∷ []) (some []) 0 refl refl

-- Two bindings that ask for each other are answered with their path.
abbrev cyclic : Container ℕ
cyclic = record {
  services = [];
  bindings =
      (session, record { lifetime = singleton; factory = successor_of logger })
      ∷ (logger, record { lifetime = singleton; factory = successor_of session })
      ∷ [];
  aliases = [];
}

cycle_found :
    resolve cyclic 3 [] logger fresh
    ≡ some (err (circular_dependency ("logger" ∷ "session" ∷ "logger" ∷ [])), fresh)
unfolding find resolve resolve_binding interpret stack_from has_singleton
cycle_found = refl

singleton_ignores_scope_example :
    resolve container 4 [] logger (record fresh { scope = some ((session, 7) ∷ []) })
    ≡ some (ok 6, record made { scope = some ((session, 7) ∷ []) })
unfolding find resolve resolve_binding interpret stack_from has_singleton
singleton_ignores_scope_example =
    singleton_ignores_scope (some ((session, 7) ∷ [])) container 4 logger (successor_of config)
      fresh refl refl refl
