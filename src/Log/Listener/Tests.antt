-- ===== src/Log/Listener/Tests.antt =====
-- The theorems about a change of the configuration at examples.
use sylar_from_scratch.Base.{ℕ, false, List, [], ◌∷◌, some, none, All, ◌≡◌, refl}
use sylar_from_scratch.Base.Bytes.{codes, same}
use sylar_from_scratch.Log.{log_formatter}
use sylar_from_scratch.Log.Logger.{LoggerManager}
use sylar_from_scratch.Log.Listener.{LogDefine, find_define, on_change, appender_of, new_appender}
use sylar_from_scratch.Log.Listener.Appenders.{appenders_of}
use sylar_from_scratch.Log.Listener.Apply.{Applies, IsUnique}
use sylar_from_scratch.Log.Listener.Change.{changed, on_change_lem}

abbrev system : LogDefine
system = record { name = codes "system"; level = 600; appenders = [] }

abbrev http : LogDefine
http = record {
  name = codes "http";
  level = 700;
  appenders = record { type = 2; pattern = codes "%m"; file = [] } ∷ [];
}

abbrev no_logger : LoggerManager
no_logger n = none

new-IsUnique : IsUnique (http ∷ system ∷ [])
unfolding IsUnique find_define same
new-IsUnique = (refl, (refl, tt))

new-Applies : All (λ i. Applies false i (find_define i.name (system ∷ []))) (http ∷ system ∷ [])
unfolding Applies find_define same appenders_of appender_of new_appender log_formatter
new-Applies = (refl, (refl, tt))

on_change_lem_example :
    (m' : LoggerManager) × (on_change false (system ∷ []) (http ∷ system ∷ []) no_logger ≡ some m')
    × ((n : List ℕ)
        → m' n
          ≡ changed false n
              (find_define n (http ∷ system ∷ []))
              (find_define n (system ∷ []))
              (no_logger n))
on_change_lem_example =
    on_change_lem false (system ∷ []) (http ∷ system ∷ []) no_logger new-IsUnique new-Applies

abbrev verbose : LogDefine
verbose = record system { level = 700 }

system_found : find_define (codes "system") (system ∷ []) ≡ some system
unfolding find_define same
system_found = refl
